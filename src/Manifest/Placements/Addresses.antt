-- ===== src/Manifest/Placements/Addresses.antt =====
-- internal/manifest/app.go, `buildAppPlacements`: the cells that are placed, and their addresses.
use pulp.Prelude.{
  ℕ, ◌≡◌, refl, sym, subst, ap, ◌∙◌, true, ◌&&◌, List, [], ◌∷◌, ◌++◌, Option, none, some, ok, ◌==◌,
  contains, ltb, arith, All, map, length, >>=_ok, ok_eq,
}
use pulp.Prelude.Sets.{Distinct, Distinct-join, contains-append}
use pulp.Prelude.Text.{Text, text_eq}
use pulp.Prelude.Dict.{Dict, lookup}
use pulp.Manifest.Cells.{CellSpec}
use pulp.Manifest.Placements.{
  RawPlacement, CellPlacement, placement_instances, clone_spec, configure, all_instances,
  address_of, place_cell, place_cells, build_placements,
}
use pulp.Manifest.Placements.Names.{before_at, addresses-Distinct, before_at-address}
use pulp.Manifest.Placements.Instances.{IsPlain, AreInstances, placement_instances-AreInstances}

map-append : {A B : Type 0} (f : A → B) (xs ys : List A) → map f (xs ++ ys) ≡ map f xs ++ map f ys
map-append f [] ys = refl
map-append f (x ∷ xs) ys = ap (λ zs. f x ∷ zs) (map-append f xs ys)

module _ {Other : Type 0} where
  abbrev pub names_of : List (CellSpec Other) → List Text
  names_of cells = map (λ c. c.name) cells

  addresses-place_cell :
      (configured : Dict Text (RawPlacement Other)) (c : CellSpec Other) (count : ℕ)
      (is : List Text)
      → map (λ p. p.address) (place_cell configured c count is) ≡ map (address_of c.name count) is
  unfolding place_cell
  addresses-place_cell configured c count [] = refl
  addresses-place_cell configured c count (i ∷ is) =
      ap (λ rest. address_of c.name count i ∷ rest) (addresses-place_cell configured c count is)

  abbrev AllInstances : List (CellSpec Other × List Text) → Type 0
  AllInstances cells = All (λ (c, is). AreInstances is) cells

  addresses-cons :
      (configured : Dict Text (RawPlacement Other)) (c : CellSpec Other) (is : List Text)
      (rest : List (CellSpec Other × List Text))
      → map (λ p. p.address) (place_cells configured ((c, is) ∷ rest))
        ≡ map (address_of c.name (length is)) is
          ++ map (λ p. p.address) (place_cells configured rest)
  unfolding place_cells
  addresses-cons configured c is rest =
      map-append (λ p. p.address) (place_cell configured c (length is) is)
        (place_cells configured rest)
      ∙ ap (λ xs. xs ++ map (λ p. p.address) (place_cells configured rest))
          (addresses-place_cell configured c (length is) is)

  before_at-place_cells :
      (configured : Dict Text (RawPlacement Other)) (cells : List (CellSpec Other × List Text))
      (a : Text)
      → All (λ (c, is). IsPlain c.name) cells
      → contains (map (λ p. p.address) (place_cells configured cells)) a ≡ true
      → contains (map (λ (c, is). c.name) cells) (before_at a) ≡ true
  unfolding place_cells
  before_at-place_cells configured [] a h c = absurd cc
  before_at-place_cells configured ((c, is) ∷ rest) a h k =
      let others = map (λ p. p.address) (place_cells configured rest) in
      let split = addresses-cons configured c is rest in
      ground (
        arith,
        split,
        contains-append (map (address_of c.name (length is)) is) others a,
        before_at-address c.name (length is) is a h.0,
        before_at-place_cells configured rest a h.1,
      )

  place_cells-Distinct :
      (configured : Dict Text (RawPlacement Other)) (cells : List (CellSpec Other × List Text))
      → All (λ (c, is). IsPlain c.name) cells
      → AllInstances cells
      → Distinct (map (λ (c, is). c.name) cells)
      → Distinct (map (λ p. p.address) (place_cells configured cells))
  unfolding place_cells
  place_cells-Distinct configured [] h i d = tt
  place_cells-Distinct configured ((c, is) ∷ rest) h i d =
      subst Distinct (sym (addresses-cons configured c is rest)) (
        Distinct-join (map (address_of c.name (length is)) is)
          (map (λ p. p.address) (place_cells configured rest))
          (addresses-Distinct c.name is i.0.distinct)
          (place_cells-Distinct configured rest h.1 i.1 d.1)
          (λ a k. ground (
            arith,
            d.0,
            before_at-address c.name (length is) is a h.0 k,
            before_at-place_cells configured rest a h.1,
          )))

  all_instances_steps :
      (configured : Dict Text (RawPlacement Other)) (order : List (CellSpec Other))
      (cells : List (CellSpec Other × List Text))
      → all_instances configured order ≡ ok cells
      → AllInstances cells × (map (λ (c, is). c) cells ≡ order)
  unfolding all_instances
  all_instances_steps configured [] cells h = ground arith
  all_instances_steps configured (c ∷ rest) cells h =
      let (instances, one, h1) =
        >>=_ok (placement_instances (lookup c.name configured)) _ cells h in
      let (more, done, e) = >>=_ok (all_instances configured rest) _ cells h1 in
      let (are, same) = all_instances_steps configured rest more done in
      rw (sym (ok_eq _ cells _ refl e)) (
        (placement_instances-AreInstances (lookup c.name configured) instances one, are),
        ap (λ cs. c ∷ cs) same,
      )

  clone_spec-name :
      (c : CellSpec Other) (p : Option (RawPlacement Other)) → (clone_spec c p).name ≡ c.name
  unfolding clone_spec
  clone_spec-name c none = refl
  clone_spec-name c (some p) = refl

  place_cell-names :
      (configured : Dict Text (RawPlacement Other)) (c : CellSpec Other) (count : ℕ)
      (is : List Text) (n : Text)
      → contains (map (λ p. p.spec.name) (place_cell configured c count is)) n
        ≡ (ltb 0 (length is) && n == c.name)
  unfolding place_cell
  place_cell-names configured c count [] n = refl
  place_cell-names configured c count (i ∷ is) n = ground (
    arith,
    clone_spec-name c (lookup c.name configured),
    place_cell-names configured c count is n,
  )

  place_cells-names :
      (configured : Dict Text (RawPlacement Other)) (cells : List (CellSpec Other × List Text))
      (n : Text)
      → AllInstances cells
      → contains (map (λ p. p.spec.name) (place_cells configured cells)) n
        ≡ contains (map (λ (c, is). c.name) cells) n
  unfolding place_cells
  place_cells-names configured [] n i = refl
  place_cells-names configured ((c, is) ∷ rest) n i = ground (
    arith,
    i.0.some_instance,
    map-append (λ p. p.spec.name) (place_cell configured c (length is) is)
        (place_cells configured rest),
    contains-append (map (λ p. p.spec.name) (place_cell configured c (length is) is))
        (map (λ p. p.spec.name) (place_cells configured rest)) n,
    place_cell-names configured c (length is) is n,
    place_cells-names configured rest n i.1,
  )

  -- Placements of these cells and no other, at addresses that are all different.
  pub record ArePlacements (order : List (CellSpec Other)) (placements : List (CellPlacement Other))
      : Type 0 where
    pub cells :
        (n : Text) → contains (map (λ p. p.spec.name) placements) n ≡ contains (names_of order) n
    pub addresses : Distinct (map (λ p. p.address) placements)

  names-cells :
      (cells : List (CellSpec Other × List Text))
      → map (λ (c, is). c.name) cells ≡ names_of (map (λ (c, is). c) cells)
  names-cells [] = refl
  names-cells ((c, is) ∷ rest) = ap (λ ns. c.name ∷ ns) (names-cells rest)

  plain-cells :
      (cells : List (CellSpec Other × List Text))
      → All IsPlain (map (λ (c, is). c.name) cells)
      → All (λ (c, is). IsPlain c.name) cells
  plain-cells [] h = tt
  plain-cells ((c, is) ∷ rest) h = (h.0, plain-cells rest h.1)

  -- Every cell is placed, at addresses that are all different, if no name of a cell has an `@`.
  pub build_placements-ArePlacements :
      (set order : List (CellSpec Other)) (raw : List (RawPlacement Other))
      (placements : List (CellPlacement Other))
      → build_placements set order raw ≡ ok placements
      → Distinct (names_of order)
      → All IsPlain (names_of order)
      → ArePlacements order placements
  unfolding build_placements
  build_placements-ArePlacements set order raw placements h d plain =
      let (configured, _, h1) = >>=_ok (configure set raw []) _ placements h in
      let (cells, listed, e) = >>=_ok (all_instances configured order) _ placements h1 in
      let (are, same) = all_instances_steps configured order cells listed in
      let names = names-cells cells ∙ ap names_of same in
      rw (sym (ok_eq _ placements _ refl e)) (record {
        cells = λ n. place_cells-names configured cells n are ∙ ap (λ ns. contains ns n) names;
        addresses =
            place_cells-Distinct configured cells
              (plain-cells cells (subst (All IsPlain) (sym names) plain)) are
              (subst Distinct (sym names) d);
      })
