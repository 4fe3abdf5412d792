-- ===== src/Manifest/Sets/Wired.antt =====
-- internal/manifest/batch.go: which cells make a set, and what the set is.
use pulp.Prelude.{
  ◌≡◌, ◌≢◌, ◌↔◌, refl, sym, ◌∙◌, true, false, ◌||◌, List, [], ◌∷◌, none, some, ok, contains, map,
  arith, All, ℕ, fail_if-passed, >>=_ok, ok_eq,
}
use pulp.Prelude.Text.{Text, text_eq, is_empty}
use pulp.Prelude.Dict.{Dict, lookup, insert, lookup-insert}
use pulp.Dependency.Plan.{Plan, build, has}
use pulp.Dependency.Plan.Edges.{ids}
use pulp.Dependency.Plan.Validation.{ValidIds, ValidDeps, ValidItems}
use pulp.Dependency.Plan.Correct.{IsValid}
use pulp.Dependency.Plan.Ranks.{IsStartOrder, IsRanked}
use pulp.Dependency.Plan.Orders.{build-IsStartOrder, build_iff}
use pulp.Manifest.Sets.Owners.{IsWired, check_all_consumed-IsWired}
use pulp.Manifest.Cells.{CellSpec, lift_ok}
use pulp.Manifest.Sets.{
  duplicate_cell, bad_plan, CellSet, lookup_cell, index_cells, add_owners, check_all_consumed,
  check_dependencies, check_all_dependencies, cell_item, build_set,
}

map_congr :
    {A B : Type 0} {f g : A → B} → ((a : A) → f a ≡ g a) → (xs : List A) → map f xs ≡ map g xs
map_congr e [] = refl
map_congr e (x ∷ xs) = cc (e x, map_congr e xs)

module _ {Other : Type 0} where
  -- The map of the cells by name.
  index_cells-lookup :
      (specs : List (CellSpec Other)) (d d' : Dict Text (CellSpec Other)) (k : Text)
      → index_cells specs d ≡ ok d'
      → ((has k d ≡ true) → lookup_cell k specs ≡ none)
        × (lookup k d' ≡ elim (lookup_cell k specs) [ none ↦ lookup k d | some c ↦ some c ])
  unfolding index_cells lookup_cell
  index_cells-lookup [] d d' k h = ground arith
  index_cells-lookup (c ∷ rest) d d' k h =
      let (fresh, h1) = fail_if-passed (has c.name d) (duplicate_cell c.name) _ _ h in
      let (none_left, e) = index_cells-lookup rest (insert c.name c d) d' k h1 in
      ground (arith, fresh, none_left, e, lookup-insert k c.name c d)

  index_cells_total :
      (specs : List (CellSpec Other)) (seen : List Text) (d : Dict Text (CellSpec Other))
      → ValidIds seen (map cell_item specs)
      → ((k : Text) → has k d ≡ contains seen k)
      → (d' : Dict Text (CellSpec Other)) × (index_cells specs d ≡ ok d')
        × ((k : Text) → has k d' ≡ (contains seen k || contains (ids (map cell_item specs)) k))
  unfolding index_cells
  index_cells_total [] seen d v keys = (d, refl, λ k. ground (arith, keys k))
  index_cells_total (c ∷ rest) seen d v keys =
      let (d', e, all_keys) =
        index_cells_total rest (c.name ∷ seen) (insert c.name c d) v.2
          (λ k. ground (arith, keys k, lookup-insert k c.name c d)) in
      (d', ground (arith, keys c.name, e), λ k. ground (arith, all_keys k))

  ValidDeps-checked :
      (d : Dict Text (CellSpec Other)) (nodes seen : List Text) (name : Text) (ds : List Text)
      → ValidDeps nodes name seen ds
      → ((k : Text) → has k d ≡ contains nodes k)
      → check_dependencies d name ds ≡ ok tt
  unfolding check_dependencies
  ValidDeps-checked d nodes seen name [] v keys = refl
  ValidDeps-checked d nodes seen name (x ∷ ds) v keys =
      ground (arith, keys x, ValidDeps-checked d nodes (x ∷ seen) name ds v.3 keys)

  ValidItems-checked :
      (d : Dict Text (CellSpec Other)) (nodes : List Text) (specs : List (CellSpec Other))
      → ValidItems nodes (map cell_item specs)
      → ((k : Text) → has k d ≡ contains nodes k)
      → check_all_dependencies d specs ≡ ok tt
  unfolding check_all_dependencies
  ValidItems-checked d nodes [] v keys = refl
  ValidItems-checked d nodes (c ∷ rest) v keys =
      rw (ValidDeps-checked d nodes [] c.name c.depends_on v.0 keys)
        (ValidItems-checked d nodes rest v.1 keys)

  -- The steps of `buildSet`.
  build_set_steps :
      (specs : List (CellSpec Other)) (s : CellSet Other)
      → build_set specs ≡ ok s
      → (d : Dict Text (CellSpec Other)) × (index_cells specs [] ≡ ok d)
        × (check_all_consumed (add_owners specs []) specs ≡ ok tt)
        × (check_all_dependencies d specs ≡ ok tt)
        × (p : Plan) × (build (map cell_item specs) ≡ ok p)
        × (s ≡ record { cells = specs; order = map (λ id. lookup id d) p.start_order; plan = p })
  unfolding build_set
  build_set_steps specs s h =
      let (_, h1) = fail_if-passed _ _ _ s h in
      let (d, indexed, h2) = >>=_ok _ _ s h1 in
      let (u, wired, h3) = >>=_ok _ _ s h2 in
      let (w, checked, h4) = >>=_ok _ _ s h3 in
      let (p, built, e) = >>=_ok _ _ s h4 in
      (d, indexed, wired, checked, p, lift_ok bad_plan _ p built, ok_eq _ _ _ e refl)

  -- Every name of a cell leads to a cell.
  known_cell :
      (specs : List (CellSpec Other)) (id : Text)
      → contains (ids (map cell_item specs)) id ≡ true
      → lookup_cell id specs ≢ none
  unfolding lookup_cell
  known_cell [] id h = absurd cc
  known_cell (c ∷ rest) id h = ground (arith, known_cell rest id)

  found :
      (specs : List (CellSpec Other)) (d : Dict Text (CellSpec Other)) (id : Text)
      → index_cells specs [] ≡ ok d
      → lookup id d ≡ lookup_cell id specs
  unfolding lookup
  found specs d id h = ground (arith, (index_cells-lookup specs [] d id h).1)

  map_some :
      (specs : List (CellSpec Other)) (names : List Text)
      → ((id : Text) → contains names id ≡ true → contains (ids (map cell_item specs)) id ≡ true)
      → All (λ c. c ≢ none) (map (λ id. lookup_cell id specs) names)
  map_some specs [] h = tt
  map_some specs (id ∷ rest) h =
      (known_cell specs id (h id (ground arith)), map_some specs rest (λ x c. h x (ground arith)))

  -- A set of cells that are started in an order of their dependencies.
  pub record IsDeployment (specs : List (CellSpec Other)) (s : CellSet Other) : Type 0 where
    pub cells : s.cells ≡ specs
    pub start_order : IsStartOrder (map cell_item specs) s.plan.start_order
    pub order : s.order ≡ map (λ id. lookup_cell id specs) s.plan.start_order
    pub no_nil : All (λ c. c ≢ none) s.order

  pub build_set-IsDeployment :
      (specs : List (CellSpec Other)) (s : CellSet Other)
      → build_set specs ≡ ok s
      → IsDeployment specs s
  unfolding lookup
  build_set-IsDeployment specs s h =
      let (d, indexed, wired, _, p, built, e) = build_set_steps specs s h in
      let (started, _) = build-IsStartOrder (map cell_item specs) p built in
      let e' = map_congr (λ id. found specs d id indexed) p.start_order in
      rw e (record {
        cells = refl;
        start_order = started;
        order = e';
        no_nil = rw e' (map_some specs p.start_order (λ id c. sym (started.members id) ∙ c));
      })

  some_specs :
      (specs : List (CellSpec Other))
      → is_empty (map cell_item specs) ≡ false
      → is_empty specs ≡ false
  some_specs [] h = absurd cc
  some_specs (c ∷ rest) h = refl

  -- The tests on names and dependencies that come before `Build` are those of `Build`.
  pub build_set_iff :
      (specs : List (CellSpec Other))
      → ((s : CellSet Other) × (build_set specs ≡ ok s)) ↔ (
          IsWired specs
          × IsValid (map cell_item specs)
          × ((rank : Text → ℕ) × IsRanked rank (map cell_item specs)))
  unfolding build_set lookup
  build_set_iff specs = (
    λ (s, h).
        let (d, _, wired, _, p, built, _) = build_set_steps specs s h in
        let (v, rank, r) = (build_iff (map cell_item specs)).0 (p, built) in
        ((check_all_consumed-IsWired specs).0 wired, v, (rank, r)),
    λ (wired, v, (rank, r)).
        let (p, built) = (build_iff (map cell_item specs)).1 (v, rank, r) in
        let (d, indexed, keys) = index_cells_total specs [] [] v.names (λ k. refl) in
        (
          record { cells = specs; order = map (λ id. lookup id d) p.start_order; plan = p },
          rw
              (
                some_specs specs v.some_item,
                indexed,
                (check_all_consumed-IsWired specs).1 wired,
                ValidItems-checked d _ specs v.dependencies keys,
                built,
              )
              refl,
        ),
  )
