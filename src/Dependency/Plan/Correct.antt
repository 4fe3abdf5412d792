-- ===== src/Dependency/Plan/Correct.antt =====
-- internal/dependency/plan.go, `Build`: what it accepts, and the orders that it returns.
use mathlib.Core.List.{append-nil}
use pulp.Prelude.{
  ℕ, suc, ◌≡◌, refl, ap, false, List, [], ◌∷◌, ◌++◌, ok, Result-cases, eqb, contains, if◌then◌else◌,
  length, arith, Bool-cases, inl, inr,
}
use pulp.Prelude.Text.{Text, text_eq, is_empty}
use pulp.Prelude.Dict.{Dict, lookup, insert, lookup-insert}
use pulp.Prelude.Sets.{Distinct}
use pulp.Dependency.Plan.{
  Item, Plan, value_at, Links, count_dependencies, initially_ready, ordinal_less, run_levels,
  sort_links, number_items, link_items, finish, build,
}
use pulp.Dependency.Plan.Edges.{ids, deps_of, IsGraph, empty_links, empty-IsGraph}
use pulp.Dependency.Plan.Validation.{
  IsKeys, ValidIds, ValidIds-fresh, ValidItems, DepsAre, number_items-ok, number_items_total,
  link_items-ok, link_items_total, link_all, link_all-DepsAre, link_all-IsGraph, sort_links-IsGraph,
}
use pulp.Dependency.Plan.Counts.{missing, missing-nil}
use pulp.Dependency.Plan.Kahn.{IsSweep, IsLoop, level_loop-IsLoop}

pub length-ids : (items : List Item) → length (ids items) ≡ length items
length-ids [] = refl
length-ids (item ∷ items) = ap suc (length-ids items)

empty-deps : (x : Text) → deps_of empty_links x ≡ []
unfolding empty_links lookup
empty-deps x = refl

nothing_in : (xs : List Text) → ((y : Text) → contains xs y ≡ false) → xs ≡ []
nothing_in [] h = refl
nothing_in (x ∷ xs) h = absurd (ground (arith, h x))

value_at-count_dependencies :
    (d : Dict Text (List Text)) (items : List Item) (r : Dict Text ℕ) (y : Text)
    → value_at y (count_dependencies d items r) 0
      ≡ (if contains (ids items) y then length (value_at y d []) else value_at y r 0)
unfolding count_dependencies
value_at-count_dependencies d [] r y = refl
value_at-count_dependencies d (item ∷ items) r y = ground (
  arith,
  value_at-count_dependencies d items (insert item.id (length (value_at item.id d [])) r) y,
  lookup-insert y item.id (length (value_at item.id d [])) r,
)

contains-initially_ready :
    (d : Dict Text (List Text)) (items : List Item) (y : Text)
    → contains (initially_ready d items) y
      ≡ (if contains (ids items) y then eqb (length (value_at y d [])) 0 else false)
unfolding initially_ready
contains-initially_ready d [] y = refl
contains-initially_ready d (item ∷ items) y = ground (arith, contains-initially_ready d items y)

Distinct-initially_ready :
    (d : Dict Text (List Text)) (items : List Item)
    → Distinct (ids items)
    → Distinct (initially_ready d items)
unfolding initially_ready
Distinct-initially_ready d [] h = tt
Distinct-initially_ready d (item ∷ items) h =
    ground
      (arith, h.0, contains-initially_ready d items item.id, Distinct-initially_ready d items h.1)

module _ (items : List Item) (l : Links) (g : IsGraph (ids items) l)
    (distinct : Distinct (ids items)) where
  counted_initially :
      (y : Text)
      → value_at y (count_dependencies l.dependencies items []) 0 ≡ missing [] (deps_of l y)
  unfolding lookup
  counted_initially y = elim (Bool-cases (contains (ids items) y)) [
    | inl here ↦
        ground
          (arith, value_at-count_dependencies l.dependencies items [] y, missing-nil (deps_of l y))
    | inr outside ↦ ground (
      arith,
      value_at-count_dependencies l.dependencies items [] y,
      missing-nil (deps_of l y),
      nothing_in (deps_of l y) (λ d. ground (arith, g.sources y d)),
    )
  ]

  ready_initially :
      (y : Text)
      → contains (initially_ready l.dependencies items ++ []) y
        ≡ (if contains (ids items) y then eqb (missing [] (deps_of l y)) 0 else false)
  ready_initially y =
      rw (append-nil (initially_ready l.dependencies items))
        (rw (missing-nil (deps_of l y)) (contains-initially_ready l.dependencies items y))

  start-IsSweep :
      IsSweep
        (ids items)
        l
        g
        []
        (initially_ready l.dependencies items)
        []
        (count_dependencies l.dependencies items [])
  start-IsSweep = record {
    counted = counted_initially;
    reached = λ y h. ground (arith, ready_initially y);
    complete = λ y n h. ground (arith, ready_initially y);
    distinct =
        rw (append-nil (initially_ready l.dependencies items))
          (Distinct-initially_ready l.dependencies items distinct);
    ordered = tt;
  }

  -- What the level loop ends with.
  pub run_levels-done :
      (ordinals : Dict Text ℕ)
      → let s = run_levels ordinals l items in
        IsLoop (ids items) l g (ordinal_less ordinals) s × (s.ready ≡ [])
  unfolding run_levels
  run_levels-done ordinals =
      level_loop-IsLoop (ids items) l g (ordinal_less ordinals) (suc (length items)) _
        (omega (arith, length-ids items)) start-IsSweep

-- The items that `Build` does not refuse for their names or their dependencies.
pub record IsValid (items : List Item) : Type 0 where
  pub some_item : is_empty items ≡ false
  pub names : ValidIds [] items
  pub dependencies : ValidItems (ids items) items

no-IsKeys : IsKeys [] []
unfolding lookup
no-IsKeys k = refl

-- Numbered items have valid names, and the numbers are those of their names.
numbered :
    (items : List Item) (ordinals : Dict Text ℕ)
    → number_items 0 items [] ≡ ok ordinals
    → ValidIds [] items × IsKeys ordinals (ids items)
numbered items ordinals h =
    let names = number_items-ok 0 items [] [] ordinals no-IsKeys h in
    let (o, eq, keys) = number_items_total 0 items [] [] no-IsKeys names in
    (names, λ k. ground (arith, keys k))

pub build-IsValid : (items : List Item) (p : Plan) → build items ≡ ok p → IsValid items
unfolding build empty_links
build-IsValid items p h = elim (Bool-cases (is_empty items)) [
  | inl nothing ↦ absurd (ground arith)
  | inr something ↦ elim (Result-cases (number_items 0 items [])) [
    | inr (x, eq) ↦ absurd (ground arith)
    | inl (o, eq) ↦ elim (Result-cases (link_items o items empty_links)) [
      | inr (x, bad) ↦ absurd (ground arith)
      | inl (l, linked) ↦ record {
        some_item = something;
        names = (numbered items o eq).0;
        dependencies =
            link_items-ok (ids items) o (numbered items o eq).1 items empty_links l linked;
      }
    ]
  ]
]

pub Distinct-ids :
    (seen : List Text) (items : List Item) → ValidIds seen items → Distinct (ids items)
Distinct-ids seen [] h = tt
Distinct-ids seen (item ∷ items) h = (
  ValidIds-fresh (item.id ∷ seen) items item.id h.2 (ground arith),
  Distinct-ids (item.id ∷ seen) items h.2,
)

module _ (items : List Item) (v : IsValid items) where
  unfoldable pub linked : Dict Text ℕ → Links
  linked ordinals = sort_links ordinals (link_all items empty_links)

  pub linked-IsGraph : (ordinals : Dict Text ℕ) → IsGraph (ids items) (linked ordinals)
  unfolding linked
  linked-IsGraph ordinals = sort_links-IsGraph (ids items) ordinals (link_all items empty_links) (
      link_all-IsGraph (ids items) [] items empty_links v.names v.dependencies (λ x c. c)
        (λ x c. empty-deps x) (empty-IsGraph (ids items)))

  pub linked-DepsAre : (ordinals : Dict Text ℕ) → DepsAre (linked ordinals) items
  unfolding linked sort_links
  linked-DepsAre ordinals = link_all-DepsAre [] items empty_links v.names (λ x c. empty-deps x)

  -- On valid items only the level loop is left.
  pub build-levels :
      (ordinals : Dict Text ℕ) × (build items
        ≡ finish ordinals (linked ordinals) items (run_levels ordinals (linked ordinals) items))
  unfolding build linked empty_links
  build-levels =
      let (o, eq, _) = number_items_total 0 items [] [] no-IsKeys v.names in
      (
        o,
        rw (v.some_item) (
            rw eq (
              rw
                (link_items_total (ids items) o (numbered items o eq).1 items empty_links
                  v.dependencies)
                refl)),
      )
