-- ===== src/Dependency/Plan/Ranks.antt =====
-- internal/dependency/plan.go, `Build`: orders behind dependencies, ranks, and what is stuck.
use pulp.Prelude.{
  ℕ, zero, suc, ◌<◌, ◌≡◌, refl, Bool, true, false, not, ◌||◌, List, [], ◌∷◌, ◌++◌, ◌==◌, eqb,
  contains, if◌then◌else◌, length, arith, Bool-cases, inl, inr, ◌⊎◌, subst,
}
use pulp.Prelude.Text.{Text, text_eq}
use pulp.Prelude.Dict.{Dict}
use pulp.Prelude.Sets.{
  Distinct, Distinct-append_left, contains-append, length-le_of_subset, subset_of_length-le,
}
use pulp.Dependency.Plan.{Item, value_at, Links, stuck_items, Levels}
use pulp.Dependency.Plan.Edges.{ids, deps_of, IsGraph}
use pulp.Dependency.Plan.Validation.{DepsAre}
use pulp.Dependency.Plan.Counts.{missing_of_subset, missing-pos}
use pulp.Dependency.Plan.Kahn.{Ordered, IsSweep}
use pulp.Dependency.Plan.Correct.{length-ids}

-- Wherever an item stands in the order, its dependencies stand before it.
abbrev pub Behind : List Text → List Item → Type 0
Behind order [] = Unit
Behind order (item ∷ items) =
    ((before after : List Text)
      → order ≡ before ++ item.id ∷ after
      → (d : Text) → contains item.depends_on d ≡ true
      → contains before d ≡ true)
    × Behind order items

-- Each item stands in the order exactly once, behind its dependencies, and nothing else does.
pub record IsStartOrder (items : List Item) (order : List Text) : Type 0 where
  pub distinct : Distinct order
  pub members : (y : Text) → contains order y ≡ contains (ids items) y
  pub behind : Behind order items

-- The dependencies can be ranked: there is no cycle.
abbrev pub IsRanked : (Text → ℕ) → List Item → Type 0
IsRanked rank [] = Unit
IsRanked rank (item ∷ items) =
    ((d : Text) → contains item.depends_on d ≡ true → rank d < rank item.id) × IsRanked rank items

Ordered-split :
    (l : Links) (seen before after : List Text) (x d : Text)
    → Ordered l seen (before ++ x ∷ after)
    → contains (deps_of l x) d ≡ true
    → (contains seen d || contains before d) ≡ true
Ordered-split l seen [] after x d o c = ground (arith, o.0 d c)
Ordered-split l seen (y ∷ before) after x d o c =
    ground (arith, Ordered-split l (y ∷ seen) before after x d o.1 c)

Ordered-Behind :
    (l : Links) (order : List Text) (items : List Item)
    → DepsAre l items
    → Ordered l [] order
    → Behind order items
Ordered-Behind l order [] a o = tt
Ordered-Behind l order (item ∷ items) a o = (
  λ before after eq d c.
      Ordered-split l [] before after item.id d (subst (Ordered l []) eq o) (rw a.0 c),
  Ordered-Behind l order items a.1 o,
)

-- The place of a name in a list, or the length of a list that lacks it.
abbrev pub place : Text → List Text → ℕ
place x [] = 0
place x (y ∷ ys) = let rest = place x ys in if x == y then 0 else suc rest

Ordered-place :
    (l : Links) (seen xs : List Text) (x d : Text)
    → Ordered l seen xs
    → contains xs x ≡ true
    → contains (deps_of l x) d ≡ true
    → (contains seen d ≡ true) ⊎ (place d xs < place x xs)
Ordered-place l seen [] x d o h c = absurd (ground arith)
Ordered-place l seen (y ∷ xs) x d o h c = elim (Bool-cases (x == y)) [
  | inl here ↦ inl (ground (arith, o.0 d))
  | inr later ↦ ground (arith, Ordered-place l (y ∷ seen) xs x d o.1)
]

pub Ordered-IsRanked :
    (l : Links) (order : List Text) (items : List Item)
    → DepsAre l items
    → ((y : Text) → contains (ids items) y ≡ true → contains order y ≡ true)
    → Ordered l [] order
    → IsRanked (λ y. place y order) items
Ordered-IsRanked l order [] a inside o = tt
Ordered-IsRanked l order (item ∷ items) a inside o = (
  λ d c. elim (Ordered-place l [] order item.id d o (inside item.id (ground arith)) (rw a.0 c)) [
    | inl nothing ↦ absurd (ground arith)
    | inr h ↦ h
  ],
  Ordered-IsRanked l order items a.1 (λ y c. inside y (ground arith)) o,
)

-- A rank for the items is a rank for the edges found.
rank-deps :
    (rank : Text → ℕ) (l : Links) (items : List Item) (x d : Text)
    → DepsAre l items
    → IsRanked rank items
    → contains (ids items) x ≡ true
    → contains (deps_of l x) d ≡ true
    → rank d < rank x
rank-deps rank l [] x d a r h c = absurd (ground arith)
rank-deps rank l (item ∷ items) x d a r h c = elim (Bool-cases (x == item.id)) [
  | inl here ↦ ground (arith, r.0 d, a.0)
  | inr other ↦ rank-deps rank l items x d a.1 r.1 (ground arith) c
]

-- The dependencies that the items list under a name.
abbrev pub depends : List Item → Text → Text → Bool
depends [] x d = false
depends (item ∷ items) x d =
    let rest = depends items x d in if x == item.id then contains item.depends_on d else rest

depends-DepsAre :
    (l : Links) (items : List Item) (x d : Text)
    → DepsAre l items
    → contains (ids items) x ≡ true
    → depends items x d ≡ contains (deps_of l x) d
depends-DepsAre l [] x d a h = absurd (ground arith)
depends-DepsAre l (item ∷ items) x d a h = elim (Bool-cases (x == item.id)) [
  | inl here ↦ ground (arith, a.0)
  | inr other ↦ ground (arith, depends-DepsAre l items x d a.1)
]

pub contains-stuck_items :
    (remaining : Dict Text ℕ) (items : List Item) (y : Text)
    → contains (stuck_items remaining items) y
      ≡ (if contains (ids items) y then not (eqb (value_at y remaining 0) 0) else false)
unfolding stuck_items
contains-stuck_items remaining [] y = refl
contains-stuck_items remaining (item ∷ items) y =
    ground (arith, contains-stuck_items remaining items y)

-- Each name in the list has a dependency in the list.
abbrev pub IsTangled : List Item → List Text → Type 0
IsTangled items stuck =
    (y : Text)
    → contains stuck y ≡ true
    → (d : Text) × (depends items y d ≡ true) × (contains stuck d ≡ true)

module _ (items : List Item) (l : Links) (g : IsGraph (ids items) l) (a : DepsAre l items)
    (s : Levels) (h : IsSweep (ids items) l g s.start_order [] [] s.remaining) where
  unlisted : (y : Text) → contains (s.start_order ++ ([] ++ [])) y ≡ contains s.start_order y
  unlisted y = ground (arith, contains-append s.start_order [] y)

  started : (y : Text) → contains s.start_order y ≡ true → contains (ids items) y ≡ true
  started y c = (h.reached y (ground (arith, unlisted y))).0

  Distinct-start_order : Distinct s.start_order
  Distinct-start_order = Distinct-append_left s.start_order ([] ++ []) h.distinct

  -- A rank brings every item into the order.
  ranked_started :
      (rank : Text → ℕ)
      → IsRanked rank items
      → (n : ℕ) (y : Text) → rank y < n
      → contains (ids items) y ≡ true
      → contains s.start_order y ≡ true
  ranked_started rank r zero y lt c = absurd (omega arith)
  ranked_started rank r (suc n) y lt c = ground (
    arith,
    unlisted y,
    h.complete y c (
        missing_of_subset s.start_order (deps_of l y) (λ d k.
          ranked_started rank r n d (omega (arith, rank-deps rank l items y d a r c k))
            (g.targets y d k))),
  )

  pub full_started :
      length s.start_order ≡ length items
      → (y : Text) → contains (ids items) y ≡ true
      → contains s.start_order y ≡ true
  full_started e =
      subset_of_length-le s.start_order (ids items) Distinct-start_order started
        (omega (arith, length-ids items))

  pub full-IsStartOrder : length s.start_order ≡ length items → IsStartOrder items s.start_order
  full-IsStartOrder e = record {
    distinct = Distinct-start_order;
    members = λ y. ground (arith, started y, full_started e y);
    behind = Ordered-Behind l s.start_order items a h.ordered;
  }

  pub ranked_full :
      (rank : Text → ℕ)
      → IsRanked rank items
      → Distinct (ids items)
      → length s.start_order ≡ length items
  ranked_full rank r d = omega (
    arith,
    length-ids items,
    length-le_of_subset s.start_order (ids items) Distinct-start_order started,
    length-le_of_subset (ids items) s.start_order d
        (λ y c. ranked_started rank r (suc (rank y)) y (omega arith) c),
  )

  abbrev stuck : List Text
  stuck = stuck_items s.remaining items

  stuck_iff :
      (y : Text)
      → contains stuck y
        ≡ (if contains (ids items) y then not (contains s.start_order y) else false)
  stuck_iff y = ground (
    arith,
    contains-stuck_items s.remaining items y,
    h.counted y,
    h.complete y,
    h.reached y,
    unlisted y,
  )

  pub stuck-IsTangled : IsTangled items stuck
  stuck-IsTangled y c =
      let listed : contains (ids items) y ≡ true = (ground (arith, stuck_iff y)) in
      let (d, edge, unseen) =
        missing-pos s.start_order (deps_of l y)
          (λ e. ground (arith, stuck_iff y, h.complete y listed e, unlisted y)) in
      (
        d,
        ground (arith, depends-DepsAre l items y d a listed),
        ground (arith, stuck_iff d, g.targets y d edge),
      )

  pub none_stuck_full : stuck ≡ [] → Distinct (ids items) → length s.start_order ≡ length items
  none_stuck_full e d = omega (
    arith,
    length-ids items,
    length-le_of_subset s.start_order (ids items) Distinct-start_order started,
    length-le_of_subset (ids items) s.start_order d (λ y c. ground (arith, stuck_iff y)),
  )
