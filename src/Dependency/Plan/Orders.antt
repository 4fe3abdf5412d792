-- ===== src/Dependency/Plan/Orders.antt =====
-- internal/dependency/plan.go, `Build`: the start order, the stop order, and cycles.
use pulp.Prelude.{
  ℕ, ◌≡◌, ◌≢◌, refl, sym, ◌∙◌, ◌↔◌, true, List, [], reverse, ok, err, eqb, contains, length, arith,
  Bool-cases, inl, inr, ◌⊎◌, subst,
}
use pulp.Prelude.Text.{Text, text_eq}
use pulp.Dependency.Plan.{
  Item, Plan, cycle, Links, run_levels, stuck_items, assemble, finish, build, Levels,
}
use pulp.Dependency.Plan.Edges.{ids, IsGraph}
use pulp.Dependency.Plan.Validation.{DepsAre}
use pulp.Dependency.Plan.Kahn.{IsSweep}
use pulp.Dependency.Plan.Correct.{
  Distinct-ids, run_levels-done, IsValid, build-IsValid, linked, linked-IsGraph, linked-DepsAre,
  build-levels,
}
use pulp.Dependency.Plan.Ranks.{
  full-IsStartOrder, none_stuck_full, stuck-IsTangled, place, Ordered-IsRanked,
  contains-stuck_items, full_started, ranked_full, IsStartOrder, IsRanked, IsTangled,
}

module _ (items : List Item) (v : IsValid items) where
  -- The links, and the state in which the level loop ends.
  final_links : Links
  final_links = linked items v (build-levels items v).0

  final : Levels
  final = run_levels (build-levels items v).0 final_links items

  final-IsGraph : IsGraph (ids items) final_links
  unfolding final_links
  final-IsGraph = linked-IsGraph items v (build-levels items v).0

  final-DepsAre : DepsAre final_links items
  unfolding final_links
  final-DepsAre = linked-DepsAre items v (build-levels items v).0

  final-IsSweep :
      IsSweep (ids items) final_links final-IsGraph final.start_order [] [] final.remaining
  unfolding final
  final-IsSweep =
      let (h, done) =
        run_levels-done items final_links final-IsGraph (Distinct-ids [] items v.names)
          (build-levels items v).0 in
      subst
        (λ r.
          IsSweep (ids items) final_links final-IsGraph
            (run_levels (build-levels items v).0 final_links items).start_order r []
            (run_levels (build-levels items v).0 final_links items).remaining)
        done h

  final_cases :
      ((length final.start_order ≡ length items)
        × (p : Plan) × (build items ≡ ok p)
        × (p.start_order ≡ final.start_order)
        × (p.stop_order ≡ reverse final.start_order))
      ⊎ ((length final.start_order ≢ length items)
          × (build items ≡ err (cycle (stuck_items final.remaining items))))
  unfolding final final_links finish assemble
  final_cases = elim (Bool-cases (eqb (length final.start_order) (length items))) [
    | inl full ↦ inl (
      ground arith,
      assemble (build-levels items v).0 final_links items final,
      (build-levels items v).1 ∙ (rw full refl),
      refl,
      refl,
    )
    | inr short ↦ inr (ground arith, (build-levels items v).1 ∙ (rw short refl))
  ]

-- A plan that `Build` returns starts every item exactly once, each behind all its dependencies, and
-- stops them in the opposite order.
pub build-IsStartOrder :
    (items : List Item) (p : Plan)
    → build items ≡ ok p
    → IsStartOrder items p.start_order × (p.stop_order ≡ reverse p.start_order)
build-IsStartOrder items p e =
    let v = build-IsValid items p e in
    elim (final_cases items v) [
      | inr (_, bad) ↦ absurd (ground arith)
      | inl (full, q, eq, starts, stops) ↦
          let same : p.start_order ≡ (final items v).start_order = (ground arith) in
          (
            subst (IsStartOrder items) (sym same) (
                full-IsStartOrder items (final_links items v) (final-IsGraph items v)
                  (final-DepsAre items v) (final items v) (final-IsSweep items v) full),
            ground arith,
          )
    ]

-- `Build` returns a plan for exactly those items that are valid and have no cycle.
pub build_iff :
    (items : List Item)
    → ((p : Plan) × (build items ≡ ok p))
      ↔ (IsValid items × (rank : Text → ℕ) × IsRanked rank items)
build_iff items = (
  λ (p, e).
      let v = build-IsValid items p e in
      elim (final_cases items v) [
        | inr (_, bad) ↦ absurd (ground arith)
        | inl (full, _, _, _, _) ↦ (
          v,
          (λ y. place y (final items v).start_order),
          Ordered-IsRanked (final_links items v) (final items v).start_order items
              (final-DepsAre items v)
              (full_started items (final_links items v) (final-IsGraph items v)
                (final-DepsAre items v) (final items v) (final-IsSweep items v) full)
              (final-IsSweep items v).ordered,
        )
      ],
  λ (v, rank, r). elim (final_cases items v) [
    | inl (_, p, eq, _, _) ↦ (p, eq)
    | inr (short, _) ↦ absurd (
        short (
          ranked_full items (final_links items v) (final-IsGraph items v) (final-DepsAre items v)
            (final items v) (final-IsSweep items v) rank r (Distinct-ids [] items v.names)))
  ],
)

-- For valid items `Build` either returns a plan, or reports a cycle: then the names that it lists
-- are some, are items, and each of them depends on another one of the list.
pub build_cases :
    (items : List Item)
    → IsValid items
    → ((p : Plan) × (build items ≡ ok p))
      ⊎ ((stuck : List Text) × (build items ≡ err (cycle stuck))
          × (stuck ≢ [])
          × ((y : Text) → contains stuck y ≡ true → contains (ids items) y ≡ true)
          × IsTangled items stuck)
build_cases items v = elim (final_cases items v) [
  | inl (_, p, eq, _, _) ↦ inl (p, eq)
  | inr (short, eq) ↦ inr (
    stuck_items (final items v).remaining items,
    eq,
    λ e. short (
        none_stuck_full items (final_links items v) (final-IsGraph items v) (final-DepsAre items v)
          (final items v) (final-IsSweep items v) e (Distinct-ids [] items v.names)),
    λ y c. ground (arith, contains-stuck_items (final items v).remaining items y),
    stuck-IsTangled items (final_links items v) (final-IsGraph items v) (final-DepsAre items v)
        (final items v) (final-IsSweep items v),
  )
]
