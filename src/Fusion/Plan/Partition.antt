-- ===== src/Fusion/Plan/Partition.antt =====
-- internal/fusion/plan.go: every cell has its place.
use pulp.Prelude.{
  ℕ, ◌+◌, ◌≡◌, refl, Bool, List, [], ◌∷◌, ◌++◌, Option, none, some, ◌==◌, arith, map, Option-cases,
  Bool-cases, inl, inr,
}
use pulp.Prelude.Text.{Text, text_before, text_eq}
use pulp.Prelude.Dict.{Dict, insert, NodupKeys, insert-NodupKeys}
use pulp.Prelude.Sorting.{stable_sort}
use pulp.Dependency.Plan.{value_at}
use pulp.Manifest.Config.{ConfigTable}
use pulp.Manifest.Fields.{fusible}
use pulp.Manifest.Cells.{CellSpec}
use pulp.Fusion.Plan.{
  Group, Decision, Plan, Reason, isolate, lone_member, not_fusible, compatible, place_members,
  place_keys, by_name, request, group_key, build,
}
use pulp.Fusion.Plan.Cases.{
  request-fusible, request-isolated, place_members-group, place_members-isolate,
}
use pulp.Fusion.Plan.Counts.{
  sum_by, sum_by-append, sum_by-stable_sort, weight, tally, tally_values, tally_values-insert,
  tally_keys,
}

module _ {Other : Type 0} where
  abbrev pub members_of : List (Group Other) → List (CellSpec Other)
  members_of [] = []
  members_of (g ∷ gs) = g.members ++ members_of gs

  -- The cells of a plan, in its groups and alone.
  abbrev pub placed : Plan Other → List (CellSpec Other)
  placed plan = members_of plan.groups ++ map (λ d. d.cell) plan.isolated

  -- The cells that are there.
  abbrev pub present : List (Option (CellSpec Other)) → List (CellSpec Other)
  present [] = []
  present (none ∷ rest) = present rest
  present (some c ∷ rest) = c ∷ present rest

module _ {Other : Type 0}
    (same_config : Option (ConfigTable Other) → Option (ConfigTable Other) → Bool)
    (f : CellSpec Other → Bool) where
  abbrev in_groups : List (Group Other) → ℕ
  in_groups gs = sum_by (λ g. tally f g.members) gs

  abbrev alone : List (Decision Other) → ℕ
  alone ds = tally (λ d. f d.cell) ds

  abbrev total : Plan Other → ℕ
  total plan = in_groups plan.groups + alone plan.isolated

  alone-map :
      (why : Reason) (cells : List (CellSpec Other))
      → alone (map (λ c. record { cell = c; reason = why }) cells) ≡ tally f cells
  alone-map why [] = refl
  alone-map why (c ∷ cells) = ground (arith, alone-map why cells)

  tally-members_of : (gs : List (Group Other)) → tally f (members_of gs) ≡ in_groups gs
  tally-members_of [] = refl
  tally-members_of (g ∷ gs) =
      omega (arith, sum_by-append (weight f) g.members (members_of gs), tally-members_of gs)

  tally-cells : (ds : List (Decision Other)) → tally f (map (λ d. d.cell) ds) ≡ alone ds
  tally-cells [] = refl
  tally-cells (d ∷ ds) = ground (arith, tally-cells ds)

  total-placed : (plan : Plan Other) → tally f (placed plan) ≡ total plan
  total-placed plan = omega (
    arith,
    sum_by-append (weight f) (members_of plan.groups) (map (λ d. d.cell) plan.isolated),
    tally-members_of plan.groups,
    tally-cells plan.isolated,
  )

  total-isolate :
      (why : Reason) (members : List (CellSpec Other)) (plan : Plan Other)
      → total (isolate why members plan) ≡ total plan + tally f members
  total-isolate why members plan = omega (
    arith,
    sum_by-append (weight (λ d. f d.cell)) plan.isolated
        (map (λ c. record { cell = c; reason = why }) members),
    alone-map why members,
  )

  total-group :
      (g : Group Other) (plan : Plan Other)
      → total (record plan { groups = plan.groups ++ g ∷ [] }) ≡ total plan + tally f g.members
  total-group g plan = omega (arith, sum_by-append (λ g. tally f g.members) plan.groups (g ∷ []))

  total-place_members :
      (members : List (CellSpec Other)) (plan : Plan Other)
      → total (place_members same_config members plan) ≡ total plan + tally f members
  unfolding place_members
  total-place_members [] plan = omega arith
  total-place_members (c ∷ []) plan = total-isolate lone_member (c ∷ []) plan
  total-place_members (c ∷ d ∷ rest) plan =
      elim (Option-cases (compatible same_config (c ∷ d ∷ rest))) [
        | inr (why, e) ↦
            rw (place_members-isolate same_config c d rest plan why e)
              (total-isolate why (c ∷ d ∷ rest) plan)
        | inl e ↦ rw (place_members-group same_config c d rest plan e) (
            total-group
              (record { name = c.execution.group; abi = c.execution.abi; members = c ∷ d ∷ rest })
              plan)
      ]

  total-place_keys :
      (requested : Dict Text (List (CellSpec Other))) (keys : List Text) (plan : Plan Other)
      → total (place_keys same_config requested keys plan)
        ≡ total plan + sum_by (λ k. tally f (value_at k requested [])) keys
  unfolding place_keys
  total-place_keys requested [] plan = omega arith
  total-place_keys requested (key ∷ keys) plan =
      let members = stable_sort by_name (value_at key requested []) in
      omega (
        arith,
        total-place_keys requested keys (place_members same_config members plan),
        total-place_members members plan,
        sum_by-stable_sort (weight f) by_name (value_at key requested []),
      )

  total-request :
      (cells : List (Option (CellSpec Other))) (requested : Dict Text (List (CellSpec Other)))
      (isolated : List (Decision Other))
      → NodupKeys requested
      → NodupKeys (request cells requested isolated).0
        × (tally_values f (request cells requested isolated).0
              + alone (request cells requested isolated).1
            ≡ tally_values f requested + alone isolated + tally f (present cells))
  unfolding request
  total-request [] requested isolated u = (u, omega arith)
  total-request (none ∷ rest) requested isolated u = total-request rest requested isolated u
  total-request (some c ∷ rest) requested isolated u =
      elim (Bool-cases (c.execution.mode == fusible)) [
        | inl y ↦
            let old = value_at (group_key c) requested [] in
            let d = insert (group_key c) (old ++ c ∷ []) requested in
            let (u', e) =
              total-request rest d isolated
                (insert-NodupKeys (group_key c) (old ++ c ∷ []) requested u) in
            rw (request-fusible c rest requested isolated y) (
              u',
              omega (
                arith,
                e,
                tally_values-insert f (group_key c) (old ++ c ∷ []) requested,
                sum_by-append (weight f) old (c ∷ []),
              ),
            )
        | inr n ↦
            let d : Decision Other = record { cell = c; reason = not_fusible } in
            let (u', e) = total-request rest requested (isolated ++ d ∷ []) u in
            rw (request-isolated c rest requested isolated n)
              (u', omega (arith, e, sum_by-append (weight (λ d. f d.cell)) isolated (d ∷ [])))
      ]

  -- Of the cells that are there, each stands in the plan as often as in the list: once in a group or
  -- alone, where it is there once.
  pub build-tally :
      (cells : List (Option (CellSpec Other)))
      → tally f (placed (build same_config cells)) ≡ tally f (present cells)
  unfolding build
  build-tally cells =
      let (u, e) = total-request cells [] [] tt in
      let (requested, isolated) = request cells [] [] in
      let keys = map (λ (k, _). k) requested in
      let start : Plan Other = record { groups = []; isolated = isolated } in
      let plan = place_keys same_config requested (stable_sort text_before keys) start in
      omega (
        arith,
        e,
        total-placed (build same_config cells),
        sum_by-stable_sort (weight (λ d. f d.cell)) (λ a b. text_before a.cell.name b.cell.name)
            plan.isolated,
        total-place_keys requested (stable_sort text_before keys) start,
        sum_by-stable_sort (λ k. tally f (value_at k requested [])) text_before keys,
        tally_keys f requested u,
      )
