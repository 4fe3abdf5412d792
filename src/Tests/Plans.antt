-- ===== src/Tests/Plans.antt =====
-- internal/dependency/plan.go.
use pulp.Prelude.{
  ◌≡◌, refl, List, [], ◌∷◌, ok, err, Result, ◌↔◌, ℕ, ◌⊎◌, ◌≢◌, true, contains, reverse, arith,
}
use pulp.Prelude.Text.{Text, text_eq, codes, trim_space}
use pulp.Prelude.Dict.{lookup, insert}
use pulp.Prelude.Sorting.{stable_sort}
use pulp.Dependency.Plan.{
  Item, Plan, PlanError, build, number_items, link_items, run_levels, initially_ready,
  count_dependencies, cycle, stuck_items,
}
use pulp.Dependency.Plan.Edges.{ids}
use pulp.Dependency.Plan.Correct.{IsValid}
use pulp.Dependency.Plan.Ranks.{IsStartOrder, IsRanked, IsTangled}
use pulp.Dependency.Plan.Orders.{build-IsStartOrder, build_iff, build_cases}

abbrev diamond : List Item
diamond =
    record { id = codes "d"; depends_on = codes "c" ∷ codes "b" ∷ [] }
    ∷ record { id = codes "b"; depends_on = codes "a" ∷ [] }
    ∷ record { id = codes "c"; depends_on = codes "a" ∷ [] }
    ∷ record { id = codes "a"; depends_on = [] }
    ∷ []

abbrev plan_of : Result PlanError Plan → Plan
plan_of (ok p) = p
plan_of (err _) = record { nodes = []; levels = []; start_order = []; stop_order = [] }

diamond_start :
    (plan_of (build diamond)).start_order ≡ codes "a" ∷ codes "b" ∷ codes "c" ∷ codes "d" ∷ []
unfolding build number_items link_items run_levels lookup insert stable_sort trim_space text_eq
    initially_ready count_dependencies
diamond_start = refl

diamond_ok : build diamond ≡ ok (plan_of (build diamond))
unfolding build number_items link_items run_levels lookup insert stable_sort trim_space text_eq
    initially_ready count_dependencies
diamond_ok = refl

build-IsStartOrder_example :
    IsStartOrder diamond (plan_of (build diamond)).start_order
    × ((plan_of (build diamond)).stop_order ≡ reverse (plan_of (build diamond)).start_order)
build-IsStartOrder_example = build-IsStartOrder diamond (plan_of (build diamond)) diamond_ok

build_iff_example :
    ((p : Plan) × (build diamond ≡ ok p))
    ↔ (IsValid diamond × (rank : Text → ℕ) × IsRanked rank diamond)
build_iff_example = build_iff diamond

abbrev ring : List Item
ring =
    record { id = codes "a"; depends_on = codes "b" ∷ [] }
    ∷ record { id = codes "b"; depends_on = codes "a" ∷ [] }
    ∷ record { id = codes "c"; depends_on = [] }
    ∷ []

ring-IsValid : IsValid ring
unfolding text_eq trim_space
ring-IsValid = record {
  some_item = refl;
  names = (refl, refl, (refl, refl, (refl, refl, tt)));
  dependencies = ground arith;
}

ring_cycle : build ring ≡ err (cycle (codes "a" ∷ codes "b" ∷ []))
unfolding build number_items link_items run_levels lookup insert stable_sort trim_space text_eq
    initially_ready count_dependencies stuck_items
ring_cycle = refl

build_cases_example :
    ((p : Plan) × (build ring ≡ ok p))
    ⊎ ((stuck : List Text) × (build ring ≡ err (cycle stuck))
        × (stuck ≢ [])
        × ((y : Text) → contains stuck y ≡ true → contains (ids ring) y ≡ true)
        × IsTangled ring stuck)
build_cases_example = build_cases ring ring-IsValid
