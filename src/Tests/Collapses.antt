-- ===== src/Tests/Collapses.antt =====
-- internal/dependency/collapse.go.
use pulp.Prelude.{◌≡◌, refl, [], ◌∷◌, List, Result, ok, err}
use pulp.Prelude.Text.{Text, codes, trim_space, text_eq}
use pulp.Prelude.Dict.{Dict, lookup, insert}
use pulp.Prelude.Sorting.{stable_sort}
use pulp.Dependency.Plan.{
  Node, Plan, build, number_items, link_items, run_levels, initially_ready, count_dependencies,
}
use pulp.Dependency.Collapse.{CollapseError, add_nodes, physical_items, collapse}
use pulp.Dependency.Collapse.Targets.{IsTargetOrder, collapse-IsTargetOrder}

abbrev node_of : Text → List Text → Node
node_of id depends_on = record {
  id = id;
  ordinal = 0;
  level = 0;
  depends_on = depends_on;
  dependents = [];
}

-- The nodes b and c go to one process, and a to another.
abbrev logical : Plan
logical = record {
  nodes =
      (codes "a", node_of (codes "a") [])
      ∷ (codes "b", node_of (codes "b") (codes "a" ∷ []))
      ∷ (codes "c", node_of (codes "c") (codes "b" ∷ codes "a" ∷ []))
      ∷ [];
  levels = (codes "a" ∷ []) ∷ (codes "b" ∷ []) ∷ (codes "c" ∷ []) ∷ [];
  start_order = codes "a" ∷ codes "b" ∷ codes "c" ∷ [];
  stop_order = codes "c" ∷ codes "b" ∷ codes "a" ∷ [];
}

abbrev processes : Dict Text Text
processes = (codes "a", codes "p") ∷ (codes "b", codes "q") ∷ (codes "c", codes "q") ∷ []

abbrev plan_of : Result CollapseError Plan → Plan
plan_of (ok p) = p
plan_of (err _) = record { nodes = []; levels = []; start_order = []; stop_order = [] }

collapsed : collapse logical processes ≡ ok (plan_of (collapse logical processes))
unfolding collapse add_nodes physical_items build number_items link_items run_levels lookup insert
    stable_sort trim_space text_eq initially_ready count_dependencies
collapsed = refl

collapsed_start : (plan_of (collapse logical processes)).start_order ≡ codes "p" ∷ codes "q" ∷ []
unfolding collapse add_nodes physical_items build number_items link_items run_levels lookup insert
    stable_sort trim_space text_eq initially_ready count_dependencies
collapsed_start = refl

collapse-IsTargetOrder_example :
    IsTargetOrder logical processes (plan_of (collapse logical processes)).start_order
collapse-IsTargetOrder_example =
    collapse-IsTargetOrder logical (plan_of (collapse logical processes)) processes collapsed
