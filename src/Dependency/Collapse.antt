-- ===== src/Dependency/Collapse.antt =====
-- internal/dependency/collapse.go, `Collapse`. A nil plan is not modelled.
pub mod Targets
use pulp.Prelude.{
  ◌≡◌, Bool, true, false, ◌||◌, List, [], ◌∷◌, ◌++◌, Option, none, some, Result, ok, err, fail_if,
  ◌>>=◌, ◌>>◌, ◌==◌, contains, if◌then◌else◌, map,
}
use pulp.Prelude.Text.{Text, text_eq, is_empty}
use pulp.Prelude.Dict.{Dict, lookup, insert}
use pulp.Dependency.Plan.{Item, Plan, PlanError, build, value_at}

pub data CollapseError : Type 0 where
  no_target : Text → CollapseError
  invalid_plan : PlanError → CollapseError

-- `physicalOrder` and `physicalDependencies`. Their sets `seenPhysical` and `seenEdges` have the same
-- members.
pub record Physical : Type 0 where
  pub order : List Text
  pub edges : Dict Text (List Text)

-- `logical.nodes[id].dependsOn`
abbrev pub depends_on : Plan → Text → List Text
depends_on p id = elim (lookup id p.nodes) [ none ↦ [] | some n ↦ n.depends_on ]

-- `append` to a list of a map, unless the edge was seen.
unfoldable pub add_edge : Text → Text → Dict Text (List Text) → Dict Text (List Text)
add_edge node target edges =
    if contains (value_at node edges []) target
    then edges
    else insert node (value_at node edges [] ++ target ∷ []) edges

-- The loop over the dependencies of one node, whose target is the second argument.
unfoldable pub add_edges :
    Dict Text Text
    → Text
    → List Text
    → Dict Text (List Text)
    → Result CollapseError (Dict Text (List Text))
unfolding add_edge
add_edges physical_for node [] edges = ok edges
add_edges physical_for node (dependency ∷ ds) edges = do
  let target = value_at dependency physical_for []
  fail_if (is_empty target) (no_target dependency)
  add_edges physical_for node ds (if target == node then edges else add_edge node target edges)

unfoldable pub add_nodes :
    Plan → Dict Text Text → List Text → Physical → Result CollapseError Physical
unfolding add_edges
add_nodes logical physical_for [] p = ok p
add_nodes logical physical_for (id ∷ rest) p = do
  let node = value_at id physical_for []
  fail_if (is_empty node) (no_target id)
  edges ← add_edges physical_for node (depends_on logical id) p.edges
  add_nodes logical physical_for rest (record {
    order = if contains p.order node then p.order else p.order ++ node ∷ [];
    edges = edges;
  })

unfoldable pub physical_items : Physical → List Item
physical_items p = map (λ node. record { id = node; depends_on = value_at node p.edges [] }) p.order

unfoldable pub collapse : Plan → Dict Text Text → Result CollapseError Plan
unfolding add_nodes
collapse logical physical_for = do
  p ← add_nodes logical physical_for logical.start_order (record { order = []; edges = [] })
  elim (build (physical_items p)) [ ok plan ↦ ok plan | err e ↦ err (invalid_plan e) ]
