-- ===== src/Tests/Transactions.antt =====
-- internal/reconcile/reconciler.go.
use pulp.Prelude.{◌≡◌, true, false, ℕ, [], ◌∷◌, List, none, some, ok, err, map, ◌⊎◌}
use pulp.Prelude.Text.{codes}
use pulp.Dependency.Plan.{Plan, PlanError, build}
use pulp.Reconcile.Transaction.{
  Node, Host, State, invalid_graph, health, reconcile, item_of, is_no_change, revisions_from,
}
use pulp.Reconcile.Transaction.Atomic.{IsAtomic, changes_to, reconcile_cases}

-- A host whose health check fails.
abbrev sick : Host ℕ
sick = record {
  nil_value = 0;
  has_recorder = true;
  on_prepare = λ log p c. (7, true);
  on_snapshot = λ log d c. (8, true);
  on_stage = λ log stage d v w c. elim stage [ health ↦ false | _ ↦ true ];
  on_rollback = λ log stage. true;
  on_record = λ log stage status. true;
}

abbrev idle : State ℕ
idle = record {
  current = record {
    plan = record { nodes = []; levels = []; start_order = []; stop_order = [] };
    value = 1;
    revisions = [];
  };
  log = [];
}

abbrev pair : List Node
pair =
    record { id = codes "a"; depends_on = []; revision = codes "1" }
    ∷ record { id = codes "b"; depends_on = codes "a" ∷ []; revision = codes "1" }
    ∷ []

reconcile_cases_example :
    ((e : PlanError) × (build (map item_of pair) ≡ err e)
      × (reconcile sick idle pair ≡ (idle, some (invalid_graph e))))
    ⊎ ((desired : Plan) × (build (map item_of pair) ≡ ok desired)
        × (((is_no_change (changes_to sick idle pair desired) ≡ true)
              × (reconcile sick idle pair ≡ (idle, none)))
            ⊎ ((is_no_change (changes_to sick idle pair desired) ≡ false)
                × IsAtomic sick idle desired (revisions_from pair []) (reconcile sick idle pair))))
reconcile_cases_example = reconcile_cases sick idle pair
