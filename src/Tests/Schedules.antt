-- ===== src/Tests/Schedules.antt =====
-- internal/dependency/scheduler.go.
use pulp.Prelude.{◌≡◌, ◌≤◌, ◌⊎◌, refl, [], ◌∷◌, List, ℕ, true, false, none, some, length}
use pulp.Prelude.Text.{Text, codes, text_eq}
use pulp.Prelude.Dict.{lookup, insert}
use pulp.Prelude.Sorting.{stable_sort}
use pulp.Dependency.Plan.{Node, Plan}
use pulp.Dependency.Scheduler.{
  Completion, Work, finished, failed_nodes, execute, initial, limit_of, rounds, start_round,
}
use pulp.Dependency.Scheduler.Running.{start_round-bounded}

abbrev node_of : Text → ℕ → List Text → List Text → Node
node_of id ordinal depends_on dependents = record {
  id = id;
  ordinal = ordinal;
  level = 0;
  depends_on = depends_on;
  dependents = dependents;
}

-- a before b, and c alone.
abbrev plan : Plan
plan = record {
  nodes =
      (codes "a", node_of (codes "a") 0 [] (codes "b" ∷ []))
      ∷ (codes "b", node_of (codes "b") 1 (codes "a" ∷ []) [])
      ∷ (codes "c", node_of (codes "c") 2 [] [])
      ∷ [];
  levels = (codes "a" ∷ codes "c" ∷ []) ∷ (codes "b" ∷ []) ∷ [];
  start_order = codes "a" ∷ codes "c" ∷ codes "b" ∷ [];
  stop_order = codes "b" ∷ codes "c" ∷ codes "a" ∷ [];
}

abbrev done : Text → Completion ℕ
done id = record { id = id; error = none }

abbrev broken : Text → Completion ℕ
broken id = record { id = id; error = some 5 }

all_well :
    execute plan 2 false false (done (codes "c") ∷ done (codes "a") ∷ done (codes "b") ∷ [])
    ≡ some (codes "a" ∷ codes "c" ∷ codes "b" ∷ [], finished)
unfolding execute lookup insert stable_sort text_eq
all_well = refl

a_breaks :
    execute plan 2 false false (broken (codes "a") ∷ done (codes "c") ∷ [])
    ≡ some (codes "c" ∷ [], failed_nodes ((codes "a", 5) ∷ []))
unfolding execute lookup insert stable_sort text_eq
a_breaks = refl

abbrev some_done : List (Completion ℕ)
some_done = done (codes "c") ∷ done (codes "a") ∷ []

abbrev two : ℕ
two = 2

start_round-bounded_example :
    let limit = limit_of two plan in
    let running = (start_round limit (rounds plan limit some_done (initial plan))).running in
    (length running ≤ length plan.start_order) × ((two ≡ 0) ⊎ (length running ≤ two))
start_round-bounded_example = start_round-bounded plan two some_done

-- The work behind the failure of a, with c still running.
abbrev after_failure : Work ℕ
after_failure = record {
  queue = codes "b" ∷ [];
  running = codes "c" ∷ [];
  launched = codes "a" ∷ codes "c" ∷ [];
  remaining = [];
  completed = [];
  failures = (codes "a", 5) ∷ [];
  failed = true;
}
