-- ===== src/Dependency/Scheduler.antt =====
-- internal/dependency/scheduler.go, `Execute` on a plan and a runner that are not nil. The workers run
-- beside the loop, so the completions are an argument: in the order in which the channel gives them,
-- each with the error of its run. A map of counters is read as in the plan.
pub mod Running
use pulp.Prelude.{
  ℕ, suc, ◌+◌, ◌-◌, ◌≡◌, Bool, true, false, not, ◌&&◌, ◌||◌, List, [], ◌∷◌, ◌++◌, Option, none,
  some, ◌==◌, contains, ltb, leb, eqb, if◌then◌else◌, length, select,
}
use pulp.Prelude.Text.{Text, text_eq, is_empty}
use pulp.Prelude.Dict.{Dict, lookup, insert}
use pulp.Prelude.Sorting.{stable_sort}
use pulp.Dependency.Plan.{Plan, value_at}

module _ (E : Type 0) where
  -- What a worker sends on the channel.
  pub record Completion : Type 0 where
    pub id : Text
    pub error : Option E

  -- The variables of the loop; `running` names the workers whose number the source keeps, and
  -- `launched` those started so far.
  pub record Work : Type 0 where
    pub queue : List Text
    pub running : List Text
    pub launched : List Text
    pub remaining : Dict Text ℕ
    pub completed : List Text
    pub failures : Dict Text E
    pub failed : Bool

  -- How the call ends: the joined errors of the failed nodes, or the context's own error.
  pub data Ending : Type 0 where
    finished cancelled : Ending
    failed_nodes : List (Text × E) → Ending

abbrev pub depends_on : Plan → Text → List Text
depends_on p id = elim (lookup id p.nodes) [ none ↦ [] | some n ↦ n.depends_on ]

abbrev pub dependents : Plan → Text → List Text
dependents p id = elim (lookup id p.nodes) [ none ↦ [] | some n ↦ n.dependents ]

abbrev pub ordinal : Plan → Text → ℕ
ordinal p id = elim (lookup id p.nodes) [ none ↦ 0 | some n ↦ n.ordinal ]

-- A limit of 0 stands for one that is not positive.
unfoldable pub limit_of : ℕ → Plan → ℕ
limit_of max_parallel p =
    if leb max_parallel 0 || ltb (length p.start_order) max_parallel
    then length p.start_order
    else max_parallel

unfoldable pub count_remaining : Plan → List Text → Dict Text ℕ → Dict Text ℕ
count_remaining p [] remaining = remaining
count_remaining p (id ∷ ids) remaining =
    count_remaining p ids (insert id (length (depends_on p id)) remaining)

-- `running--`
unfoldable pub stop_running : Text → List Text → List Text
stop_running id [] = []
stop_running id (x ∷ xs) = if id == x then xs else x ∷ stop_running id xs

module _ {E : Type 0} where
  unfoldable pub initial : Plan → Work E
  unfolding count_remaining
  initial p = record {
    queue = select (λ id. eqb (length (depends_on p id)) 0) p.start_order;
    running = [];
    launched = [];
    remaining = count_remaining p p.start_order [];
    completed = [];
    failures = [];
    failed = false;
  }

  unfoldable pub launch : Text → Work E → Work E
  launch id w = record w { running = w.running ++ id ∷ []; launched = w.launched ++ id ∷ [] }

  -- The inner loop that launches from the queue.
  unfoldable pub fill : ℕ → List Text → Work E → Work E
  unfolding launch
  fill limit [] w = record w { queue = [] }
  fill limit (id ∷ queue) w =
      let rest = fill limit queue (launch id w) in
      if not w.failed && ltb (length w.running) limit then rest else record w { queue = id ∷ queue }

  -- `remaining[dependent]--; if remaining[dependent] == 0 { queue = append(queue, dependent) }`
  unfoldable pub unlock_one : Text → Work E → Work E
  unlock_one d w =
      let left = value_at d w.remaining 0 in
      let counted = insert d (left - 1) w.remaining in
      if eqb left 1
      then record w { remaining = counted; queue = w.queue ++ d ∷ [] }
      else record w { remaining = counted }

  -- The loop over the dependents of a completed node.
  unfoldable pub unlock : List Text → Work E → Work E
  unfolding unlock_one
  unlock [] w = w
  unlock (d ∷ ds) w = unlock ds (unlock_one d w)

  -- What the loop does with one completion.
  unfoldable pub receive : Plan → Completion E → Work E → Work E
  unfolding stop_running unlock
  receive p c w =
      let w' = record w { running = stop_running c.id w.running } in
      elim c.error [
        | some e ↦ record w' { failures = insert c.id e w.failures; failed = true }
        | none ↦
            let done = record w' { completed = w.completed ++ c.id ∷ [] } in
            let unlocked = unlock (dependents p c.id) done in
            if w.failed then done else record unlocked {
              queue = stable_sort (λ a b. ltb (ordinal p a) (ordinal p b)) unlocked.queue;
            }
      ]

  -- One round of the outer loop, up to the receipt and from it.
  unfoldable pub start_round : ℕ → Work E → Work E
  unfolding fill
  start_round limit w = fill limit w.queue w

  unfoldable pub is_busy : Work E → Bool
  is_busy w = not (is_empty w.running) || (not w.failed && not (is_empty w.queue))

  -- The outer loop for these completions; it waits if it is busy and none is left.
  unfoldable pub rounds : Plan → ℕ → List (Completion E) → Work E → Work E
  unfolding start_round receive is_busy
  rounds p limit [] w = w
  rounds p limit (c ∷ cs) w =
      let rest = rounds p limit cs (receive p c (start_round limit w)) in
      if is_busy w then rest else w

  -- The nodes that completed, in the order of the plan.
  unfoldable pub ready_of : Plan → Work E → List Text
  ready_of p w = select (contains w.completed) p.start_order

  unfoldable pub failures_of : List Text → Dict Text E → List (Text × E)
  failures_of [] failures = []
  failures_of (id ∷ ids) failures =
      let rest = failures_of ids failures in
      elim (lookup id failures) [ none ↦ rest | some e ↦ (id, e) ∷ rest ]

  -- `Execute`, where the flags tell whether the context is done before and after the loop; there is
  -- no result while the loop waits for a completion.
  unfoldable pub execute :
      Plan → ℕ → Bool → Bool → List (Completion E) → Option (List Text × Ending E)
  unfolding initial limit_of rounds is_busy ready_of failures_of
  execute p max_parallel done_before done_after completions =
      let w = rounds p (limit_of max_parallel p) completions (initial p) in
      let ending =
        if not (is_empty w.failures)
        then failed_nodes (failures_of p.start_order w.failures)
        else if done_after
        then cancelled
        else finished in
      if done_before
      then some ([], cancelled)
      else if is_busy w
      then none
      else some (ready_of p w, ending)
