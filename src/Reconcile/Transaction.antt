-- ===== src/Reconcile/Transaction.antt =====
-- internal/reconcile/reconciler.go, `ReconcileWithEvidence`. What the host and the journal answer is a
-- parameter; the calls made are kept in order. The mutex serializes calls, so one runs at a time.
pub mod Atomic
use pulp.Prelude.{
  ℕ, suc, ◌+◌, ◌≡◌, Bool, true, false, not, ◌&&◌, ◌||◌, List, [], ◌∷◌, ◌++◌, Option, none, some,
  Result, ok, err, ◌==◌, if◌then◌else◌, length, map,
}
use pulp.Prelude.Text.{Text, text_eq, is_empty}
use pulp.Prelude.Dict.{Dict, insert}
use pulp.Dependency.Plan.{Plan, PlanError, Item, build}
use pulp.Reconcile.Diff.{ChangeSet, diff}

pub data Stage : Type 0 where
  prepare quiesce snapshot migrate swap health commit : Stage

pub data RecordStatus : Type 0 where
  started completed committed rolled_back : RecordStatus

-- reconcile.Node
pub record Node : Type 0 where
  pub id : Text
  pub depends_on : List Text
  pub revision : Text

module _ (Value : Type 0) where
  pub record Deployment : Type 0 where
    pub plan : Plan
    pub value : Value
    pub revisions : Dict Text Text

  -- The calls that a transaction makes, in the order in which it makes them.
  pub data Event : Type 0 where
    called : Stage → Event
    recorded : Stage → RecordStatus → Event
    rollback_called : Stage → Value → Value → Event

  -- Lifecycle and Recorder: the answers to the calls. `Prepare` and `Snapshot` give a value beside
  -- their error; an answer may depend on the calls made so far.
  pub record Host : Type 0 where
    pub nil_value : Value
    pub has_recorder : Bool
    pub on_prepare : List Event → Plan → ChangeSet → Value × Bool
    pub on_snapshot : List Event → Deployment → ChangeSet → Value × Bool
    pub on_stage : List Event → Stage → Deployment → Value → Value → ChangeSet → Bool
    pub on_rollback : List Event → Stage → Bool
    pub on_record : List Event → Stage → RecordStatus → Bool

  -- The errors that are joined in the result: the cause, and whether the rollback and its record
  -- failed too.
  pub data Failure : Type 0 where
    invalid_graph : PlanError → Failure
    start_not_recorded : Failure
    phase_failed record_failed : Stage → Bool → Bool → Failure
    commit_not_recorded : Failure

  pub record State : Type 0 where
    pub current : Deployment
    pub log : List Event

  -- The variables of one transaction.
  pub record Transaction : Type 0 where
    pub changes : ChangeSet
    pub desired : Plan
    pub revisions : Dict Text Text
    pub candidate : Value
    pub saved : Value

pub revisions_from : List Node → Dict Text Text → Dict Text Text
revisions_from [] d = d
revisions_from (n ∷ ns) d = revisions_from ns (insert n.id n.revision d)

pub item_of : Node → Item
item_of n = record { id = n.id; depends_on = n.depends_on }

-- `append` by one call.
abbrev pub note : {V : Type 0} → State V → Event V → State V
note st e = record st { log = st.log ++ e ∷ [] }

abbrev pub early_stages : List Stage
early_stages = prepare ∷ quiesce ∷ snapshot ∷ migrate ∷ swap ∷ health ∷ []

unfoldable pub is_no_change : ChangeSet → Bool
is_no_change c = is_empty c.added && is_empty c.updated && is_empty c.removed

module _ {V : Type 0} (h : Host V) where
  -- The closure `record`: the state after it, and whether it succeeded.
  unfoldable pub record_stage : State V → Stage → RecordStatus → State V × Bool
  record_stage st stage status =
      if h.has_recorder
      then (note st (recorded stage status), h.on_record st.log stage status)
      else (st, true)

  -- The closure `rollback`: the rollback is always called, and always recorded.
  unfoldable pub roll_back :
      State V → Transaction V → Stage → (Bool → Bool → Failure V) → State V × Option (Failure V)
  unfolding record_stage
  roll_back st t stage cause =
      let rolled = h.on_rollback st.log stage in
      let (st', done) =
        record_stage (note st (rollback_called stage t.candidate t.saved)) stage rolled_back in
      (st', some (cause rolled done))

  -- One call of the lifecycle, with the variable that it sets.
  unfoldable pub run_stage : Stage → State V → Transaction V → Transaction V × Bool
  run_stage prepare st t =
      let (v, done) = h.on_prepare st.log t.desired t.changes in (record t { candidate = v }, done)
  run_stage snapshot st t =
      let (v, done) = h.on_snapshot st.log st.current t.changes in (record t { saved = v }, done)
  run_stage quiesce st t = (t, h.on_stage st.log quiesce st.current t.candidate t.saved t.changes)
  run_stage migrate st t = (t, h.on_stage st.log migrate st.current t.candidate t.saved t.changes)
  run_stage swap st t = (t, h.on_stage st.log swap st.current t.candidate t.saved t.changes)
  run_stage health st t = (t, h.on_stage st.log health st.current t.candidate t.saved t.changes)
  run_stage commit st t = (t, h.on_stage st.log commit st.current t.candidate t.saved t.changes)

  -- What follows a successful commit.
  unfoldable pub activate : State V → Transaction V → State V × Option (Failure V)
  unfolding record_stage
  activate st t =
      let live : Deployment V = record {
        plan = t.desired;
        value = t.candidate;
        revisions = t.revisions;
      } in
      let (st', done) = record_stage (record st { current = live }) commit committed in
      (st', if done then none else some commit_not_recorded)

  -- The stages in their order; the list is what is left of them.
  unfoldable pub run_stages : List Stage → State V → Transaction V → State V × Option (Failure V)
  unfolding roll_back
  run_stages [] st t =
      let (t', done) = run_stage commit st t in
      let st' = note st (called commit) in
      if done then activate st' t' else roll_back st' t' commit (phase_failed commit)
  run_stages (stage ∷ stages) st t =
      let (t', done) = run_stage stage st t in
      let called_st = note st (called stage) in
      let (st', kept) = record_stage called_st stage completed in
      let rest = run_stages stages st' t' in
      if done
      then if kept then rest else roll_back st' t' stage (record_failed stage)
      else roll_back called_st t' stage (phase_failed stage)

  unfoldable pub transact : State V → Transaction V → State V × Option (Failure V)
  transact st t =
      let (st', done) = record_stage st prepare started in
      let rest = run_stages early_stages st' t in
      if is_no_change t.changes
      then (st, none)
      else if done
      then rest
      else (st', some start_not_recorded)

  transaction_of : State V → List Node → Plan → Transaction V
  transaction_of st nodes desired = record {
    changes = diff (record {
      old = st.current.plan;
      next = desired;
      old_revisions = st.current.revisions;
      next_revisions = revisions_from nodes [];
    });
    desired = desired;
    revisions = revisions_from nodes [];
    candidate = h.nil_value;
    saved = h.nil_value;
  }

  unfoldable pub reconcile : State V → List Node → State V × Option (Failure V)
  unfolding transaction_of
  reconcile st nodes = elim (build (map item_of nodes)) [
    | err e ↦ (st, some (invalid_graph e))
    | ok desired ↦ transact st (transaction_of st nodes desired)
  ]
