-- ===== src/Host/Supervisor.antt =====
-- internal/host/supervisor.go. What the cell, its contexts and the clock answer is an argument of the
-- operation: the error of a call, whether the budget's deadline fired, whether the parent context is
-- done, and the time. The lifecycle stores are the steps, so that calls may overlap between them; the
-- stores of one operation behind one answer are one step.
pub mod History
pub mod Monitor
use pulp.Prelude.{
  ℕ, suc, ◌+◌, ◌%◌, ◌≡◌, Bool, true, false, not, ◌&&◌, List, [], ◌∷◌, ◌++◌, Option, none, some, eqb,
  leb, if◌then◌else◌,
}
use pulp.Prelude.Text.{Text}
use pulp.Prelude.Decimal.{u64_mod}

pub data CellState : Type 0 where
  new starting ready runaway stopping stopped failed : CellState

abbrev pub is_ready : CellState → Bool
is_ready ready = true
is_ready new = false
is_ready starting = false
is_ready runaway = false
is_ready stopping = false
is_ready stopped = false
is_ready failed = false

-- `CompareAndSwap(CellReady, CellRunaway)`
unfoldable pub trip : CellState → CellState
trip c = if is_ready c then runaway else c

-- DefaultCallTimeout is an argument.
pub record Settings : Type 0 where
  pub name : Text
  pub call_timeout : ℕ
  pub default_call_timeout : ℕ
  pub budget_option : ℕ
  pub has_reporter : Bool

pub record HealthSnapshot : Type 0 where
  pub cell : Text
  pub state : CellState
  pub healthy : Bool
  pub last_ok : ℕ
  pub runaway_count : ℕ

module _ (E : Type 0) where
  pub record RunawayReport : Type 0 where
    pub cell : Text
    pub budget : ℕ
    pub elapsed : ℕ
    pub err : E

  pub data GuardError : Type 0 where
    err_runaway : GuardError
    cell_error : E → GuardError

  -- The reports are those made so far; times are in nanoseconds, 0 for none.
  pub record Supervisor : Type 0 where
    pub name : Text
    pub budget : ℕ
    pub has_reporter : Bool
    pub state : CellState
    pub ready_closed : Bool
    pub last_ok : ℕ
    pub runaway_count : ℕ
    pub reports : List RunawayReport

  -- How a guarded call ended.
  pub record Outcome : Type 0 where
    pub error : Option E
    pub deadline_exceeded : Bool
    pub parent_done : Bool
    pub now : ℕ
    pub elapsed : ℕ

-- A budget option that is not positive leaves the default.
unfoldable pub budget_of : Settings → ℕ
budget_of c =
    let default_budget = if leb c.call_timeout 0 then c.default_call_timeout else c.call_timeout in
    if leb c.budget_option 0 then default_budget else c.budget_option

module _ {E : Type 0} where
  unfoldable pub new_supervisor : Settings → Supervisor E
  unfolding budget_of
  new_supervisor c = record {
    name = c.name;
    budget = budget_of c;
    has_reporter = c.has_reporter;
    state = new;
    ready_closed = false;
    last_ok = 0;
    runaway_count = 0;
    reports = [];
  }

  unfoldable pub healthy : Supervisor E → Bool
  healthy s = is_ready s.state

  -- `Snapshot` of the supervisors that its four loads find, in their order; others may store between.
  unfoldable pub snapshot :
      Supervisor E → Supervisor E → Supervisor E → Supervisor E → HealthSnapshot
  unfolding healthy
  snapshot at_state at_healthy at_last_ok at_count = record {
    cell = at_state.name;
    state = at_state.state;
    healthy = healthy at_healthy;
    last_ok = at_last_ok.last_ok;
    runaway_count = at_count.runaway_count;
  }

  -- The store of a state.
  unfoldable pub enter : CellState → Supervisor E → Supervisor E
  enter c s = record s { state = c }

  unfoldable pub mark_ready : Supervisor E → Supervisor E
  mark_ready s = record s { ready_closed = true }

  -- `Start` behind `Init`, which gave this error at this time.
  unfoldable pub end_start : Option E → ℕ → Supervisor E → Supervisor E × Option E
  unfolding enter mark_ready
  end_start (some e) now s = (mark_ready (enter failed s), some e)
  end_start none now s = (mark_ready (record (enter ready s) { last_ok = now }), none)

  unfoldable pub start : Option E → ℕ → Supervisor E → Supervisor E × Option E
  unfolding end_start enter
  start error now s = end_start error now (enter starting s)

  -- `errors.Join` of the two errors.
  joined : Option E → Option E → List E
  joined none none = []
  joined none (some e) = e ∷ []
  joined (some e) none = e ∷ []
  joined (some e) (some f) = e ∷ f ∷ []

  -- `Stop` behind `Shutdown` and `Close`, which gave these errors.
  unfoldable pub end_stop : Option E → Option E → Supervisor E → Supervisor E × List E
  unfolding enter mark_ready joined
  end_stop shut_err close_err s = (mark_ready (enter stopped s), joined shut_err close_err)

  unfoldable pub stop : Option E → Option E → Supervisor E → Supervisor E × List E
  unfolding end_stop enter
  stop shut_err close_err s = end_stop shut_err close_err (enter stopping s)

  -- A runaway that ended with this error.
  unfoldable pub bound : E → ℕ → Supervisor E → Supervisor E
  unfolding trip
  bound e elapsed s = record s {
    runaway_count = (s.runaway_count + 1) % u64_mod;
    state = trip s.state;
    reports =
        if s.has_reporter
        then s.reports
          ++ record { cell = s.name; budget = s.budget; elapsed = elapsed; err = e } ∷ []
        else s.reports;
  }

  unfoldable pub guard : Outcome E → Supervisor E → Supervisor E × Option (GuardError E)
  unfolding bound
  guard o s = elim o.error [
    | none ↦ (record s { last_ok = o.now }, none)
    | some e ↦
        if o.deadline_exceeded && not o.parent_done
        then (bound e o.elapsed s, some err_runaway)
        else (s, some (cell_error e))
  ]
