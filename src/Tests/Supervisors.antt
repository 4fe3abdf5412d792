-- ===== src/Tests/Supervisors.antt =====
-- internal/host/supervisor.go.
use pulp.Prelude.{◌≡◌, true, false, ℕ, ◌%◌, [], ◌∷◌, List, none, some}
use pulp.Prelude.Text.{codes}
use pulp.Prelude.Decimal.{u64_mod}
use pulp.Host.Supervisor.{Settings, Supervisor, Outcome, new_supervisor}
use pulp.Host.Supervisor.History.{
  Call, start_begins, start_ends, stop_begins, guard_ends, after, lifecycle, runaways, has_ended,
  after-new_supervisor,
}
use pulp.Host.Supervisor.Monitor.{Tick}

abbrev settings : Settings
settings = record {
  name = codes "cart";
  call_timeout = 0;
  default_call_timeout = 500;
  budget_option = 0;
  has_reporter = true;
}

-- A call that overran its budget, and one that went well.
abbrev overrun : Outcome ℕ
overrun = record {
  error = some 3;
  deadline_exceeded = true;
  parent_done = false;
  now = 90;
  elapsed = 600;
}

abbrev fine : Outcome ℕ
fine = record {
  error = none;
  deadline_exceeded = false;
  parent_done = false;
  now = 50;
  elapsed = 1;
}

abbrev calls : List (Call ℕ)
calls = guard_ends overrun ∷ guard_ends fine ∷ start_ends none 10 ∷ start_begins ∷ []

after-new_supervisor_example :
    ((after calls (new_supervisor settings)).state ≡ lifecycle calls)
    × ((after calls (new_supervisor settings)).runaway_count ≡ runaways calls % u64_mod)
    × ((after calls (new_supervisor settings)).ready_closed ≡ has_ended calls)
after-new_supervisor_example = after-new_supervisor settings calls

abbrev quiet : Outcome ℕ → List (Call ℕ) → Tick ℕ
quiet probe meanwhile = record {
  before = [];
  during = [];
  probe = probe;
  before_state = [];
  before_healthy = [];
  before_last_ok = [];
  before_count = [];
  meanwhile = meanwhile;
}

-- A stop begins between the two loads of the state by the last snapshot.
abbrev ticks : List (Tick ℕ)
ticks =
    quiet fine []
    ∷ record (quiet fine []) { during = guard_ends fine ∷ []; before_healthy = stop_begins ∷ [] }
    ∷ quiet overrun []
    ∷ []

abbrev running : Supervisor ℕ
running = after (start_ends none 10 ∷ []) (new_supervisor settings)
