-- ===== src/Host/Supervisor/Monitor.antt =====
-- internal/host/supervisor.go, `MonitorLiveness` with an `emit`. A tick has the calls of others, the
-- latest first, before each load and store of the tick; the list ends where the context is done.
use pulp.Prelude.{◌≡◌, ◌≢◌, ◌⊎◌, List, [], ◌∷◌, if◌then◌else◌}
use pulp.Host.Supervisor.{
  CellState, ready, Supervisor, Outcome, HealthSnapshot, guard, is_ready, healthy, snapshot,
}
use pulp.Host.Supervisor.History.{Call, after}

-- The calls before the first test, while the probe runs, before the loads of `State`, `Healthy`,
-- `LastOK` and the count by `Snapshot`, and before the second test.
pub record Tick (E : Type 0) : Type 0 where
  pub before : List (Call E)
  pub during : List (Call E)
  pub probe : Outcome E
  pub before_state : List (Call E)
  pub before_healthy : List (Call E)
  pub before_last_ok : List (Call E)
  pub before_count : List (Call E)
  pub meanwhile : List (Call E)

-- What a tick finds that nothing stops: the states at its two tests, and its snapshot.
pub record Sight : Type 0 where
  pub first : CellState
  pub second : CellState
  pub shot : HealthSnapshot

abbrev pub shots : List Sight → List HealthSnapshot
shots [] = []
shots (x ∷ xs) = x.shot ∷ shots xs

-- The ticks that are run stop where a test first finds the cell not ready: at the first test of
-- the tick behind them, or at the second test of the last one of them.
abbrev pub IsWatched : List Sight → List Sight → Type 0
IsWatched [] [] = Unit
IsWatched [] (x ∷ _) = x.first ≢ ready
IsWatched (x ∷ run) rest =
    (x.first ≡ ready)
    × (((x.second ≡ ready) × IsWatched run rest) ⊎ ((x.second ≢ ready) × (run ≡ [])))

module _ {E : Type 0} where
  unfoldable pub monitor : List (Tick E) → Supervisor E → Supervisor E × List HealthSnapshot
  unfolding healthy
  monitor [] s = (s, [])
  monitor (t ∷ ts) s =
      let reached = after t.before s in
      let probed = (guard t.probe (after t.during reached)).0 in
      let at_state = after t.before_state probed in
      let at_healthy = after t.before_healthy at_state in
      let at_last_ok = after t.before_last_ok at_healthy in
      let at_count = after t.before_count at_last_ok in
      let shot = snapshot at_state at_healthy at_last_ok at_count in
      let left = after t.meanwhile at_count in
      let (end, snapshots) = monitor ts left in
      if healthy reached
      then if healthy left then (end, shot ∷ snapshots) else (left, shot ∷ [])
      else (reached, [])

  -- The supervisors that a tick passes through, if nothing stops it.
  abbrev probed_of : Tick E → Supervisor E → Supervisor E
  probed_of t s = (guard t.probe (after t.during (after t.before s))).0

  abbrev counted_of : Tick E → Supervisor E → Supervisor E
  counted_of t s =
      after t.before_count
        (after t.before_last_ok (after t.before_healthy (after t.before_state (probed_of t s))))

  abbrev left_of : Tick E → Supervisor E → Supervisor E
  left_of t s = after t.meanwhile (counted_of t s)

  abbrev shot_of : Tick E → Supervisor E → HealthSnapshot
  shot_of t s =
      let at_state = after t.before_state (probed_of t s) in
      let at_healthy = after t.before_healthy at_state in
      let at_last_ok = after t.before_last_ok at_healthy in
      record {
        cell = at_state.name;
        state = at_state.state;
        healthy = is_ready at_healthy.state;
        last_ok = at_last_ok.last_ok;
        runaway_count = (counted_of t s).runaway_count;
      }

  abbrev sight_of : Tick E → Supervisor E → Sight
  sight_of t s = record {
    first = (after t.before s).state;
    second = (left_of t s).state;
    shot = shot_of t s;
  }

  -- All ticks, run to the last one whatever the states are.
  abbrev pub sights : List (Tick E) → Supervisor E → List Sight
  sights [] s = []
  sights (t ∷ ts) s = sight_of t s ∷ sights ts (left_of t s)
