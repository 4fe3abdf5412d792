-- ===== src/Host/Supervisor/History.antt =====
-- internal/host/supervisor.go: what a history of overlapping calls leaves.
use pulp.Prelude.{
  ℕ, ◌+◌, ◌%◌, ◌≡◌, refl, Bool, true, false, not, ◌&&◌, ◌||◌, List, [], ◌∷◌, Option, none, some,
  arith, if◌then◌else◌,
}
use pulp.Prelude.Decimal.{u64_mod}
use pulp.Host.Supervisor.{
  CellState, new, starting, ready, runaway, stopping, stopped, failed, Settings, Supervisor,
  Outcome, new_supervisor, enter, end_start, end_stop, guard, trip, bound, mark_ready,
}

-- The state behind a store, once a runaway came behind it or not.
abbrev pub overrun_of : CellState → Bool → CellState
overrun_of ready true = runaway
overrun_of ready false = ready
overrun_of new o = new
overrun_of starting o = starting
overrun_of runaway o = runaway
overrun_of stopping o = stopping
overrun_of stopped o = stopped
overrun_of failed o = failed

trip-overrun_of :
    (c : CellState) (r o : Bool)
    → overrun_of c (r || o) ≡ (if r then trip (overrun_of c o) else overrun_of c o)
unfolding trip
trip-overrun_of ready true true = refl
trip-overrun_of ready true false = refl
trip-overrun_of ready false o = refl
trip-overrun_of new r o = ground arith
trip-overrun_of starting r o = ground arith
trip-overrun_of runaway r o = ground arith
trip-overrun_of stopping r o = ground arith
trip-overrun_of stopped r o = ground arith
trip-overrun_of failed r o = ground arith

module _ (E : Type 0) where
  -- The parts of `Start`, `Stop` and `Guard` that run without another store between.
  pub data Call : Type 0 where
    start_begins stop_begins : Call
    start_ends : Option E → ℕ → Call
    stop_ends : Option E → Option E → Call
    guard_ends : Outcome E → Call

module _ {E : Type 0} where
  unfoldable pub apply : Call E → Supervisor E → Supervisor E
  unfolding enter end_start end_stop guard
  apply start_begins s = enter starting s
  apply stop_begins s = enter stopping s
  apply (start_ends e now) s = (end_start e now s).0
  apply (stop_ends e f) s = (end_stop e f s).0
  apply (guard_ends o) s = (guard o s).0

  -- The calls, the latest first.
  unfoldable pub after : List (Call E) → Supervisor E → Supervisor E
  unfolding apply
  after [] s = s
  after (c ∷ cs) s = apply c (after cs s)

  abbrev pub is_some : Option E → Bool
  is_some none = false
  is_some (some _) = true

  -- An outcome is a runaway when the call failed, its budget's deadline fired, and its caller was
  -- not done.
  abbrev pub is_runaway : Outcome E → Bool
  is_runaway o = is_some o.error && o.deadline_exceeded && not o.parent_done

  -- The last store of `Start` or `Stop`, whatever guarded calls came behind it.
  abbrev pub settled : List (Call E) → CellState
  settled [] = new
  settled (start_begins ∷ cs) = starting
  settled (stop_begins ∷ cs) = stopping
  settled (start_ends none now ∷ cs) = ready
  settled (start_ends (some e) now ∷ cs) = failed
  settled (stop_ends e f ∷ cs) = stopped
  settled (guard_ends o ∷ cs) = settled cs

  -- A runaway came behind that store.
  abbrev pub has_overrun : List (Call E) → Bool
  has_overrun [] = false
  has_overrun (start_begins ∷ cs) = false
  has_overrun (stop_begins ∷ cs) = false
  has_overrun (start_ends e now ∷ cs) = false
  has_overrun (stop_ends e f ∷ cs) = false
  has_overrun (guard_ends o ∷ cs) = is_runaway o || has_overrun cs

  abbrev pub lifecycle : List (Call E) → CellState
  lifecycle cs = overrun_of (settled cs) (has_overrun cs)

  -- The runaways of a history, and those of its starts and stops that have ended.
  abbrev pub runaways : List (Call E) → ℕ
  runaways [] = 0
  runaways (guard_ends o ∷ cs) = if is_runaway o then runaways cs + 1 else runaways cs
  runaways (start_begins ∷ cs) = runaways cs
  runaways (stop_begins ∷ cs) = runaways cs
  runaways (start_ends e now ∷ cs) = runaways cs
  runaways (stop_ends e f ∷ cs) = runaways cs

  abbrev pub has_ended : List (Call E) → Bool
  has_ended [] = false
  has_ended (guard_ends o ∷ cs) = has_ended cs
  has_ended (start_begins ∷ cs) = has_ended cs
  has_ended (stop_begins ∷ cs) = has_ended cs
  has_ended (start_ends e now ∷ cs) = true
  has_ended (stop_ends e f ∷ cs) = true

  -- After any history of starts, stops and guarded calls, which may overlap, the state is runaway
  -- exactly if the last store of Start or Stop was ready and a runaway came behind it, and is that
  -- store otherwise (new before any); the counter holds the runaways modulo 2 ^ 64, and the ready
  -- channel is closed exactly if a start or a stop has ended.
  pub after-new_supervisor :
      (c : Settings) (cs : List (Call E))
      → ((after cs (new_supervisor c)).state ≡ lifecycle cs)
        × ((after cs (new_supervisor c)).runaway_count ≡ runaways cs % u64_mod)
        × ((after cs (new_supervisor c)).ready_closed ≡ has_ended cs)
  unfolding after apply new_supervisor enter end_start end_stop guard bound mark_ready
  after-new_supervisor c [] = (refl, refl, refl)
  after-new_supervisor c (start_begins ∷ cs) = ground (arith, after-new_supervisor c cs)
  after-new_supervisor c (stop_begins ∷ cs) = ground (arith, after-new_supervisor c cs)
  after-new_supervisor c (start_ends none now ∷ cs) = ground (arith, after-new_supervisor c cs)
  after-new_supervisor c (start_ends (some e) now ∷ cs) = ground (arith, after-new_supervisor c cs)
  after-new_supervisor c (stop_ends e f ∷ cs) = ground (arith, after-new_supervisor c cs)
  after-new_supervisor c (guard_ends o ∷ cs) = ground (
    arith,
    after-new_supervisor c cs,
    trip-overrun_of (settled cs) (is_runaway o) (has_overrun cs),
  )
