-- ===== src/Dependency/Scheduler/Running.antt =====
-- internal/dependency/scheduler.go: what runs at a time, and what is started when.
use pulp.Prelude.{
  ℕ, ◌≤◌, ◌≡◌, refl, true, List, [], ◌∷◌, ◌++◌, arith, length, length-append, Option-cases, inl,
  ◌⊎◌, inr,
}
use pulp.Prelude.Text.{Text, text_eq}
use pulp.Dependency.Plan.{Plan}
use pulp.Dependency.Scheduler.{
  Completion, Work, stop_running, launch, fill, unlock_one, unlock, receive, start_round, rounds,
  initial, dependents, limit_of,
}

limit_of-bounded :
    (max_parallel : ℕ) (p : Plan)
    → (limit_of max_parallel p ≤ length p.start_order)
      × ((max_parallel ≡ 0) ⊎ (limit_of max_parallel p ≤ max_parallel))
unfolding limit_of
limit_of-bounded max_parallel p = ground arith

length-stop_running : (id : Text) (xs : List Text) → length (stop_running id xs) ≤ length xs
unfolding stop_running
length-stop_running id [] = omega arith
length-stop_running id (x ∷ xs) = ground (arith, length-stop_running id xs)

module _ {E : Type 0} where
  fill-bounded :
      (limit : ℕ) (queue : List Text) (w : Work E)
      → length w.running ≤ limit
      → length (fill limit queue w).running ≤ limit
  unfolding fill launch
  fill-bounded limit [] w h = h
  fill-bounded limit (id ∷ queue) w h =
      ground (arith, fill-bounded limit queue (launch id w), length-append w.running (id ∷ []))

  fill-failed :
      (limit : ℕ) (queue : List Text) (w : Work E)
      → w.failed ≡ true
      → ((fill limit queue w).launched ≡ w.launched) × ((fill limit queue w).failed ≡ true)
  unfolding fill
  fill-failed limit [] w h = (refl, h)
  fill-failed limit (id ∷ queue) w h = ground arith

  unlock_one-kept :
      (d : Text) (w : Work E)
      → ((unlock_one d w).running ≡ w.running)
        × ((unlock_one d w).launched ≡ w.launched)
        × ((unlock_one d w).failed ≡ w.failed)
        × ((unlock_one d w).completed ≡ w.completed)
  unfolding unlock_one
  unlock_one-kept d w = ground arith

  unlock-kept :
      (ds : List Text) (w : Work E)
      → ((unlock ds w).running ≡ w.running)
        × ((unlock ds w).launched ≡ w.launched)
        × ((unlock ds w).failed ≡ w.failed)
        × ((unlock ds w).completed ≡ w.completed)
  unfolding unlock
  unlock-kept [] w = (refl, refl, refl, refl)
  unlock-kept (d ∷ ds) w = ground (arith, unlock_one-kept d w, unlock-kept ds (unlock_one d w))

  -- The work as a successful completion leaves it, before its dependents are looked at.
  abbrev completed_work : Completion E → Work E → Work E
  completed_work c w = record w {
    running = stop_running c.id w.running;
    completed = w.completed ++ c.id ∷ [];
  }

  receive-bounded :
      (p : Plan) (c : Completion E) (w : Work E) → length (receive p c w).running ≤ length w.running
  unfolding receive
  receive-bounded p c w = elim (Option-cases c.error) [
    | inl e ↦ ground (
      arith,
      length-stop_running c.id w.running,
      unlock-kept (dependents p c.id) (completed_work c w),
    )
    | inr (x, e) ↦ ground (arith, length-stop_running c.id w.running)
  ]

  receive-failed :
      (p : Plan) (c : Completion E) (w : Work E)
      → w.failed ≡ true
      → ((receive p c w).launched ≡ w.launched) × ((receive p c w).failed ≡ true)
  unfolding receive
  receive-failed p c w h = elim (Option-cases c.error) [
    | inl e ↦ ground arith
    | inr (x, e) ↦ ground arith
  ]

  rounds-bounded :
      (p : Plan) (limit : ℕ) (cs : List (Completion E)) (w : Work E)
      → length w.running ≤ limit
      → length (rounds p limit cs w).running ≤ limit
  unfolding rounds start_round
  rounds-bounded p limit [] w h = h
  rounds-bounded p limit (c ∷ cs) w h = ground (
    arith,
    fill-bounded limit w.queue w h,
    receive-bounded p c (fill limit w.queue w),
    rounds-bounded p limit cs (receive p c (fill limit w.queue w)),
  )

  -- However the workers complete, no more of them run at a time than the plan has nodes, and no more
  -- than the given limit where it is positive, also behind the launches of the round.
  pub start_round-bounded :
      (p : Plan) (max_parallel : ℕ) (cs : List (Completion E))
      → let limit = limit_of max_parallel p in
        let running = (start_round limit (rounds p limit cs (initial p))).running in
        (length running ≤ length p.start_order)
        × ((max_parallel ≡ 0) ⊎ (length running ≤ max_parallel))
  unfolding start_round initial
  start_round-bounded p max_parallel cs =
      let limit = limit_of max_parallel p in
      let w : Work E = rounds p limit cs (initial p) in
      let bound : length (fill limit w.queue w).running ≤ limit =
        (fill-bounded limit w.queue w (rounds-bounded p limit cs (initial p) (omega arith))) in
      (
        ground (arith, limit_of-bounded max_parallel p),
        elim (limit_of-bounded max_parallel p).1 [
          | inl zero ↦ inl zero
          | inr small ↦ inr (omega arith)
        ],
      )

  -- Once a node has failed no further node is launched, however the others complete.
  pub rounds-failed :
      (p : Plan) (limit : ℕ) (cs : List (Completion E)) (w : Work E)
      → w.failed ≡ true
      → ((rounds p limit cs w).launched ≡ w.launched) × ((rounds p limit cs w).failed ≡ true)
  unfolding rounds start_round
  rounds-failed p limit [] w h = (refl, h)
  rounds-failed p limit (c ∷ cs) w h = ground (
    arith,
    fill-failed limit w.queue w h,
    receive-failed p c (fill limit w.queue w),
    rounds-failed p limit cs (receive p c (fill limit w.queue w)),
  )
