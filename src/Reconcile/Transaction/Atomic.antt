-- ===== src/Reconcile/Transaction/Atomic.antt =====
-- internal/reconcile/reconciler.go: when the live deployment changes.
use pulp.Prelude.{
  ◌≡◌, ◌≢◌, refl, true, false, List, [], ◌∷◌, Option, none, some, ok, err, arith, ◌⊎◌, inl, inr,
  map, Bool-cases, Result-cases,
}
use pulp.Prelude.Text.{Text}
use pulp.Prelude.Dict.{Dict}
use pulp.Dependency.Plan.{Plan, PlanError, build}
use pulp.Reconcile.Diff.{diff, ChangeSet}
use pulp.Reconcile.Transaction.{
  note, called, completed, started, Stage, prepare, commit, RecordStatus, Node, Host, Failure,
  invalid_graph, commit_not_recorded, State, Transaction, revisions_from, item_of, record_stage,
  run_stage, activate, run_stages, early_stages, is_no_change, transact, reconcile,
}

module _ {V : Type 0} (h : Host V) where
  -- A transaction either ends before its commit succeeds, and leaves the deployment alone, or has
  -- committed the desired plan, and then fails at most in its last record.
  abbrev pub IsAtomic : State V → Plan → Dict Text Text → State V × Option (Failure V) → Type 0
  IsAtomic st desired revisions out =
      ((out.0.current ≡ st.current) × (out.1 ≢ none) × (out.1 ≢ some commit_not_recorded))
      ⊎ ((out.0.current.plan ≡ desired)
          × (out.0.current.revisions ≡ revisions)
          × ((out.1 ≡ none) ⊎ (out.1 ≡ some commit_not_recorded)))

  record_stage-current :
      (st : State V) (stage : Stage) (status : RecordStatus)
      → (record_stage h st stage status).0.current ≡ st.current
  unfolding record_stage
  record_stage-current st stage status = ground arith

  run_stage-desired :
      (stage : Stage) (st : State V) (t : Transaction V)
      → ((run_stage h stage st t).0.desired ≡ t.desired)
        × ((run_stage h stage st t).0.revisions ≡ t.revisions)
  unfolding run_stage
  run_stage-desired prepare st t = (refl, refl)
  run_stage-desired _ st t = (refl, refl)

  run_stages-IsAtomic :
      (stages : List Stage) (st : State V) (t : Transaction V)
      → IsAtomic st t.desired t.revisions (run_stages h stages st t)
  unfolding run_stages activate
  run_stages-IsAtomic [] st t = ground (arith, run_stage-desired commit st t)
  run_stages-IsAtomic (stage ∷ stages) st t = ground (
    arith,
    run_stage-desired stage st t,
    run_stages-IsAtomic stages (record_stage h (note st (called stage)) stage completed).0
        (run_stage h stage st t).0,
  )

  transact-IsAtomic :
      (st : State V) (t : Transaction V)
      → is_no_change t.changes ≡ false
      → IsAtomic st t.desired t.revisions (transact h st t)
  unfolding transact record_stage
  transact-IsAtomic st t c =
      ground (arith, run_stages-IsAtomic early_stages (record_stage h st prepare started).0 t)

  transact-no_change :
      (st : State V) (t : Transaction V)
      → is_no_change t.changes ≡ true
      → transact h st t ≡ (st, none)
  unfolding transact
  transact-no_change st t c = ground arith

  -- The changes that a call with this graph would make.
  abbrev pub changes_to : State V → List Node → Plan → ChangeSet
  changes_to st nodes desired = diff (record {
    old = st.current.plan;
    next = desired;
    old_revisions = st.current.revisions;
    next_revisions = revisions_from nodes [];
  })

  -- A call refuses an invalid graph, does nothing for a graph without changes, and otherwise either
  -- ends before its commit succeeds and leaves the live deployment alone, or makes the desired plan
  -- with its revisions live and then fails at most in recording that.
  pub reconcile_cases :
      (st : State V) (nodes : List Node)
      → ((e : PlanError) × (build (map item_of nodes) ≡ err e)
          × (reconcile h st nodes ≡ (st, some (invalid_graph e))))
        ⊎ ((desired : Plan) × (build (map item_of nodes) ≡ ok desired)
            × (((is_no_change (changes_to st nodes desired) ≡ true)
                  × (reconcile h st nodes ≡ (st, none)))
                ⊎ ((is_no_change (changes_to st nodes desired) ≡ false)
                    × IsAtomic st desired (revisions_from nodes []) (reconcile h st nodes))))
  unfolding reconcile
  reconcile_cases st nodes = elim (Result-cases (build (map item_of nodes))) [
    | inr (e, eq) ↦ inl (e, eq, rw (eq, reconcile) refl)
    | inl (desired, eq) ↦ inr (
      desired,
      eq,
      elim (Bool-cases (is_no_change (changes_to st nodes desired))) [
        | inl same ↦ inl (same, rw (eq, reconcile) (transact-no_change st _ same))
        | inr differs ↦ inr (differs, rw (eq, reconcile) (transact-IsAtomic st _ differs))
      ],
    )
  ]
