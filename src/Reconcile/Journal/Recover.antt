-- ===== src/Reconcile/Journal/Recover.antt =====
-- internal/reconcile/file_journal.go, `RecoveryState`.
use pulp.Prelude.{
  ◌≡◌, ◌≢◌, ◌↔◌, ◌⊎◌, refl, true, false, All, inl, inr, not, ◌&&◌, ◌||◌, ◌++◌, List, [], ◌∷◌, arith,
  contains, reverse,
}
use mathlib.Core.List.{reverse-cons}
use pulp.Prelude.Text.{Text, text_eq}
use pulp.Reconcile.Transaction.{RecordStatus, started, completed, committed, rolled_back}
use pulp.Prelude.Sets.{Distinct}
use pulp.Reconcile.Journal.{
  JournalEntry, FileJournal, is_terminal, terminal_ids, incomplete_entries, recovery_state,
}

status-cases :
    (s : RecordStatus) → (s ≡ started) ⊎ (s ≡ completed) ⊎ (s ≡ committed) ⊎ (s ≡ rolled_back)
status-cases started = inl refl
status-cases completed = inr (inl refl)
status-cases committed = inr (inr (inl refl))
status-cases rolled_back = inr (inr (inr refl))

module _ {Rest : Type 0} where
  abbrev pub transactions : List (JournalEntry Rest) → List Text
  transactions [] = []
  transactions (e ∷ es) = e.record_.transaction_id ∷ transactions es

  contains-incomplete_entries :
      (terminal seen : List Text) (es : List (JournalEntry Rest)) (x : Text)
      → contains (transactions (incomplete_entries terminal seen es)) x
        ≡ (contains (transactions es) x && not (contains terminal x) && not (contains seen x))
  unfolding incomplete_entries
  contains-incomplete_entries terminal seen [] x = ground arith
  contains-incomplete_entries terminal seen (e ∷ es) x = ground (
    arith,
    contains-incomplete_entries terminal seen es x,
    contains-incomplete_entries terminal (e.record_.transaction_id ∷ seen) es x,
  )

  incomplete_entries-Distinct :
      (terminal seen : List Text) (es : List (JournalEntry Rest))
      → Distinct (transactions (incomplete_entries terminal seen es))
  unfolding incomplete_entries
  incomplete_entries-Distinct terminal seen [] = tt
  incomplete_entries-Distinct terminal seen (e ∷ es) =
      let id = e.record_.transaction_id in
      ground (
        arith,
        incomplete_entries-Distinct terminal seen es,
        incomplete_entries-Distinct terminal (id ∷ seen) es,
        contains-incomplete_entries terminal (id ∷ seen) es id,
      )

  -- No entry of the transaction is committed or rolled back.
  abbrev pub IsOpen : List (JournalEntry Rest) → Text → Type 0
  IsOpen es x =
      All
        (λ e.
          (e.record_.transaction_id ≢ x)
          ⊎ ((e.record_.status ≢ committed) × (e.record_.status ≢ rolled_back)))
        es

  is_terminal-cases :
      (e : JournalEntry Rest)
      → ((is_terminal e ≡ true)
          × ((e.record_.status ≡ committed) ⊎ (e.record_.status ≡ rolled_back)))
        ⊎ ((is_terminal e ≡ false)
            × (e.record_.status ≢ committed)
            × (e.record_.status ≢ rolled_back))
  is_terminal-cases e = elim (status-cases e.record_.status) [
    | inl s ↦ ground arith
    | inr (inl s) ↦ ground arith
    | inr (inr (inl s)) ↦ ground arith
    | inr (inr (inr s)) ↦ ground arith
  ]

  contains-terminal_ids :
      (es : List (JournalEntry Rest)) (x : Text)
      → (contains (terminal_ids es) x ≡ false) ↔ IsOpen es x
  unfolding terminal_ids
  contains-terminal_ids [] x = (λ h. tt, λ h. refl)
  contains-terminal_ids (e ∷ es) x = ground (arith, is_terminal-cases e, contains-terminal_ids es x)

  contains-transactions-append :
      (es fs : List (JournalEntry Rest)) (x : Text)
      → contains (transactions (es ++ fs)) x
        ≡ (contains (transactions es) x || contains (transactions fs) x)
  contains-transactions-append [] fs x = refl
  contains-transactions-append (e ∷ es) fs x = ground (arith, contains-transactions-append es fs x)

  contains-transactions-reverse :
      (es : List (JournalEntry Rest)) (x : Text)
      → contains (transactions (reverse es)) x ≡ contains (transactions es) x
  contains-transactions-reverse [] x = refl
  contains-transactions-reverse (e ∷ es) x = ground (
    arith,
    reverse-cons e es,
    contains-transactions-append (reverse es) (e ∷ []) x,
    contains-transactions-reverse es x,
  )

  contains-terminal_ids-append :
      (es fs : List (JournalEntry Rest)) (x : Text)
      → contains (terminal_ids (es ++ fs)) x
        ≡ (contains (terminal_ids es) x || contains (terminal_ids fs) x)
  unfolding terminal_ids
  contains-terminal_ids-append [] fs x = refl
  contains-terminal_ids-append (e ∷ es) fs x = ground (arith, contains-terminal_ids-append es fs x)

  contains-terminal_ids-reverse :
      (es : List (JournalEntry Rest)) (x : Text)
      → contains (terminal_ids (reverse es)) x ≡ contains (terminal_ids es) x
  unfolding terminal_ids
  contains-terminal_ids-reverse [] x = refl
  contains-terminal_ids-reverse (e ∷ es) x = ground (
    arith,
    reverse-cons e es,
    contains-terminal_ids-append (reverse es) (e ∷ []) x,
    contains-terminal_ids-reverse es x,
  )

  -- The recovery lists exactly the transactions of the journal that have no committed and no
  -- rolled-back entry, each once.
  pub recovery_state-Distinct :
      (j : FileJournal Rest)
      → Distinct (transactions (recovery_state j).incomplete)
        × ((x : Text)
            → (contains (transactions (recovery_state j).incomplete) x ≡ true)
              ↔ ((contains (transactions j.entries) x ≡ true) × IsOpen j.entries x))
  unfolding recovery_state
  recovery_state-Distinct j = (
    incomplete_entries-Distinct (terminal_ids (reverse j.entries)) [] (reverse j.entries),
    λ x.
        let open_ = contains-terminal_ids j.entries x in
        let listed =
          contains-incomplete_entries (terminal_ids (reverse j.entries)) [] (reverse j.entries) x in
        let same = contains-terminal_ids-reverse j.entries x in
        let named = contains-transactions-reverse j.entries x in
        (
          (λ h.
              (ground (arith, listed, same, named), open_.0 (ground (arith, listed, same, named)))),
          (λ h. ground (arith, listed, same, named, open_.1 h.1)),
        ),
  )
