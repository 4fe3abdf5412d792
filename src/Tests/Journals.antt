-- ===== src/Tests/Journals.antt =====
-- internal/reconcile/file_journal.go.
use pulp.Prelude.{◌≡◌, ◌↔◌, true, refl, ℕ, ◌+◌, [], ◌∷◌, false, ok, err, inl, length, contains}
use pulp.Prelude.Text.{Text, codes, text_eq}
use pulp.Prelude.Sets.{Distinct}
use pulp.Reconcile.Transaction.{started, committed}
use pulp.Reconcile.Journal.{
  Record, FileJournal, stored, partial, record_entry, open_file_journal, load, recovery_state,
}
use pulp.Reconcile.Journal.Chain.{IsLoaded, record_entry-IsLoaded, record_entry_unsynced}
use pulp.Reconcile.Journal.Recover.{transactions, IsOpen, recovery_state-Distinct}

-- A hash that is the sequence alone.
abbrev by_number : ℕ → ℕ → Text → Record ℕ → Text
by_number n now previous r = n ∷ []

abbrev empty : FileJournal ℕ
empty = record { entries = []; last_hash = []; lines = []; torn = false }

abbrev begins : Text → Record ℕ
begins id = record { transaction_id = id; status = started; rest = 0 }

abbrev ends : Text → Record ℕ
ends id = record { transaction_id = id; status = committed; rest = 0 }

empty-IsLoaded : IsLoaded by_number empty
unfolding load
empty-IsLoaded = (refl, refl)

record_entry-IsLoaded_example :
    IsLoaded by_number (record_entry by_number stored 7 (begins (codes "t")) empty).0
    × (open_file_journal by_number (record_entry by_number partial 7 (begins (codes "t")) empty).0
        ≡ ok empty)
record_entry-IsLoaded_example =
    record_entry-IsLoaded by_number stored 7 (begins (codes "t")) empty (inl refl) empty-IsLoaded

record_entry_unsynced_example :
    load by_number [] []
      (record_entry by_number stored 8
        (ends (codes "t"))
        (record_entry by_number partial 7 (begins (codes "t")) empty).0).0.lines
    ≡ err (length empty.entries + 1)
record_entry_unsynced_example =
    record_entry_unsynced by_number partial 7 8 (begins (codes "t")) (ends (codes "t")) empty
      (inl refl) empty-IsLoaded

abbrev two : FileJournal ℕ
two =
    (record_entry by_number stored 9 (begins (codes "u"))
      (record_entry by_number stored 8 (ends (codes "t"))
        (record_entry by_number stored 7 (begins (codes "t")) empty).0).0).0

recovery_state-Distinct_example :
    Distinct (transactions (recovery_state two).incomplete)
    × ((x : Text)
        → (contains (transactions (recovery_state two).incomplete) x ≡ true)
          ↔ ((contains (transactions two.entries) x ≡ true) × IsOpen two.entries x))
recovery_state-Distinct_example = recovery_state-Distinct two
