-- ===== src/Reconcile/Journal/Chain.antt =====
-- internal/reconcile/file_journal.go: what `Record` writes, `load` reads.
use pulp.Prelude.{
  ℕ, ◌+◌, ◌≡◌, Result, ◌⊎◌, true, false, List, [], ◌∷◌, ◌++◌, ok, err, arith, if◌then◌else◌, length,
  length-append,
}
use pulp.Prelude.Text.{Text, text_eq}
use pulp.Reconcile.Journal.{
  Record, JournalEntry, Line, whole, garbled, partial, write_line, open_file_journal, FileJournal,
  Written, stored, unwritten, unsynced, next_entry, record_entry, is_next, load,
}

module _ {Rest : Type 0} (entry_hash : ℕ → ℕ → Text → Record Rest → Text) where
  -- The file has no part of a line, and its lines load as the entries in memory.
  abbrev pub IsLoaded : FileJournal Rest → Type 0
  IsLoaded j = (load entry_hash [] [] j.lines ≡ ok (j.entries, j.last_hash)) × (j.torn ≡ false)

  next_entry-is_next :
      (now : ℕ) (r : Record Rest) (j : FileJournal Rest)
      → is_next entry_hash (next_entry entry_hash now r j) j.entries j.last_hash ≡ true
  unfolding is_next next_entry
  next_entry-is_next now r j = ground arith

  -- What a line that is added does to what the file loads as.
  abbrev load_line :
      Line Rest → List (JournalEntry Rest) → Text → Result ℕ (List (JournalEntry Rest) × Text)
  load_line garbled done last = err (length done + 1)
  load_line (whole e) done last =
      if is_next entry_hash e done last then ok (done ++ e ∷ [], e.hash) else err e.sequence

  load-append :
      (lines : List (Line Rest)) (entries done : List (JournalEntry Rest)) (start last : Text)
      (line : Line Rest)
      → load entry_hash entries start lines ≡ ok (done, last)
      → load entry_hash entries start (lines ++ line ∷ []) ≡ load_line line done last
  unfolding load
  load-append [] entries done start last (whole e) h = ground arith
  load-append [] entries done start last garbled h = ground arith
  load-append (garbled ∷ lines) entries done start last line h = absurd (ground arith)
  load-append (whole x ∷ lines) entries done start last line h =
      ground (arith, load-append lines (entries ++ x ∷ []) done x.hash last line)

  stored-IsLoaded :
      (now : ℕ) (r : Record Rest) (j : FileJournal Rest)
      → IsLoaded j
      → IsLoaded (record_entry entry_hash stored now r j).0
  unfolding record_entry write_line
  stored-IsLoaded now r j h =
      let e = next_entry entry_hash now r j in
      ground (
        arith,
        load-append j.lines [] j.entries [] j.last_hash (whole e) h.0,
        next_entry-is_next now r j,
      )

  open_file_journal-partial :
      (now : ℕ) (r : Record Rest) (j : FileJournal Rest)
      → IsLoaded j
      → open_file_journal entry_hash (record_entry entry_hash partial now r j).0 ≡ ok j
  unfolding open_file_journal record_entry
  open_file_journal-partial now r j h = ground (arith, h.0, h.1)

  -- For a journal whose file loads as its entries in memory, a record that is stored, or that is not
  -- written at all, leaves a journal of that kind; one that is written in part is gone when the file is
  -- opened again.
  pub record_entry-IsLoaded :
      (w : Written) (now : ℕ) (r : Record Rest) (j : FileJournal Rest)
      → (w ≡ stored) ⊎ (w ≡ unwritten)
      → IsLoaded j
      → IsLoaded (record_entry entry_hash w now r j).0
        × (open_file_journal entry_hash (record_entry entry_hash partial now r j).0 ≡ ok j)
  unfolding record_entry
  record_entry-IsLoaded stored now r j n h =
      (stored-IsLoaded now r j h, open_file_journal-partial now r j h)
  record_entry-IsLoaded unwritten now r j n h = (h, open_file_journal-partial now r j h)
  record_entry-IsLoaded partial now r j n h = absurd (ground arith)
  record_entry-IsLoaded unsynced now r j n h = absurd (ground arith)

  not_next :
      (now later : ℕ) (q r : Record Rest) (j : FileJournal Rest) (last : Text)
      → is_next entry_hash
          (next_entry entry_hash later q j)
          (j.entries ++ next_entry entry_hash now r j ∷ [])
          last
        ≡ false
  unfolding is_next next_entry
  not_next now later q r j last =
      ground (arith, length-append j.entries (next_entry entry_hash now r j ∷ []))

  -- For a journal whose file loads as its entries in memory, a record whose line is written in part, or
  -- whole and not synced, and then a stored record, leave a file that no longer loads.
  pub record_entry_unsynced :
      (w : Written) (now later : ℕ) (r q : Record Rest) (j : FileJournal Rest)
      → (w ≡ partial) ⊎ (w ≡ unsynced)
      → IsLoaded j
      → load entry_hash [] []
          (record_entry entry_hash stored later q (record_entry entry_hash w now r j).0).0.lines
        ≡ err (length j.entries + 1)
  unfolding record_entry write_line
  record_entry_unsynced stored now later r q j n h = absurd (ground arith)
  record_entry_unsynced unwritten now later r q j n h = absurd (ground arith)
  record_entry_unsynced partial now later r q j n h =
      load-append j.lines [] j.entries [] j.last_hash garbled h.0
  record_entry_unsynced unsynced now later r q j n h =
      let e = next_entry entry_hash now r j in
      ground (
        arith,
        load-append j.lines [] j.entries [] j.last_hash (whole e) h.0,
        next_entry-is_next now r j,
        load-append (j.lines ++ whole e ∷ []) [] (j.entries ++ e ∷ []) [] e.hash
            (whole (next_entry entry_hash later q j)),
        not_next now later q r j e.hash,
      )
