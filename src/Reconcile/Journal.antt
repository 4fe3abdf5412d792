-- ===== src/Reconcile/Journal.antt =====
-- internal/reconcile/file_journal.go: the chain of entries in memory and in the file. The bytes of an
-- entry under SHA-256 are a parameter, and the file is the list of its complete lines as encoding/json
-- reads them: the line of an entry gives that entry again, and a line that begins with a part of one, or
-- with one without its end of line, and goes on with another gives an error. A sequence number is below 2 ^ 64, as the entries are in memory.
pub mod Chain
pub mod Recover
use pulp.Prelude.{
  ℕ, suc, ◌+◌, ◌≡◌, Bool, true, false, not, ◌&&◌, ◌||◌, List, [], ◌∷◌, ◌++◌, Option, none, some,
  Result, ok, err, ◌>>=◌, eqb, ◌==◌, contains, if◌then◌else◌, length, reverse,
}
use pulp.Prelude.Text.{Text, text_eq}
use pulp.Reconcile.Transaction.{RecordStatus, committed, rolled_back, started, completed}

-- The fields of a record that the journal reads, and the others as one.
pub record Record (Rest : Type 0) : Type 0 where
  pub transaction_id : Text
  pub status : RecordStatus
  pub rest : Rest

-- The time is the one that the entry was made at.
pub record JournalEntry (Rest : Type 0) : Type 0 where
  pub sequence : ℕ
  pub recorded_at : ℕ
  pub previous_hash : Text
  pub record_ : Record Rest
  pub hash : Text

-- A complete line of the file: that of an entry, or one that encoding/json refuses.
pub data Line (Rest : Type 0) : Type 0 where
  whole : JournalEntry Rest → Line Rest
  garbled : Line Rest

module _ (Rest : Type 0) where
  -- The entries in memory with the last hash, and the file: its complete lines, and whether a part of
  -- a line stands behind them.
  pub record FileJournal : Type 0 where
    pub entries : List (JournalEntry Rest)
    pub last_hash : Text
    pub lines : List (Line Rest)
    pub torn : Bool

  pub record Recovery : Type 0 where
    pub incomplete : List (JournalEntry Rest)
    pub last_committed : Option (JournalEntry Rest)

-- How the file takes a line: it is synced, nothing or a part of it is written, or it is written and
-- not synced.
pub data Written : Type 0 where
  stored unwritten partial unsynced : Written

module _ {Rest : Type 0} where
  -- A line that is written whole; behind a part of another one it makes a line that is no entry.
  unfoldable pub write_line : JournalEntry Rest → FileJournal Rest → FileJournal Rest
  write_line e j = record j {
    lines = j.lines ++ (if j.torn then garbled else whole e) ∷ [];
    torn = false;
  }

-- `entryHash` of the fields but the hash.
module _ {Rest : Type 0} (entry_hash : ℕ → ℕ → Text → Record Rest → Text) where
  unfoldable pub next_entry : ℕ → Record Rest → FileJournal Rest → JournalEntry Rest
  next_entry now r j = record {
    sequence = length j.entries + 1;
    recorded_at = now;
    previous_hash = j.last_hash;
    record_ = r;
    hash = entry_hash (length j.entries + 1) now j.last_hash r;
  }

  -- `Record` at a time; the flag tells that there was no error.
  unfoldable pub record_entry :
      Written → ℕ → Record Rest → FileJournal Rest → FileJournal Rest × Bool
  unfolding next_entry write_line
  record_entry stored now r j =
      let e = next_entry now r j in
      (record (write_line e j) { entries = j.entries ++ e ∷ []; last_hash = e.hash }, true)
  record_entry unwritten now r j = (j, false)
  record_entry partial now r j = (record j { torn = true }, false)
  record_entry unsynced now r j = (write_line (next_entry now r j) j, false)

  unfoldable pub is_next : JournalEntry Rest → List (JournalEntry Rest) → Text → Bool
  is_next e entries last_hash =
      eqb e.sequence (length entries + 1)
      && e.previous_hash == last_hash
      && entry_hash e.sequence e.recorded_at e.previous_hash e.record_ == e.hash

  -- The loop of `load` over the lines that are left; an error has the sequence that it names.
  unfoldable pub load :
      List (JournalEntry Rest)
      → Text
      → List (Line Rest)
      → Result ℕ (List (JournalEntry Rest) × Text)
  unfolding is_next
  load entries last_hash [] = ok (entries, last_hash)
  load entries last_hash (garbled ∷ lines) = err (length entries + 1)
  load entries last_hash (whole e ∷ lines) =
      let rest = load (entries ++ e ∷ []) e.hash lines in
      if is_next e entries last_hash then rest else err e.sequence

  -- `OpenFileJournal` on the file of a journal: `load` cuts off the part of a line at its end.
  unfoldable pub open_file_journal : FileJournal Rest → Result ℕ (FileJournal Rest)
  unfolding load
  open_file_journal j = do
    loaded ← load [] [] j.lines
    ok (record { entries = loaded.0; last_hash = loaded.1; lines = j.lines; torn = false })

module _ {Rest : Type 0} where
  abbrev pub is_committed : JournalEntry Rest → Bool
  is_committed e = elim e.record_.status [ committed ↦ true | _ ↦ false ]

  abbrev pub is_terminal : JournalEntry Rest → Bool
  is_terminal e = elim e.record_.status [ committed ↦ true | rolled_back ↦ true | _ ↦ false ]

  unfoldable pub terminal_ids : List (JournalEntry Rest) → List Text
  terminal_ids [] = []
  terminal_ids (e ∷ es) =
      let rest = terminal_ids es in if is_terminal e then e.record_.transaction_id ∷ rest else rest

  -- The first committed entry of a list that starts with the last one.
  unfoldable pub first_committed : List (JournalEntry Rest) → Option (JournalEntry Rest)
  first_committed [] = none
  first_committed (e ∷ es) =
      let rest = first_committed es in if is_committed e then some e else rest

  -- The second loop; `seen` holds the transactions before.
  unfoldable pub incomplete_entries :
      List Text → List Text → List (JournalEntry Rest) → List (JournalEntry Rest)
  incomplete_entries terminal seen [] = []
  incomplete_entries terminal seen (e ∷ es) =
      let id = e.record_.transaction_id in
      let found = incomplete_entries terminal (id ∷ seen) es in
      let rest = incomplete_entries terminal seen es in
      if not (contains terminal id) && not (contains seen id) then e ∷ found else rest

  unfoldable pub recovery_state : FileJournal Rest → Recovery Rest
  unfolding terminal_ids first_committed incomplete_entries
  recovery_state j = record {
    incomplete = incomplete_entries (terminal_ids (reverse j.entries)) [] (reverse j.entries);
    last_committed = first_committed (reverse j.entries);
  }
