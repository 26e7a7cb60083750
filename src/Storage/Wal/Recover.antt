-- ===== src/Storage/Wal/Recover.antt =====
-- `executeCommit`, `resetLog` and `recover`.
pub mod Between
pub mod Passes
pub mod Finish
pub mod Whole
pub mod Atomic
pub mod Commit
use stripe_sql.Prelude.{
  ℕ, zero, suc, ◌+◌, Option, none, some, Bool, true, false, ◌&&◌, ◌||◌, not, ◌==◌, if◌then◌else◌,
}
use stripe_sql.Storage.Wal.Entry.{WalEntry, object_type, wal_file_create, wal_file_remove}
use stripe_sql.Storage.Wal.Files.{Files, Outcome, apply_entry}
use stripe_sql.Storage.Wal.Log.{LogFile, empty_log, read_entry, check_synced, check_committed}

-- What the table directory holds: its files, and the log if there is one.
pub record Disk : Type 0 where
  pub files : Files
  pub log : Option LogFile

-- `!readEntry(i, ...) || manager.entry.transID != transID`
abbrev pub is_damaged : Option WalEntry → ℕ → Bool
is_damaged none trans_id = true
is_damaged (some e) trans_id = not (e.trans_id == trans_id)

-- What `readEntry` leaves in `manager.entry`. A read that fails leaves what was there. (An entry that is
-- damaged is not read again: the first loop has found it.)
abbrev pub left_in : WalEntry → Option WalEntry → WalEntry
left_in held none = held
left_in held (some e) = e

-- The first loop: whether each of the `rounds` entries from `i` on is read and whole. `reads i` is whether
-- the calls for entry `i` succeed.
unfoldable pub verify_loop : ℕ → (ℕ → Bool) → LogFile → ℕ → ℕ → Bool
unfolding read_entry
verify_loop zero reads log trans_id i = true
verify_loop (suc rounds) reads log trans_id i =
    let rest = verify_loop rounds reads log trans_id (i + 1) in
    if is_damaged (read_entry (reads i) log i) trans_id then false else rest

-- Whether the entry in the manager creates or removes a file.
abbrev pub changes_files : WalEntry → Bool
changes_files e =
    let type = object_type e.magic in type == wal_file_create || type == wal_file_remove

-- What the second loop returns: whether it got to its end, `changedFiles`, and the files.
pub record Applied : Type 0 where
  pub finished : Bool
  pub changed : Bool
  pub files : Files

-- The second loop. `io i` is how the calls for the file of entry `i` go, `rereads i` whether the entry is
-- read again, which the loop does not ask, and `held` what is in `manager.entry`.
unfoldable pub apply_loop :
    ℕ → (ℕ → Outcome) → (ℕ → Bool) → WalEntry → LogFile → ℕ → Bool → Files → Applied
unfolding apply_entry
apply_loop zero io rereads held log i changed files = record {
  finished = true;
  changed = changed;
  files = files;
}
apply_loop (suc rounds) io rereads held log i changed files =
    let e = left_in held (read_entry (rereads i) log i) in
    let (applied, files') = apply_entry (io i) e files in
    let rest = apply_loop rounds io rereads e log (i + 1) (changed || changes_files e) files' in
    if applied then rest else record { finished = false; changed = changed; files = files' }

-- `resetLog`: opening the log to write empties it, and then it is synced.
pub data Reset : Type 0 where
  reset cannot_open cannot_sync : Reset

unfoldable pub reset_log : Reset → Disk → Bool × Disk
reset_log reset d = (true, record d { log = some empty_log })
reset_log cannot_open d = (false, d)
reset_log cannot_sync d = (false, record d { log = some empty_log })

-- What the operating system answers during a recovery, and the entry that the manager holds before it:
-- whether the log is opened, whether its end is read by `checkSynced` and by `checkCommitted`, whether each
-- entry is read by the first and by the second loop, how the calls for each entry's file go, what
-- `syncDirectory` returns where it is called, and how `resetLog` goes.
pub record Answers : Type 0 where
  pub entry : WalEntry
  pub opened : Bool
  pub end_read : Bool
  pub marker_read : Bool
  pub reads : ℕ → Bool
  pub rereads : ℕ → Bool
  pub io : ℕ → Outcome
  pub directory_sync : Bool
  pub truncation : Reset

-- The entry that the first loop leaves in the manager.
abbrev pub last_read : Answers → LogFile → ℕ → WalEntry
last_read a log zero = a.entry
last_read a log (suc n) = left_in a.entry (read_entry (a.reads n) log n)

unfoldable pub execute_commit : Answers → LogFile → ℕ → ℕ → Files → Bool × Files
unfolding verify_loop apply_loop
execute_commit a log num_entries trans_id files =
    let out =
      apply_loop num_entries a.io a.rereads (last_read a log num_entries) log 0 false files in
    if verify_loop num_entries a.reads log trans_id 0
    then (out.finished && (not out.changed || a.directory_sync), out.files)
    else (false, files)

recover_committed : Answers → LogFile → Disk → Option (ℕ × ℕ) → Bool × Disk
recover_committed a log d none = reset_log a.truncation d
recover_committed a log d (some (num_entries, trans_id)) =
    let (finished, files') = execute_commit a log num_entries trans_id d.files in
    let d' = record d { files = files' } in
    if finished then reset_log a.truncation d' else (false, d')

-- Whether recovery succeeds, and what it leaves. A log that is not opened is taken for none.
unfoldable pub recover : Answers → Disk → Bool × Disk
unfolding check_synced check_committed recover_committed execute_commit reset_log
recover a d = elim d.log [
  | none ↦ (true, d)
  | some log ↦
      if not a.opened
      then (true, d)
      else if check_synced a.end_read log
      then (true, d)
      else recover_committed a log d (check_committed a.marker_read log)
]
