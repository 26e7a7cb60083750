-- ===== src/Storage/Wal/Recover/Finish.antt =====
-- How a recovery ends, by what the log is and how `executeCommit` goes.
use stripe_sql.Prelude.{
  ℕ, ◌≡◌, refl, sym, ap, ◌∙◌, arith, Option, none, some, Bool, true, false, List, [], zero, suc,
  ◌+◌, if◌then◌else◌, inl, inr, Bool-cases,
}
use stripe_sql.Storage.Wal.Entry.{WalEntry, zeros}
use stripe_sql.Storage.Wal.Files.{Files, done}
use stripe_sql.Storage.Wal.Files.Present.{opens}
use stripe_sql.Storage.Wal.Log.{LogFile, check_synced, check_committed, read_entry}
use stripe_sql.Storage.Wal.Recover.{
  Disk, verify_loop, execute_commit, reset, reset_log, Answers, recover, last_read, is_damaged,
}
use stripe_sql.Storage.Wal.Recover.Between.{entries_from, apply_loop-pass_loop}
use stripe_sql.Storage.Wal.Recover.Passes.{pass_loop-finished}

-- The manager's entry before anything is read.
abbrev pub no_entry : WalEntry
no_entry = record {
  magic = 0;
  trans_id = 0;
  file_name = zeros;
  addr = 0;
  payload_len = 0;
  payload = zeros;
  checksum = 0;
}

-- No call fails.
abbrev pub calm : Answers
calm = record {
  entry = no_entry;
  opened = true;
  end_read = true;
  marker_read = true;
  reads = λ _. true;
  rereads = λ _. true;
  io = λ _. done;
  directory_sync = true;
  truncation = reset;
}

-- The log is read where its end is looked for, where its marker is, and where an entry that was read
-- before is read again. Opening it, and the first reading of each entry, may fail.
pub record ReadsLog (a : Answers) : Type 0 where
  pub end_read : a.end_read ≡ true
  pub marker_read : a.marker_read ≡ true
  pub rereads : (i : ℕ) → a.rereads i ≡ true

abbrev pub committed_entries : LogFile → Option (ℕ × ℕ) → List WalEntry
committed_entries log none = []
committed_entries log (some (num_entries, trans_id)) = entries_from num_entries log 0

-- The entries of a committed log.
abbrev pub log_entries : Option LogFile → List WalEntry
log_entries none = []
log_entries (some log) = committed_entries log (check_committed true log)

abbrev pub disk : Files → LogFile → Disk
disk files log = record { files = files; log = some log }

module _ (a : Answers) (files : Files) (log : LogFile) where
  pub recover-unopened : a.opened ≡ false → recover a (disk files log) ≡ (true, disk files log)
  unfolding recover
  recover-unopened o = rw o refl

  pub recover-synced :
      check_synced a.end_read log ≡ true → recover a (disk files log) ≡ (true, disk files log)
  unfolding recover
  recover-synced s = elim (Bool-cases a.opened) [ inl o ↦ rw (o, s) refl | inr o ↦ rw o refl ]

  pub recover-discards :
      a.opened ≡ true
      → check_synced a.end_read log ≡ false
      → check_committed a.marker_read log ≡ none
      → recover a (disk files log) ≡ reset_log a.truncation (disk files log)
  unfolding recover
  recover-discards o s k = rw o (rw s (rw k refl))

  pub recover-fails :
      (num_entries trans_id : ℕ)
      → a.opened ≡ true
      → check_synced a.end_read log ≡ false
      → check_committed a.marker_read log ≡ some (num_entries, trans_id)
      → (execute_commit a log num_entries trans_id files).0 ≡ false
      → recover a (disk files log)
        ≡ (false, disk (execute_commit a log num_entries trans_id files).1 log)
  unfolding recover
  recover-fails num_entries trans_id o s k x = rw o (rw s (rw k (rw x refl)))

  pub recover-finishes :
      (num_entries trans_id : ℕ)
      → a.opened ≡ true
      → check_synced a.end_read log ≡ false
      → check_committed a.marker_read log ≡ some (num_entries, trans_id)
      → (execute_commit a log num_entries trans_id files).0 ≡ true
      → recover a (disk files log)
        ≡ reset_log a.truncation (disk (execute_commit a log num_entries trans_id files).1 log)
  unfolding recover
  recover-finishes num_entries trans_id o s k x = rw o (rw s (rw k (rw x refl)))

read_entry-unread : (log : LogFile) (i : ℕ) → read_entry false log i ≡ none
unfolding read_entry
read_entry-unread log i = refl

-- What the first loop reads is there when all can be read.
pub verify_loop-whole :
    (rounds : ℕ) (reads : ℕ → Bool) (log : LogFile) (trans_id i : ℕ)
    → verify_loop rounds reads log trans_id i ≡ true
    → verify_loop rounds (λ _. true) log trans_id i ≡ true
unfolding verify_loop
verify_loop-whole zero reads log trans_id i h = refl
verify_loop-whole (suc rounds) reads log trans_id i h =
    one_read (reads i) (λ x. verify_loop-whole rounds reads log trans_id (i + 1) x) h
  where
    unread :
        (if is_damaged (read_entry false log i) trans_id
            then false
            else verify_loop rounds reads log trans_id (i + 1))
          ≡ true
        → ⊥
    unread x = ground (arith, x, read_entry-unread log i)

    one_read :
        (b : Bool)
        → (verify_loop rounds reads log trans_id (i + 1) ≡ true
            → verify_loop rounds (λ _. true) log trans_id (i + 1) ≡ true)
        → (if is_damaged (read_entry b log i) trans_id
            then false
            else verify_loop rounds reads log trans_id (i + 1))
          ≡ true
        → (if is_damaged (read_entry true log i) trans_id
            then false
            else verify_loop rounds (λ _. true) log trans_id (i + 1))
          ≡ true
    one_read true rest x = ground (arith, x, rest)
    one_read false rest x = absurd (unread x)

-- The hypothesis that the undisturbed recovery succeeds says that the log is whole and its files
-- are there.
pub execute-whole :
    (log : LogFile) (num_entries trans_id : ℕ) (files : Files)
    → (execute_commit calm log num_entries trans_id files).0 ≡ true
    → (verify_loop num_entries (λ _. true) log trans_id 0 ≡ true)
      × (opens (entries_from num_entries log 0) files ≡ true)
unfolding execute_commit
execute-whole log num_entries trans_id files h =
    elim (Bool-cases (verify_loop num_entries (λ _. true) log trans_id 0)) [
      | inl v ↦
          let same =
            apply_loop-pass_loop num_entries (λ _. done) (λ _. true)
              (last_read calm log num_entries) log trans_id 0 false files (λ _. refl) v in
          (
            v,
            (pass_loop-finished num_entries (λ _. done) log 0 false files
                (ground (arith, v, h, ap (λ o. o.finished) same))).0,
          )
      | inr v ↦ ground (arith, v, h)
    ]

pub calm-whole :
    (log : LogFile) (num_entries trans_id : ℕ) (files : Files)
    → check_synced true log ≡ false
    → check_committed true log ≡ some (num_entries, trans_id)
    → (recover calm (disk files log)).0 ≡ true
    → (execute_commit calm log num_entries trans_id files).0 ≡ true
calm-whole log num_entries trans_id files s k h =
    elim (Bool-cases (execute_commit calm log num_entries trans_id files).0) [
      | inl x ↦ x
      | inr x ↦
          x ∙ sym (ap (λ r. r.0) (recover-fails calm files log num_entries trans_id refl s k x)) ∙ h
    ]
