-- ===== src/Storage/Wal/Recover/Whole.antt =====
-- How a recovery from a committed log that is whole ends, and one after it.
use stripe_sql.Prelude.{
  ℕ, ◌≡◌, refl, ap, ◌∙◌, arith, some, Bool, true, false, ◌||◌, not, List, inl, inr, Bool-cases,
}
use stripe_sql.Storage.Wal.Entry.{WalEntry}
use stripe_sql.Storage.Wal.Files.{Files, done}
use stripe_sql.Storage.Wal.Files.Replay.{redo}
use stripe_sql.Storage.Wal.Files.Present.{opens, IsRepeatable, opens-again, opens-HasNeeded}
use stripe_sql.Storage.Wal.Log.{LogFile, empty_log, check_synced, check_committed}
use stripe_sql.Storage.Wal.Recover.{
  Reset, verify_loop, apply_loop, execute_commit, reset, cannot_open, cannot_sync, reset_log,
  Answers, recover, last_read,
}
use stripe_sql.Storage.Wal.Recover.Between.{
  entries_from, IsBetween, pass_loop, apply_loop-pass_loop, pass_loop-IsBetween,
}
use stripe_sql.Storage.Wal.Recover.Passes.{pass_loop-finished, pass_loop-finishes}
use stripe_sql.Storage.Wal.Recover.Finish.{
  calm, disk, ReadsLog, recover-unopened, recover-fails, recover-finishes,
}

or-true : (b : Bool) → (b || true) ≡ true
or-true true = refl
or-true false = refl

-- A committed log that is whole.
module _ (log : LogFile) (num_entries trans_id : ℕ) (unsynced : check_synced true log ≡ false)
    (committed : check_committed true log ≡ some (num_entries, trans_id))
    (verified : verify_loop num_entries (λ _. true) log trans_id 0 ≡ true) where
  abbrev es : List WalEntry
  es = entries_from num_entries log 0

  execute-calm :
      (files : Files)
      → opens es files ≡ true
      → execute_commit calm log num_entries trans_id files ≡ (true, redo es files)
  unfolding execute_commit
  execute-calm files o =
      let fin = pass_loop-finishes num_entries log trans_id 0 false files verified o in
      let (opened, redone) = pass_loop-finished num_entries (λ _. done) log 0 false files fin in
      let same =
        apply_loop-pass_loop num_entries (λ _. done) (λ _. true) (last_read calm log num_entries)
          log trans_id 0 false files (λ _. refl) verified in
      rw (verified, same)
        (rw fin (
          rw (or-true (not (pass_loop num_entries (λ _. done) log 0 false files).changed))
            (ap (λ f. (true, f)) redone)))

  pub recover-calm :
      (files : Files)
      → opens es files ≡ true
      → recover calm (disk files log) ≡ (true, disk (redo es files) empty_log)
  unfolding recover
  recover-calm files o = rw unsynced (rw committed (rw (execute-calm files o) refl))

  module _ (a : Answers) (files : Files) (reads : ReadsLog a) where
    same_pass :
        apply_loop num_entries a.io a.rereads (last_read a log num_entries) log 0 false files
        ≡ pass_loop num_entries a.io log 0 false files
    same_pass =
        apply_loop-pass_loop num_entries a.io a.rereads (last_read a log num_entries) log trans_id 0
          false files reads.rereads verified

    execute-true :
        (execute_commit a log num_entries trans_id files).0 ≡ true
        → (execute_commit a log num_entries trans_id files).1 ≡ redo es files
    unfolding execute_commit
    execute-true h = elim (Bool-cases (verify_loop num_entries a.reads log trans_id 0)) [
      | inl w ↦
          rw (w, same_pass)
            (pass_loop-finished num_entries a.io log 0 false files
              (ground (arith, w, h, ap (λ o. o.finished) same_pass))).1
      | inr w ↦ ground (arith, w, h)
    ]

    execute-IsBetween :
        IsRepeatable es
        → opens es files ≡ true
        → IsBetween es files (execute_commit a log num_entries trans_id files).1
    unfolding execute_commit
    execute-IsBetween r o = elim (Bool-cases (verify_loop num_entries a.reads log trans_id 0)) [
      | inl w ↦
          rw (w, same_pass)
            (pass_loop-IsBetween num_entries a.io log 0 false es files files r (λ e m. m)
              (refl, opens-HasNeeded es files o))
      | inr w ↦ rw w (refl, opens-HasNeeded es files o)
    ]

  -- Where the log is still there, the second recovery redoes it.
  recover-between :
      (files now : Files)
      → opens es files ≡ true
      → IsBetween es files now
      → recover calm (disk now log) ≡ (true, disk (redo es files) empty_log)
  recover-between files now o (same, needed) =
      recover-calm now (opens-again es files now o needed) ∙ ap (λ f. (true, disk f empty_log)) same

  recover-reset :
      (truncation : Reset) (files now : Files)
      → opens es files ≡ true
      → IsBetween es files now
      → now ≡ redo es files
      → recover calm (reset_log truncation (disk now log)).1
        ≡ (true, disk (redo es files) empty_log)
  unfolding reset_log recover
  recover-reset reset files now o b e = ap (λ f. (true, disk f empty_log)) e
  recover-reset cannot_open files now o b e = recover-between files now o b
  recover-reset cannot_sync files now o b e = ap (λ f. (true, disk f empty_log)) e

  module _ (a : Answers) (files : Files) (reads : ReadsLog a) where
    abbrev out : Bool × Files
    out = execute_commit a log num_entries trans_id files

    unsynced_there : check_synced a.end_read log ≡ false
    unsynced_there = ap (λ b. check_synced b log) reads.end_read ∙ unsynced

    committed_there : check_committed a.marker_read log ≡ some (num_entries, trans_id)
    committed_there = ap (λ b. check_committed b log) reads.marker_read ∙ committed

    -- What the first recovery leaves, and how the second one ends.
    pub recover-again :
        IsRepeatable es
        → opens es files ≡ true
        → recover calm (recover a (disk files log)).1 ≡ (true, disk (redo es files) empty_log)
    recover-again r o = elim (Bool-cases a.opened) [
      | inr u ↦ ap (λ r. recover calm r.1) (recover-unopened a files log u) ∙ recover-calm files o
      | inl u ↦ elim (Bool-cases out.0) [
        | inl x ↦
            ap (λ r. recover calm r.1)
              (recover-finishes a files log num_entries trans_id u unsynced_there committed_there x)
            ∙ recover-reset a.truncation files out.1 o (execute-IsBetween a files reads r o)
                (execute-true a files reads x)
        | inr x ↦
            ap (λ r. recover calm r.1)
              (recover-fails a files log num_entries trans_id u unsynced_there committed_there x)
            ∙ recover-between files out.1 o (execute-IsBetween a files reads r o)
      ]
    ]
