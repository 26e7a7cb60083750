-- ===== src/Storage/Wal/Recover/Atomic.antt =====
-- A recovery that is interrupted is finished by the next one, where the log could be read.
use stripe_sql.Prelude.{
  ℕ, Bool, ◌≡◌, refl, sym, ap, arith, ◌∙◌, subst, Option, none, some, true, false, inl, inr,
  Bool-cases, Option-cases,
}
use stripe_sql.Storage.Wal.Files.{Files}
use stripe_sql.Storage.Wal.Files.Present.{IsRepeatable}
use stripe_sql.Storage.Wal.Log.{LogFile, empty_log, check_synced, check_committed}
use stripe_sql.Storage.Wal.Recover.{
  Disk, Reset, verify_loop, execute_commit, reset, cannot_open, cannot_sync, reset_log, Answers,
  recover,
}
use stripe_sql.Storage.Wal.Recover.Between.{entries_from}
use stripe_sql.Storage.Wal.Recover.Whole.{recover-calm, recover-again}
use stripe_sql.Storage.Wal.Recover.Finish.{
  recover-fails, recover-unopened, ReadsLog, verify_loop-whole, calm, committed_entries,
  log_entries, disk, recover-synced, recover-discards, execute-whole, calm-whole,
}

recover-emptied :
    (truncation : Reset) (files : Files) (log : LogFile)
    → recover calm (disk files log) ≡ (true, disk files empty_log)
    → recover calm (reset_log truncation (disk files log)).1 ≡ (true, disk files empty_log)
unfolding reset_log recover
recover-emptied reset files log e = refl
recover-emptied cannot_open files log e = e
recover-emptied cannot_sync files log e = refl

-- From one recovery to the next, by what the log is.
retry-unchanged :
    (r : Bool × Disk) (d : Disk)
    → r ≡ (true, d)
    → (recover calm d).0 ≡ true
    → recover calm r.1 ≡ (true, (recover calm d).1)
retry-unchanged r d e h = ap (λ x. recover calm x.1) e ∙ ap (λ b. (b, (recover calm d).1)) h

module _ (a : Answers) (files : Files) (log : LogFile) (reads : ReadsLog a) where
  end_there : (b : Bool) → check_synced true log ≡ b → check_synced a.end_read log ≡ b
  end_there b s = ap (λ r. check_synced r log) reads.end_read ∙ s

  retry-discarded :
      a.opened ≡ true
      → check_synced true log ≡ false
      → check_committed true log ≡ none
      → recover calm (recover a (disk files log)).1 ≡ (true, (recover calm (disk files log)).1)
  unfolding reset_log
  retry-discarded o s k =
      let discarded = recover-discards calm files log refl s k in
      ap (λ r. recover calm r.1)
        (recover-discards a files log o (end_there false s)
          (ap (λ r. check_committed r log) reads.marker_read ∙ k))
      ∙ recover-emptied a.truncation files log discarded
      ∙ ap (λ r. (true, r.1)) (sym discarded)

  retry-committed :
      (num_entries trans_id : ℕ)
      → IsRepeatable (entries_from num_entries log 0)
      → check_synced true log ≡ false
      → check_committed true log ≡ some (num_entries, trans_id)
      → (recover calm (disk files log)).0 ≡ true
      → recover calm (recover a (disk files log)).1 ≡ (true, (recover calm (disk files log)).1)
  retry-committed num_entries trans_id r s k h =
      let whole =
        execute-whole log num_entries trans_id files
          (calm-whole log num_entries trans_id files s k h) in
      recover-again log num_entries trans_id s k whole.0 a files reads r whole.1
      ∙ ap (λ r. (true, r.1))
          (sym (recover-calm log num_entries trans_id s k whole.0 files whole.1))

retry :
    (a : Answers) (files : Files) (log : Option LogFile)
    → ReadsLog a
    → IsRepeatable (log_entries log)
    → (recover calm (record { files = files; log = log })).0 ≡ true
    → recover calm (recover a (record { files = files; log = log })).1
      ≡ (true, (recover calm (record { files = files; log = log })).1)
retry a files none reads r h = unfold recover in refl
retry a files (some log) reads r h = elim (Bool-cases (check_synced true log)) [
  | inl s ↦
      retry-unchanged (recover a (disk files log)) (disk files log)
        (recover-synced a files log (end_there a files log reads true s)) h
  | inr s ↦ elim (Bool-cases a.opened) [
    | inr u ↦
        retry-unchanged (recover a (disk files log)) (disk files log)
          (recover-unopened a files log u) h
    | inl u ↦ elim (Option-cases (check_committed true log)) [
      | inl k ↦ retry-discarded a files log reads u s k
      | inr ((num_entries, trans_id), k) ↦
          retry-committed a files log reads num_entries trans_id
            (subst (λ o. IsRepeatable (committed_entries log o)) k r) s k h
    ]
  ]
]

-- If a recovery during which no call fails would succeed, and no file that the log writes to before
-- creating it is removed by the log, then after a recovery in which any of the calls fail but those that
-- read the end of the log, its marker, and an entry again after all entries have been read, and which so
-- stops at any point, in the middle of an entry too, the recovery during which no call fails still
-- succeeds and leaves exactly the files and the empty log that it would have left at first.
pub recover-retry :
    (a : Answers) (d : Disk)
    → ReadsLog a
    → IsRepeatable (log_entries d.log)
    → (recover calm d).0 ≡ true
    → recover calm (recover a d).1 ≡ (true, (recover calm d).1)
recover-retry a d reads r h = retry a d.files d.log reads r h

execute-untouched :
    (a : Answers) (log : LogFile) (num_entries trans_id : ℕ) (files : Files)
    → verify_loop num_entries (λ _. true) log trans_id 0 ≡ false
    → execute_commit a log num_entries trans_id files ≡ (false, files)
unfolding execute_commit
execute-untouched a log num_entries trans_id files v =
    elim (Bool-cases (verify_loop num_entries a.reads log trans_id 0)) [
      | inl w ↦ ground (arith, v, verify_loop-whole num_entries a.reads log trans_id 0 w)
      | inr w ↦ rw w refl
    ]

reset_log-files : (truncation : Reset) (d : Disk) → (reset_log truncation d).1.files ≡ d.files
unfolding reset_log
reset_log-files reset d = refl
reset_log-files cannot_open d = refl
reset_log-files cannot_sync d = refl

check_committed-read :
    (readable : Bool) (log : LogFile) (num_entries trans_id : ℕ)
    → check_committed readable log ≡ some (num_entries, trans_id)
    → check_committed true log ≡ some (num_entries, trans_id)
check_committed-read true log num_entries trans_id k = k
check_committed-read false log num_entries trans_id k =
    absurd (unfold check_committed in ground (arith, k))

-- Unless the log is committed and each of its entries is whole and of the marker's transaction, a
-- recovery leaves the files as they are, whatever the calls return.
pub recover-untouched :
    (a : Answers) (files : Files) (log : LogFile)
    → ((num_entries trans_id : ℕ)
        → check_committed true log ≡ some (num_entries, trans_id)
        → verify_loop num_entries (λ _. true) log trans_id 0 ≡ false)
    → (recover a (disk files log)).1.files ≡ files
recover-untouched a files log damaged = elim (Bool-cases a.opened) [
  | inr u ↦ ap (λ r. r.1.files) (recover-unopened a files log u)
  | inl u ↦ elim (Bool-cases (check_synced a.end_read log)) [
    | inl s ↦ ap (λ r. r.1.files) (recover-synced a files log s)
    | inr s ↦ elim (Option-cases (check_committed a.marker_read log)) [
      | inl k ↦
          ap (λ r. r.1.files) (recover-discards a files log u s k)
          ∙ reset_log-files a.truncation (disk files log)
      | inr ((num_entries, trans_id), k) ↦
          let out = execute-untouched a log num_entries trans_id files (
            damaged num_entries trans_id
              (check_committed-read a.marker_read log num_entries trans_id k)) in
          ap (λ r. r.1.files)
            (recover-fails a files log num_entries trans_id u s k (ap (λ o. o.0) out))
          ∙ ap (λ o. o.1) out
    ]
  ]
]
