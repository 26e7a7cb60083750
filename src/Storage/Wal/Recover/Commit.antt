-- ===== src/Storage/Wal/Recover/Commit.antt =====
-- From a transaction's log to its files: `addLogEntry`, `markLogCommitted` and `recover` together.
use stripe_sql.Prelude.{
  ℕ, suc, ◌+◌, ◌*◌, ◌^◌, ◌<◌, ◌≤◌, ◌≡◌, refl, sym, ap, ◌∙◌, subst, arith, some, Bool, true, false,
  List, [], ◌∷◌, length, ==_refl,
}
use stripe_sql.Storage.Wal.Entry.{WalEntry, wal_entry_disk_size}
use stripe_sql.Storage.Wal.Entry.RoundTrip.{IsEntry, parse-serialize}
use stripe_sql.Storage.Wal.Files.{Files}
use stripe_sql.Storage.Wal.Files.Replay.{redo}
use stripe_sql.Storage.Wal.Files.Present.{opens, IsRepeatable}
use stripe_sql.Storage.Wal.Files.Same.{AreSame, redo-same, opens-same, IsRepeatable-same}
use stripe_sql.Storage.Wal.Log.{
  LogFile, WalManager, empty_log, append, commit_marker, mark_log_committed, read_entry,
  check_synced, check_committed, wal_commit_disk_size, written,
}
use stripe_sql.Storage.Wal.Log.Marker.{check_committed-append, check_marker-commit_marker}
use stripe_sql.Storage.Wal.Log.Written.{Holds, Holds-ext, IsWritten, back, read_entry-Holds}
use stripe_sql.Storage.Wal.Recover.{verify_loop, recover}
use stripe_sql.Storage.Wal.Recover.Between.{entries_from, entries_from-some}
use stripe_sql.Storage.Wal.Recover.Finish.{calm, committed_entries, log_entries}
use stripe_sql.Storage.Wal.Recover.Whole.{recover-calm}

-- The entries that `buildEntry` makes for the transaction `trans_id`.
abbrev pub AreOf : ℕ → List WalEntry → Type 0
AreOf trans_id [] = Unit
AreOf trans_id (e ∷ es) = (IsEntry e × (e.trans_id ≡ trans_id)) × AreOf trans_id es

abbrev pub backs : List WalEntry → List WalEntry
backs [] = []
backs (e ∷ es) = back e ∷ backs es

backs-AreSame : (trans_id : ℕ) (es : List WalEntry) → AreOf trans_id es → AreSame (backs es) es
backs-AreSame trans_id [] v = v
backs-AreSame trans_id (e ∷ es) ((v, t), vs) =
    ((parse-serialize e v).1, backs-AreSame trans_id es vs)

verify_loop-some :
    (rounds : ℕ) (log : LogFile) (trans_id i : ℕ) (e : WalEntry)
    → read_entry true log i ≡ some e
    → e.trans_id ≡ trans_id
    → verify_loop rounds (λ _. true) log trans_id (i + 1) ≡ true
    → verify_loop (suc rounds) (λ _. true) log trans_id i ≡ true
unfolding verify_loop
verify_loop-some rounds log trans_id i e x t v = rw x (rw t (rw (==_refl trans_id) v))

-- The first loop accepts the entries that were written, and both loops read them.
loops-Holds :
    (log : LogFile) (trans_id : ℕ) (es : List WalEntry) (i : ℕ)
    → AreOf trans_id es
    → (i + length es) * wal_entry_disk_size ≤ log.size
    → Holds log.bytes i es
    → (verify_loop (length es) (λ _. true) log trans_id i ≡ true)
      × (entries_from (length es) log i ≡ backs es)
unfolding verify_loop entries_from
loops-Holds log trans_id [] i v s h = (refl, refl)
loops-Holds log trans_id (e ∷ es) i ((v, t), vs) s (here, there) =
    let read = read_entry-Holds log i e v (omega (arith, s)) here in
    let (verified, rest) = loops-Holds log trans_id es (i + 1) vs (omega (arith, s)) there in
    (
      verify_loop-some (length es) log trans_id i (back e) read
          ((parse-serialize e v).1.trans_id ∙ t) verified,
      entries_from-some (length es) log i (back e) read ∙ ap (λ ds. back e ∷ ds) rest,
    )

-- The log of a committed transaction.
abbrev pub committed_log : WalManager → LogFile → LogFile
committed_log m log = append log (commit_marker m.num_entries m.trans_id) wal_commit_disk_size

mark_log_committed-log :
    (room : ℕ) (last_sync : Bool) (m : WalManager) (log : LogFile)
    → m.log ≡ some log
    → wal_commit_disk_size ≤ room
    → (mark_log_committed true room last_sync m).1.log ≡ some (committed_log m log)
unfolding mark_log_committed
mark_log_committed-log room last_sync m log l r = rw l (rw all_of_it refl)
  where
    all_of_it : written room 16 ≡ 16
    all_of_it = ground (arith, r)

module _ (m : WalManager) (log : LogFile) (es : List WalEntry) (w : IsWritten m es log)
    (vs : AreOf m.trans_id es) (few : length es < 2 ^ 32) (tf : m.trans_id < 2 ^ 32) where
  marked_size : log.size ≡ m.num_entries * wal_entry_disk_size
  marked_size = omega (arith, w.size, w.counted)

  is_committed : check_committed true (committed_log m log) ≡ some (m.num_entries, m.trans_id)
  is_committed =
      check_committed-append log (commit_marker m.num_entries m.trans_id) m.num_entries marked_size
      ∙ check_marker-commit_marker m.num_entries m.trans_id (omega (arith, w.counted, few)) tf

  pub is_unsynced : check_synced true (committed_log m log) ≡ false
  unfolding check_synced
  is_unsynced = ground (arith, w.size)

  loops_whole :
      (verify_loop (length es) (λ _. true) (committed_log m log) m.trans_id 0 ≡ true)
      × (entries_from (length es) (committed_log m log) 0 ≡ backs es)
  loops_whole = loops-Holds (committed_log m log) m.trans_id es 0 vs (omega (arith, w.size)) (
      Holds-ext es log.bytes (committed_log m log).bytes 0 (λ j lt. ground (arith, lt, w.size))
        w.holds)

  log_entries-backs : log_entries (some (committed_log m log)) ≡ backs es
  log_entries-backs =
      ap (committed_entries (committed_log m log)) is_committed
      ∙ ap (λ n. entries_from n (committed_log m log) 0) w.counted
      ∙ loops_whole.1

  pub log_entries-IsRepeatable :
      IsRepeatable es → IsRepeatable (log_entries (some (committed_log m log)))
  log_entries-IsRepeatable r =
      subst IsRepeatable (sym log_entries-backs)
        (IsRepeatable-same (backs es) es (backs-AreSame m.trans_id es vs) r)

  pub recover-committed :
      (files : Files)
      → opens es files ≡ true
      → recover calm (record { files = files; log = some (committed_log m log) })
        ≡ (true, record { files = redo es files; log = some empty_log })
  recover-committed files o =
      recover-calm (committed_log m log) m.num_entries m.trans_id is_unsynced is_committed
        (ap (λ n. verify_loop n (λ _. true) (committed_log m log) m.trans_id 0) w.counted
          ∙ loops_whole.0)
        files
        (ap (λ ds. opens ds files) read_back
          ∙ opens-same (backs es) es files (backs-AreSame m.trans_id es vs)
          ∙ o)
      ∙ ap (λ f. (true, record { files = f; log = some empty_log }))
          (ap (λ ds. redo ds files) read_back
            ∙ redo-same (backs es) es files (backs-AreSame m.trans_id es vs))
    where
      read_back : entries_from m.num_entries (committed_log m log) 0 ≡ backs es
      read_back = ap (λ n. entries_from n (committed_log m log) 0) w.counted ∙ loops_whole.1

-- If the log holds the entries `es`, whole and of the manager's transaction, the first sync
-- succeeds, the whole marker gets into the log, and each write of the entries finds its file, then
-- a recovery during which no call fails succeeds, makes the changes of all the entries in their
-- order, and empties the log, whatever the second sync returned.
pub mark_log_committed-recovered :
    (room : ℕ) (last_sync : Bool) (m : WalManager) (log : LogFile) (es : List WalEntry)
    (files : Files)
    → IsWritten m es log
    → AreOf m.trans_id es
    → length es < 2 ^ 32
    → m.trans_id < 2 ^ 32
    → wal_commit_disk_size ≤ room
    → opens es files ≡ true
    → recover calm
        (record { files = files; log = (mark_log_committed true room last_sync m).1.log })
      ≡ (true, record { files = redo es files; log = some empty_log })
mark_log_committed-recovered room last_sync m log es files w vs few tf r o =
    ap (λ l. recover calm (record { files = files; log = l }))
      (mark_log_committed-log room last_sync m log w.open_log r)
    ∙ recover-committed m log es w vs few tf files o
