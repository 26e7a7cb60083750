-- ===== src/Tests/WalTests.antt =====
-- A transaction that creates a file, writes to it and removes another, through the log.
use stripe_sql.Prelude.{
  ℕ, ◌+◌, ◌≡◌, refl, ap, arith, Option, none, some, true, false, List, [], ◌∷◌, if◌then◌else◌, ◌==◌,
  inl, inr, Bool-cases,
}
use stripe_sql.Storage.Bytes.{Buffer}
use stripe_sql.Storage.Wal.Crc.{crc32c_compute}
use stripe_sql.Storage.Wal.Entry.{
  WalEntry, wal_magic, zeros, build_entry, serialize_entry, parse_entry, read_fields,
}
use stripe_sql.Storage.Wal.Entry.RoundTrip.{IsEntry, parse-serialize, SameEntry}
use stripe_sql.Storage.Wal.Files.{Files, done, failed, name_eq, entry_name, entry_change}
use stripe_sql.Storage.Wal.Files.Replay.{redo}
use stripe_sql.Storage.Wal.Files.Present.{opens, needs, removes, IsRepeatable}
use stripe_sql.Storage.Wal.Log.{
  LogFile, WalManager, empty_log, append, init_manager, add_log_entry, mark_log_committed,
  check_committed,
}
use stripe_sql.Storage.Wal.Log.Committed.{
  committed_in, add_log_entry-uncommitted, mark_log_committed-committed,
}
use stripe_sql.Storage.Wal.Log.Written.{IsWritten, appended, add_log_entry-IsWritten}
use stripe_sql.Storage.Wal.Recover.{Disk, Answers, reset_log, recover}
use stripe_sql.Storage.Wal.Recover.Finish.{calm, log_entries, ReadsLog, recover-discards}
use stripe_sql.Storage.Wal.Recover.Atomic.{recover-retry, recover-untouched}
use stripe_sql.Storage.Wal.Recover.Commit.{
  AreOf, is_unsynced, recover-committed, committed_log, log_entries-IsRepeatable,
  mark_log_committed-recovered,
}

abbrev digits : Buffer
digits = λ i. 49 + i

-- The check value of CRC-32C.
check_value : crc32c_compute 0 digits 9 ≡ 0xE3069283
unfolding crc32c_compute
check_value = refl

abbrev no_entry : WalEntry
no_entry = record {
  magic = 0;
  trans_id = 0;
  file_name = zeros;
  addr = 0;
  payload_len = 0;
  payload = zeros;
  checksum = 0;
}

-- The manager after `initManager`.
abbrev started : WalManager
started = record {
  entry = record no_entry { magic = wal_magic; trans_id = 0x09410293 };
  num_entries = 0;
  trans_id = 0x09410293;
  seeded = true;
  log = some empty_log;
}

starts :
    init_manager
      (record { entry = no_entry; num_entries = 0; trans_id = 0; seeded = false; log = none })
      empty_log
    ≡ (true, started)
unfolding init_manager
starts = refl

abbrev built : Option WalEntry → WalEntry
built none = no_entry
built (some e) = e

abbrev name_t : List ℕ
name_t = 116 ∷ []

abbrev name_u : List ℕ
name_u = 117 ∷ []

-- "wb" of the file t, two digits written to it at byte 3, and the removal of the file u.
abbrev create_t : WalEntry
create_t = built (build_entry started.entry name_t 6 0 zeros 0)

abbrev write_t : WalEntry
write_t = built (build_entry create_t name_t 1 3 digits 2)

abbrev remove_u : WalEntry
remove_u = built (build_entry write_t name_u 7 0 zeros 0)

builds :
    (build_entry started.entry name_t 6 0 zeros 0 ≡ some create_t)
    × (build_entry create_t name_t 1 3 digits 2 ≡ some write_t)
    × (build_entry write_t name_u 7 0 zeros 0 ≡ some remove_u)
unfolding build_entry
builds = (refl, refl, refl)

create_t-IsEntry : IsEntry create_t
unfolding build_entry
create_t-IsEntry = record {
  tagged = refl;
  first_type = omega arith;
  last_type = omega arith;
  trans_fits = omega arith;
  name_ends = refl;
  addr_fits = omega arith;
  payload_fits = omega arith;
}

write_t-IsEntry : IsEntry write_t
unfolding build_entry
write_t-IsEntry = record {
  tagged = refl;
  first_type = omega arith;
  last_type = omega arith;
  trans_fits = omega arith;
  name_ends = refl;
  addr_fits = omega arith;
  payload_fits = omega arith;
}

remove_u-IsEntry : IsEntry remove_u
unfolding build_entry
remove_u-IsEntry = record {
  tagged = refl;
  first_type = omega arith;
  last_type = omega arith;
  trans_fits = omega arith;
  name_ends = refl;
  addr_fits = omega arith;
  payload_fits = omega arith;
}

abbrev log_1 : LogFile
log_1 = append empty_log (serialize_entry create_t) 4378

abbrev log_2 : LogFile
log_2 = append log_1 (serialize_entry write_t) 4378

abbrev log_3 : LogFile
log_3 = append log_2 (serialize_entry remove_u) 4378

abbrev one : WalManager
one = appended started empty_log create_t

abbrev two : WalManager
two = appended one log_1 write_t

abbrev three : WalManager
three = appended two log_2 remove_u

abbrev entries : List WalEntry
entries = create_t ∷ write_t ∷ remove_u ∷ []

started-IsWritten : IsWritten started [] empty_log
started-IsWritten = record { open_log = refl; counted = refl; size = refl; holds = tt }

one-IsWritten : IsWritten one (create_t ∷ []) log_1
one-IsWritten =
    (add_log_entry-IsWritten 5000 started name_t 6 0 zeros 0 [] empty_log create_t started-IsWritten
      (omega arith) (omega arith) builds.0).1

two-IsWritten : IsWritten two (create_t ∷ write_t ∷ []) log_2
two-IsWritten =
    (add_log_entry-IsWritten 5000 one name_t 1 3 digits 2 (create_t ∷ []) log_1 write_t
      one-IsWritten (omega arith) (omega arith) builds.1).1

three-IsWritten : IsWritten three entries log_3
three-IsWritten =
    (add_log_entry-IsWritten 5000 two name_u 7 0 zeros 0 (create_t ∷ write_t ∷ []) log_2 remove_u
      two-IsWritten (omega arith) (omega arith) builds.2).1

add_log_entry-IsWritten_example :
    (add_log_entry 5000 two name_u 7 0 zeros 0 ≡ (true, three)) × IsWritten three entries log_3
add_log_entry-IsWritten_example =
    add_log_entry-IsWritten 5000 two name_u 7 0 zeros 0 (create_t ∷ write_t ∷ []) log_2 remove_u
      two-IsWritten (omega arith) (omega arith) builds.2

entries-AreOf : AreOf 0x09410293 entries
unfolding build_entry
entries-AreOf =
    ((create_t-IsEntry, refl), ((write_t-IsEntry, refl), ((remove_u-IsEntry, refl), tt)))

-- The file u is there before, with nothing in it.
abbrev before : Files
before = λ name. if name_eq name name_u then some (λ _. none) else none

finds_files : opens entries before ≡ true
unfolding opens build_entry entry_name entry_change name_eq
finds_files = refl

entries-IsRepeatable : IsRepeatable entries
unfolding needs removes build_entry entry_name entry_change
entries-IsRepeatable name n = elim (Bool-cases (name_eq name name_t)) [
  | inl x ↦ ground (arith, x, n)
  | inr x ↦ ground (arith, x, n)
]

mark_log_committed-recovered_example :
    recover calm (record { files = before; log = (mark_log_committed true 16 false three).1.log })
    ≡ (true, record { files = redo entries before; log = some empty_log })
mark_log_committed-recovered_example =
    mark_log_committed-recovered 16 false three log_3 entries before three-IsWritten entries-AreOf
      (omega arith) (omega arith) (omega arith) finds_files

-- The recovery that stops after one byte of the second entry's payload.
abbrev stopped : Answers
stopped = record calm { io = λ i. if i == 1 then failed 1 else done }

stopped-ReadsLog : ReadsLog stopped
stopped-ReadsLog = record { end_read = refl; marker_read = refl; rereads = λ i. refl }

abbrev disk : Disk
disk = record { files = before; log = some (committed_log three log_3) }

recover-retry_example : recover calm (recover stopped disk).1 ≡ (true, (recover calm disk).1)
recover-retry_example = recover-retry stopped disk stopped-ReadsLog repeatable succeeds
  where
    repeatable : IsRepeatable (log_entries disk.log)
    repeatable =
        log_entries-IsRepeatable three log_3 entries three-IsWritten entries-AreOf (omega arith)
          (omega arith) entries-IsRepeatable

    succeeds : (recover calm disk).0 ≡ true
    succeeds =
        ap (λ r. r.0)
          (recover-committed three log_3 entries three-IsWritten entries-AreOf (omega arith)
            (omega arith) before finds_files)

-- A recovery that cannot read the marker of the log empties the log of a committed transaction, and makes
-- none of its changes.
forgets :
    recover (record calm { marker_read = false }) disk
    ≡ (true, record { files = before; log = some empty_log })
unfolding check_committed reset_log
forgets =
    recover-discards (record calm { marker_read = false }) before (committed_log three log_3) refl
      (is_unsynced three log_3 entries three-IsWritten entries-AreOf (omega arith) (omega arith))
      refl

-- The log of the uncommitted transaction.
not_committed : check_committed true log_1 ≡ none
unfolding add_log_entry
not_committed =
    add_log_entry-uncommitted 5000 started name_t 6 0 zeros 0 0 empty_log refl refl (omega arith)

recover-untouched_example :
    (recover stopped (record { files = before; log = some log_1 })).1.files ≡ before
recover-untouched_example =
    recover-untouched stopped before log_1 (λ n t k. ground (arith, k, not_committed))

add_log_entry-uncommitted_example : committed_in (add_log_entry 16 one name_t 1 3 digits 2).1 ≡ none
add_log_entry-uncommitted_example =
    add_log_entry-uncommitted 16 one name_t 1 3 digits 2 1 log_1 refl refl (omega arith)

mark_log_committed-committed_example :
    committed_in (mark_log_committed true 16 true three).1 ≡ some (3, 0x09410293)
mark_log_committed-committed_example =
    mark_log_committed-committed true 16 true three log_3 refl refl (omega arith) (omega arith)

parse-serialize_example :
    (parse_entry (serialize_entry write_t) ≡ some (read_fields (serialize_entry write_t)))
    × SameEntry (read_fields (serialize_entry write_t)) write_t
parse-serialize_example = parse-serialize write_t write_t-IsEntry
