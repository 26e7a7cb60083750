-- ===== src/Storage/Wal/Log.antt =====
-- The log file and the manager that writes it: `initManager`, `addLogEntry`, `markLogCommitted`,
-- `readEntry`, `checkSynced` and `checkCommitted`.
pub mod Marker
pub mod Committed
pub mod Written
use stripe_sql.Prelude.{
  ℕ, zero, suc, ◌+◌, ◌-◌, ◌*◌, ◌/◌, ◌%◌, ◌^◌, Option, none, some, Bool, true, false, ◌||◌, ◌&&◌,
  not, List, Array, copy, ltb, leb, ◌==◌, if◌then◌else◌,
}
use stripe_sql.Prelude.Word.{u32}
use stripe_sql.Storage.Bytes.{Buffer, write_uint_bytewise, read_uint_bytewise}
use stripe_sql.Storage.Wal.Crc.{crc32c_compute}
use stripe_sql.Storage.Wal.Entry.{
  WalEntry, wal_magic, wal_entry_disk_size, zeros, build_entry, serialize_entry, parse_entry,
}

abbrev pub wal_commit_tag : ℕ
wal_commit_tag = 0x434f4d54

abbrev pub wal_commit_disk_size : ℕ
wal_commit_disk_size = 16

abbrev trans_id_seed : ℕ
trans_id_seed = 0x09410293

-- What a stream has in the log file: `size` bytes.
pub record LogFile : Type 0 where
  pub bytes : Buffer
  pub size : ℕ

abbrev pub empty_log : LogFile
empty_log = record { bytes = zeros; size = 0 }

-- `wal_manager`. `log` is the stream, and `none` is the null pointer.
pub record WalManager : Type 0 where
  pub entry : WalEntry
  pub num_entries : ℕ
  pub trans_id : ℕ
  pub seeded : Bool
  pub log : Option LogFile

get_trans_id : ℕ → ℕ
get_trans_id xn = (xn * 1007683 + 54321) % 0x7fffffff

-- `initManager` once the log is open: it must be empty.
unfoldable pub init_manager : WalManager → LogFile → Bool × WalManager
unfolding get_trans_id
init_manager m log =
    let next = if m.seeded then get_trans_id m.trans_id else trans_id_seed in
    if log.size == 0
    then (
      true,
      record {
        entry = record m.entry { magic = wal_magic; trans_id = next; payload_len = 0 };
        num_entries = 0;
        trans_id = next;
        seeded = true;
        log = some log;
      },
    )
    else (false, record m { log = some log })

-- fwrite(buf, 1, n, log), which puts `written` of the bytes into the file.
abbrev pub append : LogFile → Buffer → ℕ → LogFile
append log buf written = record {
  bytes = copy log.bytes log.size buf 0 written;
  size = log.size + written;
}

-- The bytes that an `fwrite` of `n` bytes writes where it can write at most `room`.
abbrev pub written : ℕ → ℕ → ℕ
written room n = if ltb room n then room else n

append_entry : ℕ → WalManager → LogFile → Option WalEntry → Bool × WalManager
append_entry room m log none = (false, m)
append_entry room m log (some e) =
    let put = written room wal_entry_disk_size in
    let m' = record m { entry = e; log = some (append log (serialize_entry e) put) } in
    if put == wal_entry_disk_size
    then (true, record m' { num_entries = u32 (m.num_entries + 1) })
    else (false, m')

-- `room` is how much the stream can still take.
unfoldable pub add_log_entry : ℕ → WalManager → List ℕ → ℕ → ℕ → Buffer → ℕ → Bool × WalManager
unfolding append_entry build_entry
add_log_entry room m file_name type addr bytes len = elim m.log [
  | none ↦ (false, m)
  | some log ↦ append_entry room m log (build_entry m.entry file_name type addr bytes len)
]

-- The sixteen bytes of a commit marker.
unfoldable pub commit_marker : ℕ → ℕ → Buffer
commit_marker num_entries trans_id =
    let b0 = write_uint_bytewise zeros 0 wal_commit_tag in
    let b1 = write_uint_bytewise b0 4 num_entries in
    let b2 = write_uint_bytewise b1 8 trans_id in write_uint_bytewise b2 12 (crc32c_compute 0 b2 12)

-- `first_sync` and `last_sync` are what the two calls of `syncFile` return.
unfoldable pub mark_log_committed : Bool → ℕ → Bool → WalManager → Bool × WalManager
unfolding commit_marker
mark_log_committed first_sync room last_sync m = elim m.log [
  | none ↦ (false, m)
  | some log ↦
      let put = written room wal_commit_disk_size in
      let m' = record m { log = some (append log (commit_marker m.num_entries m.trans_id) put) } in
      if first_sync
      then (if put == wal_commit_disk_size then (last_sync, m') else (false, m'))
      else (false, m)
]

-- The buffer that a read at `offset` fills.
abbrev pub at_offset : Buffer → ℕ → Buffer
at_offset bytes offset k = bytes (offset + k)

-- `readable` is whether the calls that position the stream and read from it succeed.
unfoldable pub read_entry : Bool → LogFile → ℕ → Option WalEntry
unfolding parse_entry
read_entry readable log index =
    let offset = index * wal_entry_disk_size in
    if readable && leb (offset + wal_entry_disk_size) log.size
    then parse_entry (at_offset log.bytes offset)
    else none

unfoldable pub check_synced : Bool → LogFile → Bool
check_synced readable log = readable && log.size == 0

-- What `checkCommitted` tests of the last sixteen bytes behind `entries` entries.
unfoldable pub check_marker : Buffer → ℕ → Option (ℕ × ℕ)
check_marker marker entries =
    let count = read_uint_bytewise marker 4 in
    if not (read_uint_bytewise marker 0 == wal_commit_tag)
    then none
    else if not (read_uint_bytewise marker 12 == crc32c_compute 0 marker 12)
    then none
    else if not (count == u32 entries)
    then none
    else some (count, read_uint_bytewise marker 8)

-- `some` has the number of entries and the transaction's identifier.
unfoldable pub check_committed : Bool → LogFile → Option (ℕ × ℕ)
unfolding check_marker
check_committed readable log =
    let size = log.size in
    if not readable
    then none
    else if ltb size wal_commit_disk_size
    then none
    else if not ((size - wal_commit_disk_size) % wal_entry_disk_size == 0)
    then none
    else check_marker (at_offset log.bytes (size - wal_commit_disk_size))
        ((size - wal_commit_disk_size) / wal_entry_disk_size)
