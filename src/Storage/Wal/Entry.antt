-- ===== src/Storage/Wal/Entry.antt =====
-- Log entries, and their form on disk (wal.h, `buildEntry`, `serializeEntry` and `parseEntry`).
pub mod RoundTrip
use Prim.Native.Nat.{bit_or}
use stripe_sql.Prelude.{
  ℕ, zero, suc, ◌+◌, ◌-◌, ◌*◌, ◌/◌, ◌%◌, Option, none, some, Bool, true, false, ◌||◌, not, List, [],
  ◌∷◌, length, get_or, Array, copy, ltb, leb, ◌==◌, if◌then◌else◌,
}
use stripe_sql.Storage.Bytes.{
  Buffer, write_ulong_bytewise, write_uint_bytewise, write_ushort_bytewise, read_ulong_bytewise,
  read_uint_bytewise, read_ushort_bytewise,
}
use stripe_sql.Storage.Wal.Crc.{crc32c_compute}

abbrev pub page_size : ℕ
page_size = 4096

abbrev pub wal_magic : ℕ
wal_magic = 0x10549800

abbrev pub wal_file_name_len : ℕ
wal_file_name_len = 260

abbrev pub wal_entry_disk_size : ℕ
wal_entry_disk_size = 4 + 4 + wal_file_name_len + 8 + 2 + page_size + 4

abbrev pub entry_checksum_offset : ℕ
entry_checksum_offset = wal_entry_disk_size - 4

-- The values of `wal_object_type`.
abbrev pub wal_page : ℕ
wal_page = 1

abbrev pub wal_file_create : ℕ
wal_file_create = 6

abbrev pub wal_file_remove : ℕ
wal_file_remove = 7

pub record WalEntry : Type 0 where
  pub magic : ℕ
  pub trans_id : ℕ
  pub file_name : Buffer
  pub addr : ℕ
  pub payload_len : ℕ
  pub payload : Buffer
  pub checksum : ℕ

abbrev pub zeros : Buffer
zeros _ = 0

-- magic & ~WAL_MAGIC_MASK
abbrev pub object_type : ℕ → ℕ
object_type magic = magic % 256

-- magic & WAL_MAGIC_MASK
abbrev pub masked : ℕ → ℕ
masked magic = magic / 256 * 256

-- `strlen(fileName)` is the length of the list. `none` leaves the entry alone and returns false.
unfoldable pub build_entry : WalEntry → List ℕ → ℕ → ℕ → Buffer → ℕ → Option WalEntry
build_entry entry file_name type addr bytes len =
    if ltb page_size len || leb wal_file_name_len (length file_name)
    then none
    else some (record entry {
      magic = bit_or wal_magic type;
      file_name = λ i. get_or file_name i 0;
      addr = addr;
      payload_len = len;
      payload = copy entry.payload 0 bytes 0 len;
    })

-- The bytes before the checksum.
unfoldable pub serialize_fields : WalEntry → Buffer
serialize_fields e =
    let b0 = write_uint_bytewise zeros 0 e.magic in
    let b1 = write_uint_bytewise b0 4 e.trans_id in
    let b2 = copy b1 8 e.file_name 0 wal_file_name_len in
    let b3 = write_ulong_bytewise b2 268 e.addr in
    let b4 = write_ushort_bytewise b3 276 e.payload_len in copy b4 278 e.payload 0 e.payload_len

unfoldable pub serialize_entry : WalEntry → Buffer
unfolding serialize_fields
serialize_entry e =
    let buf = serialize_fields e in
    write_uint_bytewise buf entry_checksum_offset (crc32c_compute 0 buf entry_checksum_offset)

-- The fields as they stand in the buffer.
unfoldable pub read_fields : Buffer → WalEntry
read_fields buf = record {
  magic = read_uint_bytewise buf 0;
  trans_id = read_uint_bytewise buf 4;
  file_name = copy zeros 0 buf 8 wal_file_name_len;
  addr = read_ulong_bytewise buf 268;
  payload_len = read_ushort_bytewise buf 276;
  payload = copy zeros 0 buf 278 page_size;
  checksum = read_uint_bytewise buf entry_checksum_offset;
}

unfoldable pub is_well_formed : WalEntry → Bool
is_well_formed e =
    let type = object_type e.magic in
    if not (masked e.magic == wal_magic) || ltb type wal_page || ltb wal_file_remove type
    then false
    else if ltb page_size e.payload_len || not (e.file_name (wal_file_name_len - 1) == 0)
    then false
    else true

-- `none` is a damaged entry.
unfoldable pub parse_entry : Buffer → Option WalEntry
unfolding read_fields is_well_formed
parse_entry buf =
    let e = read_fields buf in
    if is_well_formed e
    then (if e.checksum == crc32c_compute 0 buf entry_checksum_offset then some e else none)
    else none
