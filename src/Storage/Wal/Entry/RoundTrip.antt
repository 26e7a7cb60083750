-- ===== src/Storage/Wal/Entry/RoundTrip.antt =====
-- A serialized entry is parsed back.
use stripe_sql.Prelude.{ℕ, ◌+◌, ◌^◌, ◌<◌, ◌≤◌, ◌≡◌, sym, ◌∙◌, arith, some, true, inl}
use stripe_sql.Storage.Bytes.{
  Buffer, write_ulong_bytewise, write_uint_bytewise, write_ushort_bytewise, read_ulong_bytewise,
  read_uint_bytewise, read_ushort_bytewise,
}
use stripe_sql.Storage.Bytes.RoundTrip.{
  read_ulong-write_ulong, read_uint-write_uint, read_ushort-write_ushort, write_uint-frame,
}
use stripe_sql.Storage.Wal.Crc.{crc32c_compute, crc32c_compute-ext, crc32c_compute-lt}
use stripe_sql.Storage.Wal.Entry.{
  WalEntry, wal_magic, page_size, wal_file_name_len, entry_checksum_offset, zeros, object_type,
  masked, serialize_fields, serialize_entry, read_fields, is_well_formed, parse_entry,
}

-- An entry as `buildEntry` and `initEntry` fill it.
pub record IsEntry (e : WalEntry) : Type 0 where
  pub tagged : masked e.magic ≡ wal_magic
  pub first_type : 1 ≤ object_type e.magic
  pub last_type : object_type e.magic ≤ 7
  pub trans_fits : e.trans_id < 2 ^ 32
  pub name_ends : e.file_name 259 ≡ 0
  pub addr_fits : e.addr < 2 ^ 64
  pub payload_fits : e.payload_len ≤ page_size

-- Two entries that a log does not tell apart: the payload counts up to its length.
pub record SameEntry (a b : WalEntry) : Type 0 where
  pub magic : a.magic ≡ b.magic
  pub trans_id : a.trans_id ≡ b.trans_id
  pub file_name : (k : ℕ) → k < wal_file_name_len → a.file_name k ≡ b.file_name k
  pub addr : a.addr ≡ b.addr
  pub payload_len : a.payload_len ≡ b.payload_len
  pub payload : (k : ℕ) → k < b.payload_len → a.payload k ≡ b.payload k

module _ (e : WalEntry) (v : IsEntry e) where
  abbrev buf : Buffer
  buf = serialize_entry e

  -- At a given place the writes behind and before it compute away.
  magic_back : read_uint_bytewise buf 0 ≡ e.magic
  unfolding serialize_entry read_uint_bytewise write_uint_bytewise write_ulong_bytewise
      write_ushort_bytewise
  magic_back = read_uint-write_uint zeros 0 e.magic (omega (arith, v.tagged, v.last_type))

  trans_id_back : read_uint_bytewise buf 4 ≡ e.trans_id
  unfolding serialize_entry read_uint_bytewise write_uint_bytewise write_ulong_bytewise
      write_ushort_bytewise
  trans_id_back = read_uint-write_uint zeros 4 e.trans_id v.trans_fits

  addr_back : read_ulong_bytewise buf 268 ≡ e.addr
  unfolding serialize_entry read_ulong_bytewise write_uint_bytewise write_ulong_bytewise
      write_ushort_bytewise
  addr_back = read_ulong-write_ulong zeros 268 e.addr v.addr_fits

  payload_len_back : read_ushort_bytewise buf 276 ≡ e.payload_len
  unfolding serialize_entry read_ushort_bytewise write_uint_bytewise write_ulong_bytewise
      write_ushort_bytewise
  payload_len_back =
      read_ushort-write_ushort zeros 276 e.payload_len (omega (arith, v.payload_fits))

  file_name_back : (k : ℕ) → k < 260 → buf (8 + k) ≡ e.file_name (0 + k)
  unfolding serialize_entry write_uint_bytewise write_ulong_bytewise write_ushort_bytewise
  file_name_back k h = ground (arith, h)

  payload_back : (k : ℕ) → k < e.payload_len → buf (278 + k) ≡ e.payload (0 + k)
  unfolding serialize_entry write_uint_bytewise write_ulong_bytewise write_ushort_bytewise
  payload_back k h = ground (arith, h, v.payload_fits)

  checksum_back : read_uint_bytewise buf 4374 ≡ crc32c_compute 0 (serialize_fields e) 4374
  unfolding serialize_entry
  checksum_back =
      read_uint-write_uint (serialize_fields e) 4374 (crc32c_compute 0 (serialize_fields e) 4374)
        (crc32c_compute-lt 0 (serialize_fields e) 4374)

  -- The checksum covers what was there before it was written.
  checksum_same : crc32c_compute 0 buf 4374 ≡ crc32c_compute 0 (serialize_fields e) 4374
  unfolding serialize_entry
  checksum_same =
      crc32c_compute-ext 0 buf (serialize_fields e) 4374
        (λ k h. write_uint-frame (serialize_fields e) 4374 _ k (inl h))

  fields_back : SameEntry (read_fields buf) e
  unfolding read_fields
  fields_back = record {
    magic = magic_back;
    trans_id = trans_id_back;
    file_name = λ k h. ground (arith, h, file_name_back k h);
    addr = addr_back;
    payload_len = payload_len_back;
    payload = λ k h. ground (arith, h, v.payload_fits, payload_back k h);
  }

  well_formed_back : is_well_formed (read_fields buf) ≡ true
  unfolding is_well_formed
  well_formed_back = ground (
    arith,
    v.tagged,
    v.first_type,
    v.last_type,
    v.name_ends,
    v.payload_fits,
    fields_back.magic,
    fields_back.payload_len,
    fields_back.file_name 259,
  )

  checksum_matches :
      (read_fields buf).checksum ≡ crc32c_compute 0 (serialize_entry e) entry_checksum_offset
  unfolding read_fields
  checksum_matches = checksum_back ∙ sym checksum_same

  -- What `parseEntry` reads from a serialized entry is that entry, and it accepts it.
  pub parse-serialize :
      (parse_entry (serialize_entry e) ≡ some (read_fields (serialize_entry e)))
      × SameEntry (read_fields (serialize_entry e)) e
  unfolding parse_entry
  parse-serialize = (rw well_formed_back (ground (arith, checksum_matches)), fields_back)
