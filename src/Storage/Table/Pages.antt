-- ===== src/Storage/Table/Pages.antt =====
-- Pages in a table's file: `serializePage` and the decoding of `readPage`. The slots follow the
-- header, and the entries stand at the end of the page, the first entry last.
pub mod Slots
pub mod Entries
pub mod Front
pub mod Decoded
use stripe_sql.Prelude.{
  ℕ, zero, suc, ◌+◌, ◌-◌, ◌*◌, ◌/◌, Bool, true, false, not, ◌||◌, Option, none, some, List, [],
  Array, put, copy, slice, get_or, ltb, ◌==◌, if◌then◌else◌,
}
use stripe_sql.Prelude.Word.{sub32}
use stripe_sql.Storage.Bytes.{Buffer, write_uint_bytewise}
use stripe_sql.Storage.Ordering.{OrderingType, OrderingKey, ordering_key_disk_size}
use stripe_sql.Storage.Page.Data.{
  Datatype, Entry, SpSlot, SlottedPage, blank_entry, blank_slot, sp_slot_disk_size,
}
use stripe_sql.Storage.Table.{Table, key_disk_size, page_header_disk_size}
use stripe_sql.Storage.Table.Cells.{write_cells, read_cells}
use stripe_sql.Storage.Table.Keys.{write_ordering_key, read_ordering_key, read_uint}
use stripe_sql.Storage.Table.Nodes.{blank}

-- DATATYPE_CODES
unfoldable pub datatype_code : Datatype → ℕ
datatype_code Datatype.t_int = b'i'
datatype_code Datatype.t_string = b's'
datatype_code Datatype.t_date = b'd'
datatype_code Datatype.t_time = b't'

-- The loop over DATATYPE_CODES; a type that no code gives stays as calloc left it.
unfoldable pub datatype_of_code : ℕ → Datatype
datatype_of_code code =
    if code == b't'
    then Datatype.t_time
    else if code == b'd'
    then Datatype.t_date
    else if code == b's'
    then Datatype.t_string
    else Datatype.t_int

unfoldable pub put_slot : OrderingType → Buffer → ℕ → SpSlot → Buffer
put_slot type buf p s =
    let fields = p + ordering_key_disk_size type in
    let b1 = write_ordering_key buf p s.id type in
    let b2 = write_uint_bytewise b1 fields s.len in
    let b3 = write_uint_bytewise b2 (fields + 4) s.size in write_uint_bytewise b3 (fields + 8) s.ptr

unfoldable pub get_slot : OrderingType → Buffer → ℕ → SpSlot
get_slot type raw p =
    let fields = p + ordering_key_disk_size type in
    record {
      id = read_ordering_key raw p type;
      ptr = read_uint raw (fields + 8);
      len = read_uint raw fields;
      size = read_uint raw (fields + 4);
    }

unfoldable pub write_page_header : SlottedPage → OrderingType → Buffer
write_page_header p type =
    let key_size = ordering_key_disk_size type in
    let fields = 1 + 2 * key_size in
    let b1 = write_ordering_key blank 1 p.min_key type in
    let b2 = write_ordering_key b1 (1 + key_size) p.max_key type in
    let b3 = write_uint_bytewise b2 fields p.used_data in
    let b4 = write_uint_bytewise b3 (fields + 4) p.num_records in
    let b5 = write_uint_bytewise b4 (fields + 8) p.num_entries in
    let b6 = write_uint_bytewise b5 (fields + 12) p.arr_cap in
    let b7 = write_uint_bytewise b6 (fields + 16) p.max_entries in
    write_uint_bytewise b7 (fields + 20) p.max_slots

abbrev pub bytes_of : Option (List ℕ) → List ℕ
bytes_of none = []
bytes_of (some s) = s

-- One round of the loop over the entries.
unfoldable pub write_entry : Buffer → ℕ → ℕ → Entry → Buffer
write_entry buf page_size entry_offset e =
    let entry_start = page_size - entry_offset - 1 in
    let b1 = put buf entry_start (datatype_code e.type) in
    let b2 = put b1 (entry_start - 1) b'\\' in
    let b3 = write_uint_bytewise b2 (entry_start - 5) e.size in
    copy b3 (entry_start - 5 - e.size) (λ i. get_or (bytes_of e.bytes) i 0) 0 e.size

unfoldable pub write_entries : ℕ → Buffer → ℕ → ℕ → Array Entry → ℕ → Buffer
write_entries zero buf page_size entry_offset entries i = buf
write_entries (suc n) buf page_size entry_offset entries i =
    write_entries n (write_entry buf page_size entry_offset (entries i)) page_size
      (entry_offset + ((entries i).size + 6)) entries (i + 1)

unfoldable pub serialize_page : SlottedPage → Table → Buffer
serialize_page p t =
    let key_size = key_disk_size t in
    let b =
      write_cells (sp_slot_disk_size key_size) (put_slot t.key_type) p.num_records
        (write_page_header p t.key_type) (page_header_disk_size key_size) p.slots 0 in
    write_entries p.num_entries b t.page_size 0 p.entries 0

-- The header as it stands in the buffer, over `p`, whose arrays are released and made anew.
unfoldable pub read_page_header : Buffer → OrderingType → SlottedPage
read_page_header raw type =
    let key_size = ordering_key_disk_size type in
    let fields = 1 + 2 * key_size in
    record {
      min_key = read_ordering_key raw 1 type;
      max_key = read_ordering_key raw (1 + key_size) type;
      used_data = read_uint raw fields;
      num_records = read_uint raw (fields + 4);
      num_entries = read_uint raw (fields + 8);
      arr_cap = read_uint raw (fields + 12);
      max_entries = read_uint raw (fields + 16);
      max_slots = read_uint raw (fields + 20);
      key_size = key_size;
      entries = λ _. blank_entry;
      slots = λ _. blank_slot;
    }

unfoldable pub is_corrupted : SlottedPage → Table → Bool
is_corrupted h t =
    ltb h.max_slots h.num_records
    || ltb h.max_entries h.num_entries
    || ltb (1024 * 64) h.max_slots
    || ltb (1024 * 64) h.max_entries
    || ltb
        ((t.page_size - page_header_disk_size (key_disk_size t))
          / sp_slot_disk_size (key_disk_size t))
        h.num_records

-- The loop over the entries from `cursor` down, and whether it came to its end.
unfoldable pub read_entries : ℕ → Buffer → ℕ → ℕ → Array Entry → ℕ → Bool × Array Entry
read_entries zero raw slot_end cursor entries i = (true, entries)
read_entries (suc n) raw slot_end cursor entries i =
    let type = datatype_of_code (raw (cursor - 1)) in
    let size = read_uint raw (cursor - 6) in
    let bytes = slice raw (cursor - 6 - size) size in
    let e : Entry = record { bytes = some bytes; size = size; type = type } in
    let rest = read_entries n raw slot_end (cursor - 6 - size) (put entries i e) (i + 1) in
    if ltb (sub32 cursor 6) slot_end
    then (false, entries)
    else if ltb (sub32 (cursor - 6) slot_end) size
    then (false, put entries i (record e { bytes = none }))
    else rest

-- `readPage` from the bytes on disk on. What it returns, and the page as it is then.
unfoldable pub decode_page : Buffer → Table → SlottedPage → Bool × SlottedPage
decode_page raw t p =
    let h = read_page_header raw t.key_type in
    let key_size = key_disk_size t in
    let offset = page_header_disk_size key_size in
    let slots =
      read_cells (sp_slot_disk_size key_size) (get_slot t.key_type) h.num_records raw offset h.slots
        0 in
    let (read, entries) =
      read_entries h.num_entries raw (offset + sp_slot_disk_size key_size * h.num_records)
        t.page_size h.entries 0 in
    if not (raw 0 == 0)
    then (false, p)
    else if is_corrupted h t
    then (false, p)
    else (read, record h { slots = slots; entries = entries })
