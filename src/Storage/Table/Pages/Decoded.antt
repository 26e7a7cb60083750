-- ===== src/Storage/Table/Pages/Decoded.antt =====
-- `readPage` decodes what `serializePage` wrote.
use stripe_sql.Prelude.{
  ℕ, ◌+◌, ◌*◌, ◌<◌, ◌≤◌, ◌≡◌, inl, refl, ap, ◌∙◌, subst, arith, true, false, Array,
}
use stripe_sql.Storage.Bytes.{Buffer}
use stripe_sql.Storage.Ordering.{OrderingType, ordering_key_disk_size}
use stripe_sql.Storage.Page.Data.{Entry, SlottedPage, blank_entry, blank_slot, sp_slot_disk_size}
use stripe_sql.Storage.Table.{Table, key_disk_size, page_header_disk_size}
use stripe_sql.Storage.Table.Header.{HasHeader, key_size_cases}
use stripe_sql.Storage.Table.Cells.{
  Keeps, Keeps-trans, write_cells, read_cells, write_cells-Keeps, read_cells-write_cells,
}
use stripe_sql.Storage.Table.Keys.Back.{stored}
use stripe_sql.Storage.Table.Pages.{
  put_slot, get_slot, write_page_header, write_entries, serialize_page, read_page_header,
  is_corrupted, read_entries, decode_page,
}
use stripe_sql.Storage.Table.Pages.Slots.{SlotFits, stored_slot, slot-IsCodec}
use stripe_sql.Storage.Table.Pages.Entries.{
  IsHeld, entries_size, write_entries-frame, read_entries-write_entries, fill, fill-at,
}
use stripe_sql.Storage.Table.Pages.Front.{
  HeaderFits, stored_header, page_tag, read_page_header-back,
}

-- A page that a page on disk can hold: the counts within the arrays, and the slots and entries in the room there is.
pub record FitsPage (t : Table) (p : SlottedPage) : Type 0 where
  pub header : HeaderFits t.key_type p
  pub slots_fit : p.num_records ≤ p.max_slots
  pub entries_fit : p.num_entries ≤ p.max_entries
  pub slot_limit : p.max_slots ≤ 1024 * 64
  pub entry_limit : p.max_entries ≤ 1024 * 64
  pub slots : (k : ℕ) → k < p.num_records → SlotFits t.key_type (p.slots k)
  pub entries : (k : ℕ) → k < p.num_entries → IsHeld (p.entries k)
  pub room :
      page_header_disk_size (ordering_key_disk_size t.key_type)
        + p.num_records * sp_slot_disk_size (ordering_key_disk_size t.key_type)
        + entries_size p.num_entries p.entries 0
      ≤ t.page_size

-- The page `b` is what a reader makes of `a`: the keys as keys of the type, the entries as they are.
pub record PageReadsAs (type : OrderingType) (a b : SlottedPage) : Type 0 where
  pub min_key : b.min_key ≡ stored type a.min_key
  pub max_key : b.max_key ≡ stored type a.max_key
  pub used_data : b.used_data ≡ a.used_data
  pub num_records : b.num_records ≡ a.num_records
  pub num_entries : b.num_entries ≡ a.num_entries
  pub arr_cap : b.arr_cap ≡ a.arr_cap
  pub max_entries : b.max_entries ≡ a.max_entries
  pub max_slots : b.max_slots ≡ a.max_slots
  pub key_size : b.key_size ≡ ordering_key_disk_size type
  pub slots : (k : ℕ) → k < a.num_records → b.slots k ≡ stored_slot type (a.slots k)
  pub entries : (k : ℕ) → k < a.num_entries → b.entries k ≡ a.entries k

module _ (p : SlottedPage) (t : Table) (v : FitsPage t p) (h : HasHeader t) where
  abbrev width : ℕ
  width = sp_slot_disk_size (ordering_key_disk_size t.key_type)

  abbrev start : ℕ
  start = page_header_disk_size (ordering_key_disk_size t.key_type)

  abbrev with_slots : Buffer
  with_slots =
      write_cells width (put_slot t.key_type) p.num_records (write_page_header p t.key_type) start
        p.slots 0

  abbrev raw : Buffer
  raw = write_entries p.num_entries with_slots t.page_size 0 p.entries 0

  held : (k : ℕ) → k < p.num_entries → IsHeld (p.entries (0 + k))
  held k l = subst (λ i. IsHeld (p.entries i)) (omega arith) (v.entries k l)

  Keeps-slots : Keeps (start + p.num_records * width) with_slots raw
  Keeps-slots j l =
      write_entries-frame t.page_size p.num_entries with_slots 0 p.entries 0 held
        (omega (arith, v.room)) j (inl (omega (arith, l, v.room)))

  Keeps-front : Keeps start (write_page_header p t.key_type) raw
  Keeps-front =
      Keeps-trans start (start + p.num_records * width) (write_page_header p t.key_type) with_slots
        raw (omega arith)
        (write_cells-Keeps width (put_slot t.key_type) (get_slot t.key_type) (SlotFits t.key_type)
          (stored_slot t.key_type) (slot-IsCodec t.key_type) p.num_records
          (write_page_header p t.key_type) start p.slots 0)
        Keeps-slots

  header_back : read_page_header raw t.key_type ≡ stored_header t.key_type p
  unfolding write_page_header
  header_back = read_page_header-back t.key_type p v.header raw Keeps-front

  tag_back : raw 0 ≡ 0
  unfolding write_page_header
  tag_back = page_tag t.key_type p v.header raw Keeps-front

  entries_back :
      (m : Array Entry)
      → read_entries p.num_entries raw (start + width * p.num_records) t.page_size m 0
        ≡ (true, fill p.num_entries p.entries m 0)
  entries_back m =
      ap (λ c. read_entries p.num_entries raw (start + width * p.num_records) c m 0) (omega arith)
      ∙ read_entries-write_entries t.page_size p.num_entries with_slots
          (start + width * p.num_records) 0 p.entries m 0 held
          (ground (arith, v.room, key_size_cases t.key_type)) (omega (arith, h.page_limit))

  sound : is_corrupted (stored_header t.key_type p) t ≡ false
  unfolding is_corrupted key_disk_size
  sound = ground (
    arith,
    v.slots_fit,
    v.entries_fit,
    v.slot_limit,
    v.entry_limit,
    v.room,
    key_size_cases t.key_type,
  )

  abbrev result : SlottedPage
  result = record (stored_header t.key_type p) {
    slots = read_cells width (get_slot t.key_type) p.num_records raw start (λ _. blank_slot) 0;
    entries = fill p.num_entries p.entries (λ _. blank_entry) 0;
  }

  decode_page-result : (m : SlottedPage) → decode_page (serialize_page p t) t m ≡ (true, result)
  unfolding decode_page serialize_page key_disk_size
  decode_page-result m = rw (header_back, tag_back, sound, entries_back (λ _. blank_entry)) refl

  slots_back : (k : ℕ) → k < p.num_records → result.slots k ≡ stored_slot t.key_type (p.slots k)
  slots_back k l =
      read_cells-write_cells width (put_slot t.key_type) (get_slot t.key_type) (SlotFits t.key_type)
        (stored_slot t.key_type) (slot-IsCodec t.key_type) p.num_records
        (write_page_header p t.key_type) raw start p.slots (λ _. blank_slot) k v.slots Keeps-slots l

-- A page that fits is written to bytes that readPage decodes as that page: it succeeds, whatever the page that it reads into held before, and gives back the header, the slots and the entries.
pub decode_page-serialize_page :
    (p m : SlottedPage) (t : Table)
    → FitsPage t p
    → HasHeader t
    → (r : SlottedPage) × (decode_page (serialize_page p t) t m ≡ (true, r))
      × PageReadsAs t.key_type p r
decode_page-serialize_page p m t v h = (
  result p t v h,
  decode_page-result p t v h m,
  record {
    min_key = refl;
    max_key = refl;
    used_data = refl;
    num_records = refl;
    num_entries = refl;
    arr_cap = refl;
    max_entries = refl;
    max_slots = refl;
    key_size = refl;
    slots = slots_back p t v h;
    entries = λ k l.
        fill-at p.num_entries p.entries (λ _. blank_entry) 0 k (omega arith) (omega (arith, l));
  },
)
