-- ===== src/Storage/Table/Pages/Front.antt =====
-- The header of a page is read back.
use stripe_sql.Prelude.{ℕ, ◌+◌, ◌*◌, ◌^◌, ◌<◌, ◌≤◌, ◌≡◌, inl, refl, ◌∙◌, arith}
use stripe_sql.Storage.Bytes.{Buffer, write_uint_bytewise}
use stripe_sql.Storage.Bytes.RoundTrip.{write_uint-frame}
use stripe_sql.Storage.Ordering.{OrderingType, ordering_key_disk_size}
use stripe_sql.Storage.Page.Data.{SlottedPage, blank_entry, blank_slot}
use stripe_sql.Storage.Table.{page_header_disk_size}
use stripe_sql.Storage.Table.Cells.{Keeps}
use stripe_sql.Storage.Table.Keys.{write_ordering_key}
use stripe_sql.Storage.Table.Keys.Back.{IsStored, stored, write_ordering_key-below}
use stripe_sql.Storage.Table.Nodes.{blank}
use stripe_sql.Storage.Table.Pages.{read_page_header}
use stripe_sql.Storage.Table.Pages.Slots.{uint_back, key_back}

-- The fields of a header that a file can keep.
pub record HeaderFits (type : OrderingType) (p : SlottedPage) : Type 0 where
  pub min_key : IsStored type p.min_key
  pub max_key : IsStored type p.max_key
  pub used_data : p.used_data < 2 ^ 32
  pub num_records : p.num_records < 2 ^ 32
  pub num_entries : p.num_entries < 2 ^ 32
  pub arr_cap : p.arr_cap < 2 ^ 32
  pub max_entries : p.max_entries < 2 ^ 32
  pub max_slots : p.max_slots < 2 ^ 32

-- The page that a reader makes of a header, with arrays of its own.
abbrev pub stored_header : OrderingType → SlottedPage → SlottedPage
stored_header type p = record p {
  min_key = stored type p.min_key;
  max_key = stored type p.max_key;
  key_size = ordering_key_disk_size type;
  entries = λ _. blank_entry;
  slots = λ _. blank_slot;
}

-- What is kept up to the end of a word is kept up to its start before the word was written.
before_uint :
    (buf later : Buffer) (p v q : ℕ)
    → p + 4 ≤ q
    → Keeps q (write_uint_bytewise buf p v) later
    → Keeps p buf later
before_uint buf later p v q l k j u = k j (omega (arith, l, u)) ∙ write_uint-frame buf p v j (inl u)

up_to : (a b : Buffer) (p q : ℕ) → p ≤ q → Keeps q a b → Keeps p a b
up_to a b p q l k j u = k j (omega (arith, l, u))

module _ (type : OrderingType) (p : SlottedPage) (v : HeaderFits type p) (later : Buffer) where
  abbrev fields : ℕ
  fields = 1 + 2 * ordering_key_disk_size type

  -- The buffer after each field.
  abbrev c1 : Buffer
  c1 = write_ordering_key blank 1 p.min_key type

  abbrev c2 : Buffer
  c2 = write_ordering_key c1 (1 + ordering_key_disk_size type) p.max_key type

  abbrev c3 : Buffer
  c3 = write_uint_bytewise c2 fields p.used_data

  abbrev c4 : Buffer
  c4 = write_uint_bytewise c3 (fields + 4) p.num_records

  abbrev c5 : Buffer
  c5 = write_uint_bytewise c4 (fields + 8) p.num_entries

  abbrev c6 : Buffer
  c6 = write_uint_bytewise c5 (fields + 12) p.arr_cap

  abbrev c7 : Buffer
  c7 = write_uint_bytewise c6 (fields + 16) p.max_entries

  abbrev c8 : Buffer
  c8 = write_uint_bytewise c7 (fields + 20) p.max_slots

  module _ (keeps : Keeps (page_header_disk_size (ordering_key_disk_size type)) c8 later) where
    Keeps-c7 : Keeps (fields + 20) c7 later
    Keeps-c7 =
        before_uint c7 later (fields + 20) p.max_slots
          (page_header_disk_size (ordering_key_disk_size type)) (omega arith) keeps

    Keeps-c6 : Keeps (fields + 16) c6 later
    Keeps-c6 = before_uint c6 later (fields + 16) p.max_entries (fields + 20) (omega arith) Keeps-c7

    Keeps-c5 : Keeps (fields + 12) c5 later
    Keeps-c5 = before_uint c5 later (fields + 12) p.arr_cap (fields + 16) (omega arith) Keeps-c6

    Keeps-c4 : Keeps (fields + 8) c4 later
    Keeps-c4 = before_uint c4 later (fields + 8) p.num_entries (fields + 12) (omega arith) Keeps-c5

    Keeps-c3 : Keeps (fields + 4) c3 later
    Keeps-c3 = before_uint c3 later (fields + 4) p.num_records (fields + 8) (omega arith) Keeps-c4

    Keeps-c2 : Keeps fields c2 later
    Keeps-c2 = before_uint c2 later fields p.used_data (fields + 4) (omega arith) Keeps-c3

    Keeps-c1 : Keeps (1 + ordering_key_disk_size type) c1 later
    Keeps-c1 j u =
        Keeps-c2 j (omega (arith, u))
        ∙ write_ordering_key-below c1 (1 + ordering_key_disk_size type) type p.max_key j u

    -- The byte that tells a page.
    pub page_tag : later 0 ≡ 0
    page_tag =
        Keeps-c1 0 (omega arith) ∙ write_ordering_key-below blank 1 type p.min_key 0 (omega arith)

    pub read_page_header-back : read_page_header later type ≡ stored_header type p
    unfolding read_page_header
    read_page_header-back =
        rw
          (
            key_back type blank later 1 p.min_key v.min_key Keeps-c1,
            key_back type c1 later (1 + ordering_key_disk_size type) p.max_key v.max_key (
                up_to c2 later (1 + ordering_key_disk_size type + ordering_key_disk_size type)
                  fields (omega arith) Keeps-c2),
            uint_back c2 later fields p.used_data v.used_data Keeps-c3,
            uint_back c3 later (fields + 4) p.num_records v.num_records
                (up_to c4 later (fields + 4 + 4) (fields + 8) (omega arith) Keeps-c4),
            uint_back c4 later (fields + 8) p.num_entries v.num_entries
                (up_to c5 later (fields + 8 + 4) (fields + 12) (omega arith) Keeps-c5),
            uint_back c5 later (fields + 12) p.arr_cap v.arr_cap
                (up_to c6 later (fields + 12 + 4) (fields + 16) (omega arith) Keeps-c6),
            uint_back c6 later (fields + 16) p.max_entries v.max_entries
                (up_to c7 later (fields + 16 + 4) (fields + 20) (omega arith) Keeps-c7),
            uint_back c7 later (fields + 20) p.max_slots v.max_slots (
                up_to c8 later (fields + 20 + 4)
                  (page_header_disk_size (ordering_key_disk_size type)) (omega arith) keeps),
          )
          refl
