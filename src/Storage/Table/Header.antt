-- ===== src/Storage/Table/Header.antt =====
-- A table's header is read back as it was written.
use stripe_sql.Prelude.{
  ℕ, ◌+◌, ◌*◌, ◌/◌, ◌%◌, ◌^◌, ◌≤◌, ◌<◌, ◌≡◌, refl, arith, some, ◌⊎◌, inl, inr, true, false, ltb,
  ◌||◌,
}
use stripe_sql.Prelude.Bits.{bit_or-disjoint}
use stripe_sql.Storage.Ordering.{OrderingType, ordering_key_disk_size}
use stripe_sql.Storage.Page.Data.{sp_slot_disk_size}
use stripe_sql.Storage.Table.{
  Table, key_disk_size, init_table, type_code, type_of_code, fill_meta, load_meta, join_words,
  page_header_disk_size, node_disk_size, is_above,
}

-- Addresses of 64 bits, and pages and nodes with room for what a file keeps in them.
pub record HasHeader (t : Table) : Type 0 where
  pub page_free_fits : t.page_free < 2 ^ 64
  pub node_free_fits : t.node_free < 2 ^ 64
  pub root_fits : t.root < 2 ^ 64
  pub page_room :
      page_header_disk_size (key_disk_size t) + sp_slot_disk_size (key_disk_size t) ≤ t.page_size
  pub page_limit : t.page_size ≤ 1024 * 64
  pub node_room : node_disk_size (key_disk_size t) ≤ t.node_size
  pub node_limit : t.node_size ≤ 1024 * 64

type_of_code-type_code : (k : OrderingType) → type_of_code (type_code k) ≡ some k
unfolding type_of_code type_code
type_of_code-type_code OrderingType.ulong = refl
type_of_code-type_code OrderingType.string = refl
type_of_code-type_code OrderingType.double = refl

join_words-split : (v : ℕ) → v < 2 ^ 64 → join_words (v / 2 ^ 32) (v % 2 ^ 32) ≡ v
join_words-split v h = ground (arith, h, bit_or-disjoint 32 (v / 2 ^ 32) (v % 2 ^ 32))

-- loadMeta gives each field of the header the value that fillMeta wrote, and returns true, if the
-- header is well-formed.
pub load_meta-fill_meta : (t u : Table) → HasHeader t → load_meta (fill_meta t) u ≡ (true, t)
unfolding load_meta fill_meta key_disk_size
load_meta-fill_meta t u h =
    rw (type_of_code-type_code t.key_type, load_meta, fill_meta)
      (rw
        (
          page_fits,
          node_fits,
          join_words-split t.page_free h.page_free_fits,
          join_words-split t.node_free h.node_free_fits,
          join_words-split t.root h.root_fits,
        )
        refl)
  where
    page_fits :
        (ltb t.page_size (
            page_header_disk_size (ordering_key_disk_size t.key_type)
            + sp_slot_disk_size (ordering_key_disk_size t.key_type))
          || is_above t.page_size (1024 * 64))
        ≡ false
    page_fits = ground (arith, h.page_room, h.page_limit)

    node_fits :
        (ltb t.node_size (node_disk_size (ordering_key_disk_size t.key_type))
          || is_above t.node_size (1024 * 64))
        ≡ false
    node_fits = ground (arith, h.node_room, h.node_limit)

pub key_size_cases :
    (k : OrderingType) → (ordering_key_disk_size k ≡ 8) ⊎ (ordering_key_disk_size k ≡ 24)
unfolding ordering_key_disk_size
key_size_cases OrderingType.ulong = inl refl
key_size_cases OrderingType.string = inr refl
key_size_cases OrderingType.double = inl refl

-- The header of a new table is well-formed: its pages and nodes have room, whatever the type of its keys.
pub init_table-HasHeader : (k : OrderingType) → HasHeader (init_table k)
unfolding init_table key_disk_size
init_table-HasHeader k = record {
  page_free_fits = ground (arith, key_size_cases k);
  node_free_fits = omega arith;
  root_fits = omega arith;
  page_room = ground (arith, key_size_cases k);
  page_limit = omega arith;
  node_room = omega arith;
  node_limit = ground (arith, key_size_cases k);
}
