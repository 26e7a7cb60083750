-- ===== src/Storage/Table.antt =====
-- A table's header and the sizes that follow from the type of its keys, src/storage_engine/tableIO.c.
-- The words of the header are the array that is read from and written to the file.
pub mod Keys
pub mod Header
pub mod Cells
pub mod Nodes
pub mod Pages
use Prim.Native.Nat.{bit_or}
use stripe_sql.Prelude.{
  ℕ, zero, suc, ◌+◌, ◌-◌, ◌*◌, ◌/◌, ◌%◌, ◌^◌, Option, none, some, Bool, true, false, ◌&&◌, ◌||◌,
  Array, List, [], ◌∷◌, get_or, ltb, ◌==◌, if◌then◌else◌,
}
use stripe_sql.Storage.Ordering.{OrderingType, ordering_key_disk_size}
use stripe_sql.Storage.Page.Data.{sp_slot_disk_size}
use stripe_sql.Storage.Wal.Entry

abbrev pub magic : ℕ
magic = 0xFACE341D

-- METALEN
abbrev pub meta_words : ℕ
meta_words = 17

-- M_GLOBAL
abbrev pub max_children : ℕ
max_children = 45

abbrev pub page_header_disk_size : ℕ → ℕ
page_header_disk_size key_size = 1 + 2 * key_size + 24

abbrev pub node_header_disk_size : ℕ → ℕ
node_header_disk_size key_size = 30 + key_size

abbrev pub node_disk_size : ℕ → ℕ
node_disk_size key_size = node_header_disk_size key_size + max_children * (8 + key_size)

-- The fields that the header of the file keeps.
pub record Table : Type 0 where
  pub page_free : ℕ
  pub node_free : ℕ
  pub root : ℕ
  pub metalen : ℕ
  pub page_stripes : ℕ
  pub page_stripe_len : ℕ
  pub node_stripes : ℕ
  pub node_stripe_len : ℕ
  pub page_node_ratio : ℕ
  pub page_size : ℕ
  pub node_size : ℕ
  pub m : ℕ
  pub key_type : OrderingType

unfoldable pub key_disk_size : Table → ℕ
key_disk_size t = ordering_key_disk_size t.key_type

unfoldable pub page_capacity : Table → ℕ
page_capacity t = t.page_size - page_header_disk_size (key_disk_size t)

unfoldable pub init_table : OrderingType → Table
init_table key_type = record {
  page_free = meta_words * 4 + 1 * node_disk_size (ordering_key_disk_size key_type);
  node_free = meta_words * 4;
  root = 0;
  metalen = meta_words * 4;
  page_stripes = 1;
  page_stripe_len = 1;
  node_stripes = 1;
  node_stripe_len = 1;
  page_node_ratio = max_children / 2;
  page_size = Entry.page_size;
  node_size = node_disk_size (ordering_key_disk_size key_type);
  m = max_children;
  key_type = key_type;
}

-- The value of the enumeration, and the type that has it.
unfoldable pub type_code : OrderingType → ℕ
type_code OrderingType.ulong = 0
type_code OrderingType.string = 1
type_code OrderingType.double = 2

unfoldable pub type_of_code : ℕ → Option OrderingType
type_of_code n =
    if n == 0
    then some OrderingType.ulong
    else if n == 1
    then some OrderingType.string
    else if n == 2
    then some OrderingType.double
    else none

-- The words from the first on; memcpy puts them in `buf`.
unfoldable pub fill_meta : Table → Array ℕ
unfolding type_code
fill_meta t i =
    get_or
      (magic
        ∷ t.metalen
        ∷ t.page_stripes
        ∷ t.node_stripes
        ∷ t.page_node_ratio
        ∷ t.page_stripe_len
        ∷ t.node_stripe_len
        ∷ t.page_size
        ∷ t.node_size
        ∷ t.page_free / 2 ^ 32
        ∷ t.page_free % 2 ^ 32
        ∷ t.node_free / 2 ^ 32
        ∷ t.node_free % 2 ^ 32
        ∷ t.root / 2 ^ 32
        ∷ t.root % 2 ^ 32
        ∷ t.m
        ∷ type_code t.key_type
        ∷ [])
      i 0

-- ((uint64_t) high << 32) | low
abbrev pub join_words : ℕ → ℕ → ℕ
join_words high low = bit_or (high * 2 ^ 32 % 2 ^ 64) low

-- `size > limit` for an `int` that has been given an unsigned word: one from 2 ^ 31 on is negative. (The
-- test against an unsigned lower bound reads it as a word again.)
abbrev pub is_above : ℕ → ℕ → Bool
is_above word limit = ltb word (2 ^ 31) && ltb limit word

-- The table as it is when `loadMeta` returns, and what it returns.
unfoldable pub load_meta : Array ℕ → Table → Bool × Table
load_meta buf t =
    let t1 = record t {
      metalen = buf 1;
      page_stripes = buf 2;
      node_stripes = buf 3;
      page_node_ratio = buf 4;
      page_stripe_len = buf 5;
      node_stripe_len = buf 6;
    } in
    elim (type_of_code (buf 16)) [
      | none ↦ (false, t1)
      | some key_type ↦
          let key_size = ordering_key_disk_size key_type in
          let t2 = record t1 { key_type = key_type; page_size = buf 7 } in
          let t3 = record t2 { node_size = buf 8 } in
          if ltb (buf 7) (page_header_disk_size key_size + sp_slot_disk_size key_size)
            || is_above (buf 7) (1024 * 64)
          then (false, t2)
          else if ltb (buf 8) (node_disk_size key_size) || is_above (buf 8) (1024 * 64)
          then (false, t3)
          else (
            true,
            record t3 {
              page_free = join_words (buf 9) (buf 10);
              node_free = join_words (buf 11) (buf 12);
              root = join_words (buf 13) (buf 14);
              m = buf 15;
            },
          )
    ]
