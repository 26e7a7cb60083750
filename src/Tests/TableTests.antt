-- ===== src/Tests/TableTests.antt =====
-- The header and the nodes of a table's file on concrete inputs.
use stripe_sql.Prelude.{
  ℕ, ◌<◌, refl, zero, suc, Array, some, ◌==◌, if◌then◌else◌, ◌∷◌, [], ◌+◌, ◌^◌, ◌≡◌, arith, inl,
  true, false,
}
use stripe_sql.Storage.Ordering.{OrderingType, of_ulong, ordering_key_disk_size}
use stripe_sql.Storage.Page.Data.{Datatype, Entry, SlottedPage, make_spage}
use stripe_sql.Storage.Table.Pages.{serialize_page, decode_page}
use stripe_sql.Storage.Table.Pages.Entries.{IsHeld, entries_size}
use stripe_sql.Storage.Table.Pages.Decoded.{FitsPage, PageReadsAs, decode_page-serialize_page}
use stripe_sql.Storage.Cache.{Node}
use stripe_sql.Storage.Bytes.{Buffer}
use stripe_sql.Storage.Table.{Table, init_table, fill_meta, load_meta}
use stripe_sql.Storage.Table.Header.{load_meta-fill_meta, init_table-HasHeader}
use stripe_sql.Storage.Table.Nodes.{serialize_node, decode_node}
use stripe_sql.Storage.Table.Nodes.RoundTrip.{IsNode, ReadsAs}
use stripe_sql.Storage.Table.Nodes.Decoded.{decode_node-serialize_node, serialize_node-bounded}

abbrev numbers : Table
numbers = init_table OrderingType.ulong

abbrev texts : Table
texts = init_table OrderingType.string

load_meta-fill_meta_example : load_meta (fill_meta numbers) texts ≡ (true, numbers)
load_meta-fill_meta_example =
    load_meta-fill_meta numbers texts (init_table-HasHeader OrderingType.ulong)

-- An internal node with three children.
abbrev three : Node
three = record {
  children = λ i. 4096 + i;
  keys = λ i. of_ulong 7;
  parent = 0;
  next = 5;
  prev = 2 ^ 63;
  child_count = 3;
  max_key = of_ulong 9;
  is_leaf = false;
}

abbrev junk : Node
junk = record {
  children = λ i. 1;
  keys = λ i. of_ulong 1;
  parent = 1;
  next = 1;
  prev = 1;
  child_count = 45;
  max_key = of_ulong 1;
  is_leaf = true;
}

three-IsNode : IsNode OrderingType.ulong three
three-IsNode = record {
  parent_fits = omega arith;
  prev_fits = omega arith;
  next_fits = omega arith;
  count_fits = omega arith;
  has_child = λ e. omega arith;
  max_key = inl (omega arith);
  children = λ k l. omega (arith, l);
  keys = λ k l. inl (omega arith);
}

-- Memory that has been written to.
abbrev full_memory : Buffer
full_memory _ = 7

decode_node-serialize_node_example :
    (r : Node) × (decode_node (serialize_node full_memory three numbers) numbers junk ≡ (true, r))
    × ReadsAs OrderingType.ulong three r
unfolding init_table
decode_node-serialize_node_example =
    decode_node-serialize_node full_memory three junk numbers three-IsNode
      (init_table-HasHeader OrderingType.ulong)

serialize_node-bounded_example : serialize_node full_memory three numbers 800 ≡ 7
unfolding init_table ordering_key_disk_size
serialize_node-bounded_example =
    serialize_node-bounded full_memory three numbers 800 three-IsNode
      (init_table-HasHeader OrderingType.ulong) (omega arith)

-- A page with one record of two entries.
abbrev two_entries : Array Entry
two_entries i =
    if i == 0
    then record { bytes = some (1 ∷ 2 ∷ 3 ∷ []); size = 3; type = Datatype.t_string }
    else record { bytes = some (9 ∷ []); size = 1; type = Datatype.t_int }

abbrev one_record : SlottedPage
one_record = record {
  min_key = of_ulong 7;
  max_key = of_ulong 7;
  used_data = 4;
  num_records = 1;
  num_entries = 2;
  arr_cap = 4055;
  max_entries = 700;
  max_slots = 64;
  key_size = 8;
  entries = two_entries;
  slots = λ i. record { id = of_ulong 7; ptr = 0; len = 2; size = 4 };
}

two_entries-IsHeld : (k : ℕ) → k < 2 → IsHeld (two_entries k)
two_entries-IsHeld zero l = record {
  held = 1 ∷ 2 ∷ 3 ∷ [];
  bytes = refl;
  size = refl;
  fits = omega arith;
}
two_entries-IsHeld (suc zero) l = record {
  held = 9 ∷ [];
  bytes = refl;
  size = refl;
  fits = omega arith;
}
two_entries-IsHeld (suc (suc k)) l = absurd (omega (arith, l))

one_record-FitsPage : FitsPage numbers one_record
unfolding init_table ordering_key_disk_size entries_size
one_record-FitsPage = record {
  header = record {
    min_key = inl (omega arith);
    max_key = inl (omega arith);
    used_data = omega arith;
    num_records = omega arith;
    num_entries = omega arith;
    arr_cap = omega arith;
    max_entries = omega arith;
    max_slots = omega arith;
  };
  slots_fit = omega arith;
  entries_fit = omega arith;
  slot_limit = omega arith;
  entry_limit = omega arith;
  slots = λ k l. record {
    id = inl (omega arith);
    ptr = omega arith;
    len = omega arith;
    size = omega arith;
  };
  entries = two_entries-IsHeld;
  room = omega arith;
}

decode_page-serialize_page_example :
    (r : SlottedPage) × (decode_page
        (serialize_page one_record numbers)
        numbers
        (make_spage 1 1 1 8)
      ≡ (true, r))
    × PageReadsAs OrderingType.ulong one_record r
unfolding init_table
decode_page-serialize_page_example =
    decode_page-serialize_page one_record (make_spage 1 1 1 8) numbers one_record-FitsPage
      (init_table-HasHeader OrderingType.ulong)
