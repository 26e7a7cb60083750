-- ===== src/Storage/Table/Nodes/Decoded.antt =====
-- `readNode` decodes what `serializeNode` wrote.
use stripe_sql.Prelude.{
  ℕ, ◌+◌, ◌*◌, ◌^◌, ◌<◌, ◌≤◌, ◌≡◌, inr, refl, ◌∙◌, arith, Bool, true, false, Array, put, ltb,
}
use stripe_sql.Prelude.Word.{u32}
use stripe_sql.Storage.Bytes.{Buffer, write_ulong_bytewise, write_uint_bytewise}
use stripe_sql.Storage.Bytes.RoundTrip.{write_ulong-frame, write_uint-frame}
use stripe_sql.Storage.Ordering.{OrderingType, OrderingKey, ordering_key_disk_size}
use stripe_sql.Storage.Cache.{Node}
use stripe_sql.Storage.Table.{Table, key_disk_size, max_children, node_header_disk_size}
use stripe_sql.Storage.Table.Header.{HasHeader, key_size_cases}
use stripe_sql.Storage.Table.Cells.{
  Keeps, Keeps-trans, write_cells, write_cells-Keeps, read_cells-write_cells, write_cells-above,
}
use stripe_sql.Storage.Table.Keys.{read_ulong}
use stripe_sql.Storage.Table.Keys.Back.{IsStored, stored, write_ordering_key-above}
use stripe_sql.Storage.Table.Nodes.{
  allocated, put_key, get_key, write_children, write_keys, write_node_header, serialize_node,
  read_children, read_keys, decode_node, key_limit, key_bytes, node_overflows,
}
use stripe_sql.Storage.Table.Nodes.RoundTrip.{
  ulong-IsCodec, key-IsCodec, IsNode, ReadsAs, header_back, tag_back,
}

module _ (memory : Buffer) (n : Node) (t : Table) (v : IsNode t.key_type n) where
  abbrev key_size : ℕ
  key_size = ordering_key_disk_size t.key_type

  abbrev start : ℕ
  start = node_header_disk_size key_size

  abbrev with_children : Buffer
  with_children =
      write_cells 8 write_ulong_bytewise n.child_count
        (write_node_header (allocated memory t.node_size) n t.key_type) start n.children 0

  abbrev raw : Buffer
  raw =
      write_cells key_size (put_key t.key_type) (key_limit n.is_leaf n.child_count) with_children
        (start + n.child_count * 8) n.keys 0

  serialize_node-raw : serialize_node memory n t ≡ raw
  unfolding serialize_node write_children write_keys key_disk_size
  serialize_node-raw = refl

  Keeps-children : Keeps (start + n.child_count * 8) with_children raw
  Keeps-children =
      write_cells-Keeps key_size (put_key t.key_type) (get_key t.key_type) (IsStored t.key_type)
        (stored t.key_type) (key-IsCodec t.key_type) (key_limit n.is_leaf n.child_count)
        with_children (start + n.child_count * 8) n.keys 0

  Keeps-header : Keeps start (write_node_header (allocated memory t.node_size) n t.key_type) raw
  Keeps-header =
      Keeps-trans start (start + n.child_count * 8)
        (write_node_header (allocated memory t.node_size) n t.key_type) with_children raw
        (omega arith)
        (write_cells-Keeps 8 write_ulong_bytewise read_ulong (λ w. w < 2 ^ 64) (λ w. w)
          ulong-IsCodec n.child_count
          (write_node_header (allocated memory t.node_size) n t.key_type) start n.children 0)
        Keeps-children

  children_back :
      (k : ℕ)
      → k < n.child_count
      → (m : Array ℕ) → read_children n.child_count raw start m k ≡ n.children k
  unfolding read_children
  children_back k l m =
      read_cells-write_cells 8 write_ulong_bytewise read_ulong (λ w. w < 2 ^ 64) (λ w. w)
        ulong-IsCodec n.child_count (write_node_header (allocated memory t.node_size) n t.key_type)
        raw start n.children m k v.children Keeps-children l

  keys_back :
      (k : ℕ)
      → k < key_limit n.is_leaf n.child_count
      → (m : Array OrderingKey)
      → read_keys t.key_type (key_limit n.is_leaf n.child_count) raw (start + n.child_count * 8) m k
        ≡ stored t.key_type (n.keys k)
  unfolding read_keys
  keys_back k l m =
      read_cells-write_cells key_size (put_key t.key_type) (get_key t.key_type)
        (IsStored t.key_type) (stored t.key_type) (key-IsCodec t.key_type)
        (key_limit n.is_leaf n.child_count) with_children raw (start + n.child_count * 8) n.keys m k
        v.keys (λ j u. refl) l

  fits_on_disk :
      HasHeader t
      → (b : Bool) → (b ≡ false → 0 < n.child_count)
      → ltb t.node_size (u32 (start + n.child_count * 8 + key_bytes b n.child_count key_size))
        ≡ false
  unfolding key_disk_size
  fits_on_disk h true c =
      ground (arith, h.node_room, h.node_limit, v.count_fits, key_size_cases t.key_type)
  fits_on_disk h false c =
      ground (arith, h.node_room, h.node_limit, v.count_fits, c refl, key_size_cases t.key_type)

  -- The node that `readNode` makes of the bytes, where it reads them into `m`.
  abbrev result : Node → Node
  result m = record m {
    parent = n.parent;
    prev = n.prev;
    next = n.next;
    child_count = n.child_count;
    max_key = stored t.key_type n.max_key;
    is_leaf = n.is_leaf;
    children = read_children n.child_count raw start m.children;
    keys =
        read_keys t.key_type (key_limit n.is_leaf n.child_count) raw (start + n.child_count * 8)
          m.keys;
  }

  decode_node-result :
      (m : Node) → HasHeader t → decode_node (serialize_node memory n t) t m ≡ (true, result m)
  unfolding decode_node serialize_node write_children write_keys key_disk_size node_overflows
  decode_node-result m h =
      rw
        (
          tag_back (allocated memory t.node_size) n t.key_type v raw Keeps-header,
          header_back (allocated memory t.node_size) n t.key_type v raw Keeps-header m,
          few,
          fits_on_disk h n.is_leaf v.has_child,
        )
        refl
    where
      few : ltb max_children n.child_count ≡ false
      few = ground (arith, v.count_fits)

-- A node of a table is written to the bytes that `readNode` decodes as that node: it succeeds,
-- whatever the node that it reads into held before.
pub decode_node-serialize_node :
    (memory : Buffer) (n m : Node) (t : Table)
    → IsNode t.key_type n
    → HasHeader t
    → (r : Node) × (decode_node (serialize_node memory n t) t m ≡ (true, r))
      × ReadsAs t.key_type n r
decode_node-serialize_node memory n m t v h = (
  result memory n t v m,
  decode_node-result memory n t v m h,
  record {
    parent = refl;
    prev = refl;
    next = refl;
    child_count = refl;
    max_key = refl;
    is_leaf = refl;
    children = λ k l. children_back memory n t v k l m.children;
    keys = λ k l. keys_back memory n t v k l m.keys;
  },
)

write_node_header-above :
    (buf : Buffer) (n : Node) (type : OrderingType) (j : ℕ)
    → node_header_disk_size (ordering_key_disk_size type) ≤ j
    → write_node_header buf n type j ≡ buf j
unfolding write_node_header
write_node_header-above buf n type j l = ground (
  arith,
  l,
  write_ordering_key-above b4 29 type n.max_key j (omega (arith, l)),
  write_uint-frame b3 25 n.child_count j (inr (omega (arith, l))),
  write_ulong-frame b2 17 n.next j (inr (omega (arith, l))),
  write_ulong-frame b1 9 n.prev j (inr (omega (arith, l))),
  write_ulong-frame b0 1 n.parent j (inr (omega (arith, l))),
)
  where
    b0 : Buffer
    b0 = put buf 0 1

    b1 : Buffer
    b1 = write_ulong_bytewise b0 1 n.parent

    b2 : Buffer
    b2 = write_ulong_bytewise b1 9 n.prev

    b3 : Buffer
    b3 = write_ulong_bytewise b2 17 n.next

    b4 : Buffer
    b4 = write_uint_bytewise b3 25 n.child_count

-- The keys of a node end within the node's size.
keys_end :
    (n : Node) (t : Table)
    → IsNode t.key_type n
    → HasHeader t
    → (b : Bool)
    → node_header_disk_size (ordering_key_disk_size t.key_type)
        + n.child_count * 8
        + key_limit b n.child_count * ordering_key_disk_size t.key_type
      ≤ t.node_size
unfolding key_disk_size
keys_end n t v h true = ground (arith, h.node_room, v.count_fits, key_size_cases t.key_type)
keys_end n t v h false = ground (arith, h.node_room, v.count_fits, key_size_cases t.key_type)

beyond : (memory : Buffer) (size j : ℕ) → size ≤ j → allocated memory size j ≡ memory j
beyond memory size j l = ground (arith, l)

-- serializeNode writes no byte behind the end of its buffer: whatever stands in the memory there is as
-- it was, if the node is one of the table and the table has a well-formed header.
pub serialize_node-bounded :
    (memory : Buffer) (n : Node) (t : Table) (j : ℕ)
    → IsNode t.key_type n
    → HasHeader t
    → t.node_size ≤ j
    → serialize_node memory n t j ≡ memory j
unfolding serialize_node write_children write_keys key_disk_size
serialize_node-bounded memory n t j v h l =
    write_cells-above (key_size memory n t v) (put_key t.key_type) (get_key t.key_type)
      (IsStored t.key_type) (stored t.key_type) (key-IsCodec t.key_type)
      (key_limit n.is_leaf n.child_count) (with_children memory n t v)
      (start memory n t v + n.child_count * 8) n.keys 0 j
      (omega (arith, l, keys_end n t v h n.is_leaf))
    ∙ write_cells-above 8 write_ulong_bytewise read_ulong (λ w. w < 2 ^ 64) (λ w. w) ulong-IsCodec
        n.child_count (write_node_header (allocated memory t.node_size) n t.key_type)
        (start memory n t v) n.children 0 j (omega (arith, l, keys_end n t v h n.is_leaf))
    ∙ write_node_header-above (allocated memory t.node_size) n t.key_type j
        (omega (arith, l, keys_end n t v h n.is_leaf))
    ∙ beyond memory t.node_size j l
