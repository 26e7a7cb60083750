-- ===== src/Storage/Table/Nodes.antt =====
-- Nodes in a table's file: `serializeNode` and the decoding of `readNode`.
pub mod RoundTrip
pub mod Decoded
use stripe_sql.Prelude.{
  ℕ, zero, suc, ◌+◌, ◌-◌, ◌*◌, ◌^◌, Bool, true, false, not, Array, put, ltb, ◌==◌, if◌then◌else◌,
}
use stripe_sql.Prelude.Word.{u32}
use stripe_sql.Storage.Bytes.{Buffer, write_ulong_bytewise, write_uint_bytewise}
use stripe_sql.Storage.Ordering.{OrderingType, OrderingKey, ordering_key_disk_size}
use stripe_sql.Storage.Cache.{Node}
use stripe_sql.Storage.Table.{Table, key_disk_size, max_children, node_header_disk_size}
use stripe_sql.Storage.Table.Cells.{write_cells, read_cells}
use stripe_sql.Storage.Table.Keys.{write_ordering_key, read_ordering_key, read_uint, read_ulong}

-- calloc, with nothing behind the block in view
abbrev pub blank : Buffer
blank _ = 0

-- calloc(size, 1): the block at the pointer, and what stands in the memory behind it.
abbrev pub allocated : Buffer → ℕ → Buffer
allocated memory size k = if ltb k size then 0 else memory k

abbrev pub bool_byte : Bool → ℕ
bool_byte true = 1
bool_byte false = 0

-- `n` addresses, and `n` keys, from the first on.
unfoldable pub write_children : ℕ → Buffer → ℕ → Array ℕ → Buffer
write_children n buf offset children = write_cells 8 write_ulong_bytewise n buf offset children 0

abbrev pub put_key : OrderingType → Buffer → ℕ → OrderingKey → Buffer
put_key type buf p k = write_ordering_key buf p k type

abbrev pub get_key : OrderingType → Buffer → ℕ → OrderingKey
get_key type buf p = read_ordering_key buf p type

unfoldable pub write_keys : OrderingType → ℕ → Buffer → ℕ → Array OrderingKey → Buffer
write_keys type n buf offset keys =
    write_cells (ordering_key_disk_size type) (put_key type) n buf offset keys 0

-- One key for each child of a leaf, one fewer in an internal node.
abbrev pub key_limit : Bool → ℕ → ℕ
key_limit true child_count = child_count
key_limit false child_count = child_count - 1

unfoldable pub write_node_header : Buffer → Node → OrderingType → Buffer
write_node_header buf n type =
    let b0 = put buf 0 1 in
    let b1 = write_ulong_bytewise b0 1 n.parent in
    let b2 = write_ulong_bytewise b1 9 n.prev in
    let b3 = write_ulong_bytewise b2 17 n.next in
    let b4 = write_uint_bytewise b3 25 n.child_count in
    let b5 = write_ordering_key b4 29 n.max_key type in
    put b5 (node_header_disk_size (ordering_key_disk_size type) - 1) (bool_byte n.is_leaf)

-- The bytes from the pointer that is returned on. `memory` is what stood in their place before.
unfoldable pub serialize_node : Buffer → Node → Table → Buffer
serialize_node memory n t =
    let offset = node_header_disk_size (key_disk_size t) in
    let header = write_node_header (allocated memory t.node_size) n t.key_type in
    let b = write_children n.child_count header offset n.children in
    write_keys t.key_type (key_limit n.is_leaf n.child_count) b (offset + n.child_count * 8) n.keys

unfoldable pub read_children : ℕ → Buffer → ℕ → Array ℕ → Array ℕ
read_children n raw offset children = read_cells 8 read_ulong n raw offset children 0

unfoldable pub read_keys : OrderingType → ℕ → Buffer → ℕ → Array OrderingKey → Array OrderingKey
read_keys type n raw offset keys =
    read_cells (ordering_key_disk_size type) (get_key type) n raw offset keys 0

-- The fields before the check of the size.
unfoldable pub read_node_header : Buffer → OrderingType → Node → Node
read_node_header raw type n = record n {
  parent = read_ulong raw 1;
  prev = read_ulong raw 9;
  next = read_ulong raw 17;
  child_count = read_uint raw 25;
  max_key = read_ordering_key raw 29 type;
  is_leaf = not (raw (node_header_disk_size (ordering_key_disk_size type) - 1) == 0);
}

-- keylim * keySize, where a node that is no leaf and has no child gives -1 times the size.
abbrev pub key_bytes : Bool → ℕ → ℕ → ℕ
key_bytes true child_count key_size = child_count * key_size
key_bytes false child_count key_size = child_count * key_size + 2 ^ 32 - key_size

-- Whether the children and keys that the header promises do not fit in a node on disk; the sum wraps.
unfoldable pub node_overflows : Node → Table → Bool
node_overflows n t = ltb t.node_size (
    u32 (
      node_header_disk_size (key_disk_size t)
      + n.child_count * 8
      + key_bytes n.is_leaf n.child_count (key_disk_size t)))

-- `readNode` from the bytes on disk on. What it returns, and the node as it is then.
unfoldable pub decode_node : Buffer → Table → Node → Bool × Node
decode_node raw t n =
    if not (raw 0 == 1)
    then (false, n)
    else let h = read_node_header raw t.key_type n in
      if ltb max_children h.child_count
      then (
        false,
        record n { parent = h.parent; prev = h.prev; next = h.next; child_count = h.child_count },
      )
      else if node_overflows h t
      then (false, h)
      else let offset = node_header_disk_size (key_disk_size t) in
        (
          true,
          record h {
            children = read_children h.child_count raw offset h.children;
            keys =
                read_keys t.key_type (key_limit h.is_leaf h.child_count) raw
                  (offset + h.child_count * 8) h.keys;
          },
        )
