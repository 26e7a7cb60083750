-- ===== src/Storage/Table/Nodes/RoundTrip.antt =====
-- A node written to a table's file is read back.
use stripe_sql.Prelude.{
  ℕ, ◌-◌, ◌^◌, ◌<◌, ◌≤◌, ◌≡◌, inl, inr, refl, ◌∙◌, arith, Bool, true, false, not, put, ◌==◌,
}
use stripe_sql.Storage.Bytes.{Buffer, write_ulong_bytewise, write_uint_bytewise}
use stripe_sql.Storage.Bytes.RoundTrip.{write_ulong-frame, write_uint-frame}
use stripe_sql.Storage.Ordering.{OrderingType, ordering_key_disk_size}
use stripe_sql.Storage.Cache.{Node}
use stripe_sql.Storage.Table.{max_children, node_header_disk_size}
use stripe_sql.Storage.Table.Cells.{IsCodec, Keeps, Keeps-trans, Keeps-Agree}
use stripe_sql.Storage.Table.Keys.{write_ordering_key, read_ordering_key, read_uint, read_ulong}
use stripe_sql.Storage.Table.Keys.RoundTrip.{
  read_ulong-write, read_uint-write, read_ulong-Agree, read_uint-Agree,
}
use stripe_sql.Storage.Table.Keys.Back.{
  IsStored, stored, read_ordering_key-write, write_ordering_key-below, write_ordering_key-above,
  read_ordering_key-Agree,
}
use stripe_sql.Storage.Table.Nodes.{
  bool_byte, put_key, get_key, write_node_header, read_node_header, key_limit,
}

pub ulong-IsCodec : IsCodec 8 write_ulong_bytewise read_ulong (λ v. v < 2 ^ 64) (λ v. v)
ulong-IsCodec = record {
  below = λ buf p v j l. write_ulong-frame buf p v j (inl l);
  above = λ buf p v j l. write_ulong-frame buf p v j (inr l);
  reads_back = read_ulong-write;
  local = read_ulong-Agree;
}

pub key-IsCodec :
    (type : OrderingType)
    → IsCodec
        (ordering_key_disk_size type)
        (put_key type)
        (get_key type)
        (IsStored type)
        (stored type)
key-IsCodec type = record {
  below = λ buf p k j l. write_ordering_key-below buf p type k j l;
  above = λ buf p k j l. write_ordering_key-above buf p type k j l;
  reads_back = λ buf p k h. read_ordering_key-write buf p type k h;
  local = λ a b p h. read_ordering_key-Agree a b p type h;
}

-- A node as the tree keeps it: its addresses and keys fit, and it has no more children than there is room for.
pub record IsNode (type : OrderingType) (n : Node) : Type 0 where
  pub parent_fits : n.parent < 2 ^ 64
  pub prev_fits : n.prev < 2 ^ 64
  pub next_fits : n.next < 2 ^ 64
  pub count_fits : n.child_count ≤ max_children
  pub has_child : n.is_leaf ≡ false → 0 < n.child_count
  pub max_key : IsStored type n.max_key
  pub children : (k : ℕ) → k < n.child_count → n.children k < 2 ^ 64
  pub keys : (k : ℕ) → k < key_limit n.is_leaf n.child_count → IsStored type (n.keys k)

-- The node `b` is what a reader makes of `a`.
pub record ReadsAs (type : OrderingType) (a b : Node) : Type 0 where
  pub parent : b.parent ≡ a.parent
  pub prev : b.prev ≡ a.prev
  pub next : b.next ≡ a.next
  pub child_count : b.child_count ≡ a.child_count
  pub max_key : b.max_key ≡ stored type a.max_key
  pub is_leaf : b.is_leaf ≡ a.is_leaf
  pub children : (k : ℕ) → k < a.child_count → b.children k ≡ a.children k
  pub keys : (k : ℕ) → k < key_limit a.is_leaf a.child_count → b.keys k ≡ stored type (a.keys k)

module _ (buf : Buffer) (n : Node) (type : OrderingType) (v : IsNode type n) (later : Buffer) where
  abbrev size : ℕ
  size = node_header_disk_size (ordering_key_disk_size type)

  -- The buffer after each field of the header.
  abbrev b0 : Buffer
  b0 = put buf 0 1

  abbrev b1 : Buffer
  b1 = write_ulong_bytewise b0 1 n.parent

  abbrev b2 : Buffer
  b2 = write_ulong_bytewise b1 9 n.prev

  abbrev b3 : Buffer
  b3 = write_ulong_bytewise b2 17 n.next

  abbrev b4 : Buffer
  b4 = write_uint_bytewise b3 25 n.child_count

  abbrev b5 : Buffer
  b5 = write_ordering_key b4 29 n.max_key type

  module _ (keeps : Keeps size (write_node_header buf n type) later) where
    Keeps-b5 : Keeps (size - 1) b5 later
    unfolding write_node_header
    Keeps-b5 j l = keeps j (omega (arith, l)) ∙ ground (arith, l)

    Keeps-b4 : Keeps 29 b4 later
    Keeps-b4 =
        Keeps-trans 29 (size - 1) b4 b5 later (omega arith)
          (write_ordering_key-below b4 29 type n.max_key) Keeps-b5

    Keeps-b3 : Keeps 25 b3 later
    Keeps-b3 =
        Keeps-trans 25 29 b3 b4 later (omega arith)
          (λ j l. write_uint-frame b3 25 n.child_count j (inl l)) Keeps-b4

    Keeps-b2 : Keeps 17 b2 later
    Keeps-b2 =
        Keeps-trans 17 25 b2 b3 later (omega arith) (ulong-IsCodec.below b2 17 n.next) Keeps-b3

    Keeps-b1 : Keeps 9 b1 later
    Keeps-b1 = Keeps-trans 9 17 b1 b2 later (omega arith) (ulong-IsCodec.below b1 9 n.prev) Keeps-b2

    Keeps-b0 : Keeps 1 b0 later
    Keeps-b0 =
        Keeps-trans 1 9 b0 b1 later (omega arith) (ulong-IsCodec.below b0 1 n.parent) Keeps-b1

    pub tag_back : later 0 ≡ 1
    tag_back = Keeps-b0 0 (omega arith)

    parent_back : read_ulong later 1 ≡ n.parent
    parent_back =
        read_ulong-Agree later b1 1 (Keeps-Agree 1 8 9 b1 later (omega arith) Keeps-b1)
        ∙ read_ulong-write b0 1 n.parent v.parent_fits

    prev_back : read_ulong later 9 ≡ n.prev
    prev_back =
        read_ulong-Agree later b2 9 (Keeps-Agree 9 8 17 b2 later (omega arith) Keeps-b2)
        ∙ read_ulong-write b1 9 n.prev v.prev_fits

    next_back : read_ulong later 17 ≡ n.next
    next_back =
        read_ulong-Agree later b3 17 (Keeps-Agree 17 8 25 b3 later (omega arith) Keeps-b3)
        ∙ read_ulong-write b2 17 n.next v.next_fits

    count_back : read_uint later 25 ≡ n.child_count
    count_back =
        read_uint-Agree later b4 25 (Keeps-Agree 25 4 29 b4 later (omega arith) Keeps-b4)
        ∙ read_uint-write b3 25 n.child_count (omega (arith, v.count_fits))

    max_key_back : read_ordering_key later 29 type ≡ stored type n.max_key
    max_key_back =
        read_ordering_key-Agree later b5 29 type
          (Keeps-Agree 29 (ordering_key_disk_size type) (size - 1) b5 later (omega arith) Keeps-b5)
        ∙ read_ordering_key-write b4 29 type n.max_key v.max_key

    is_leaf_back : later (size - 1) ≡ bool_byte n.is_leaf
    unfolding write_node_header
    is_leaf_back = keeps (size - 1) (omega arith) ∙ ground arith

    leaf_back : (b : Bool) → later (size - 1) ≡ bool_byte b → not (later (size - 1) == 0) ≡ b
    leaf_back true e = ground (arith, e)
    leaf_back false e = ground (arith, e)

    -- The header as `readNode` reads it into `m`.
    pub header_back :
        (m : Node)
        → read_node_header later type m ≡ record m {
          parent = n.parent;
          prev = n.prev;
          next = n.next;
          child_count = n.child_count;
          max_key = stored type n.max_key;
          is_leaf = n.is_leaf;
        }
    unfolding read_node_header
    header_back m =
        rw
          (
            parent_back,
            prev_back,
            next_back,
            count_back,
            max_key_back,
            leaf_back n.is_leaf is_leaf_back,
          )
          refl
