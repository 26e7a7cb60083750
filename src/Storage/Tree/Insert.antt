-- ===== src/Storage/Tree/Insert.antt =====
-- Filing a page in a leaf: the shifts of arrays and `insertPageIntoChildren` of src/storage_engine/bplus.c.
pub mod Shift
pub mod Filed
pub mod Kept
use stripe_sql.Prelude.{
  ℕ, zero, suc, ◌+◌, ◌-◌, Option, none, some, Bool, true, false, Array, put, ltb, leb,
  if◌then◌else◌,
}
use stripe_sql.Storage.Ordering.{OrderingKey, zero_key, compare_ordering_keys}
use stripe_sql.Storage.Cache.{Node}
use stripe_sql.Storage.Table.{max_children}
use stripe_sql.Storage.Tree.{is_gt}

-- The loops from cell `i` down to `start`, and from cell `i` up to the last. A round for each cell is enough.
unfoldable pub shift_right : {A : Type 0} → ℕ → Array A → ℕ → ℕ → Array A
shift_right zero array i start = array
shift_right (suc fuel) array i start =
    let rest = shift_right fuel (put array i (array (i - 1))) (i - 1) start in
    if ltb start i then rest else array

unfoldable pub shift_left : {A : Type 0} → ℕ → Array A → ℕ → ℕ → Array A
shift_left zero array i len = array
shift_left (suc fuel) array i len =
    let rest = shift_left fuel (put array i (array (i + 1))) (i + 1) len in
    if ltb i (len - 1) then rest else array

-- What the functions return, which is `false` for their -1, and the array.
unfoldable pub shift_key_array_r : Array OrderingKey → ℕ → ℕ → Bool × Array OrderingKey
shift_key_array_r array start len =
    if leb len start
    then (false, array)
    else (true, put (shift_right len array (len - 1) start) start zero_key)

unfoldable pub shift_key_array_l : Array OrderingKey → ℕ → ℕ → Bool × Array OrderingKey
shift_key_array_l array target len =
    if leb len target
    then (false, array)
    else (true, put (shift_left len array target len) (len - 1) zero_key)

unfoldable pub shift_address_array_r : Array ℕ → ℕ → ℕ → Bool × Array ℕ
shift_address_array_r array start len =
    if leb len start
    then (false, array)
    else (true, put (shift_right len array (len - 1) start) start 0)

unfoldable pub shift_address_array_l : Array ℕ → ℕ → ℕ → Bool × Array ℕ
shift_address_array_l array target len =
    if leb len target
    then (false, array)
    else (true, put (shift_left len array target len) (len - 1) 0)

-- The node that `insertPageIntoChildren` marks, and the key that it then passes to `propagateMaxKeyUp`.
pub record Filing : Type 0 where
  pub node : Node
  pub raised : Option OrderingKey

abbrev pub file_between : Node → OrderingKey → ℕ → ℕ → Filing
file_between n key page i = record {
  node = record n {
    keys = put (shift_key_array_r n.keys i max_children).1 i key;
    children = put (shift_address_array_r n.children i max_children).1 i page;
    child_count = n.child_count + 1;
  };
  raised = none;
}

abbrev pub file_last : Node → OrderingKey → ℕ → Filing
file_last n key page = record {
  node = record n {
    keys = put n.keys n.child_count key;
    children = put n.children n.child_count page;
    child_count = n.child_count + 1;
    max_key = key;
  };
  raised = some key;
}

-- The loop over the children. A round for each child is enough.
unfoldable pub file_loop : ℕ → Node → OrderingKey → ℕ → ℕ → Filing
file_loop zero n key page i = file_last n key page
file_loop (suc fuel) n key page i =
    let rest = file_loop fuel n key page (i + 1) in
    if ltb i n.child_count
    then (if is_gt (compare_ordering_keys (n.keys i) key) then file_between n key page i else rest)
    else file_last n key page

unfoldable pub insert_page_into_children : Node → OrderingKey → ℕ → Filing
insert_page_into_children n key page = file_loop n.child_count n key page 0
