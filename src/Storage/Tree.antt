-- ===== src/Storage/Tree.antt =====
-- Finding a key's page in the B+ tree of src/storage_engine/bplus.c. What readNode gives at an address
-- is an argument: `none` where the node cannot be read. A search that is given fewer rounds than it takes
-- gives `none`; one that is given more gives what the code returns.
pub mod Shape
pub mod Leaf
pub mod Found
pub mod Walk
pub mod Sound
pub mod Choose
pub mod Insert
use stripe_sql.Prelude.{
  ℕ, zero, suc, ◌+◌, ◌-◌, ◌/◌, Option, none, some, Bool, true, false, not, ◌&&◌, Array, Ordering,
  ltb, ◌==◌, if◌then◌else◌,
}
use mathlib.Core.Option.{map}
use stripe_sql.Storage.Ordering.{OrderingType, OrderingKey, key_type, compare_ordering_keys}
use stripe_sql.Storage.Page.Search.{is_lt}
use stripe_sql.Storage.Cache.{Node}
use stripe_sql.Storage.Table.{type_code}

abbrev pub Nodes : Type 0
Nodes = ℕ → Option Node

-- compareOrderingKeys(a, b) > 0
abbrev pub is_gt : Ordering → Bool
is_gt Ordering.lt = false
is_gt Ordering.eq = false
is_gt Ordering.gt = true

-- The inner loop of `findLeaf`: the child that the key belongs under. A round for each child is enough.
unfoldable pub child_loop : ℕ → Node → OrderingKey → ℕ → ℕ
child_loop zero leaf key i = i
child_loop (suc fuel) leaf key i =
    let rest = child_loop fuel leaf key (i + 1) in
    if ltb i (leaf.child_count - 1) && is_gt (compare_ordering_keys key (leaf.keys i))
    then rest
    else i

-- The loop of `findLeaf` over the levels of the tree, which has found `leaf` at `addr`. What it
-- returns, and the node that it has read last; 0 is a failure. `none` where it has not ended after
-- `fuel` rounds, as on a damaged tree where a node is below itself.
unfoldable pub descend : ℕ → Nodes → OrderingKey → ℕ → Node → Option (ℕ × Node)
descend zero nodes key addr leaf = if leaf.is_leaf then some (addr, leaf) else none
descend (suc fuel) nodes key addr leaf =
    let child = leaf.children (child_loop leaf.child_count leaf key 0) in
    let below : Option (ℕ × Node) = elim (nodes child) [
      | none ↦ some (0, leaf)
      | some n ↦ descend fuel nodes key child n
    ] in
    if leaf.is_leaf
    then some (addr, leaf)
    else if leaf.child_count == 0
    then some (0, leaf)
    else below

unfoldable pub find_leaf : ℕ → Nodes → OrderingType → ℕ → OrderingKey → Node → Option (ℕ × Node)
find_leaf fuel nodes type root key leaf =
    let found : Option (ℕ × Node) = elim (nodes root) [
      | none ↦ some (0, leaf)
      | some n ↦ descend fuel nodes key root n
    ] in
    if type_code (key_type key) == type_code type then found else some (0, leaf)

-- The loop of `findPageInLeaf`. Each round narrows [lo, hi), so `hi - lo` rounds are enough.
unfoldable pub page_loop : ℕ → Node → OrderingKey → ℕ → ℕ → ℕ
page_loop zero leaf key lo hi = lo
page_loop (suc fuel) leaf key lo hi =
    let mid = lo + (hi - lo) / 2 in
    let upper = page_loop fuel leaf key (mid + 1) hi in
    let lower = page_loop fuel leaf key lo mid in
    if ltb lo hi
    then (if is_lt (compare_ordering_keys (leaf.keys mid) key) then upper else lower)
    else lo

unfoldable pub find_page_in_leaf : Node → OrderingKey → ℕ
find_page_in_leaf leaf key = page_loop leaf.child_count leaf key 0 leaf.child_count

-- What `findPageAndLeaf` does with what `findLeaf` has found: the page's address, and the leaf's, which
-- is `leaf_out` where there is no page.
unfoldable pub page_at : OrderingKey → ℕ → ℕ × Node → ℕ × ℕ
page_at key leaf_out (leaf_addr, leaf) =
    let i = find_page_in_leaf leaf key in
    if leaf_addr == 0
    then (0, leaf_out)
    else if i == leaf.child_count
    then (0, leaf_out)
    else (leaf.children i, leaf_addr)

unfoldable pub find_page_and_leaf :
    ℕ → Nodes → OrderingType → ℕ → OrderingKey → Node → ℕ → Option (ℕ × ℕ)
find_page_and_leaf fuel nodes type root key blank leaf_out =
    map (page_at key leaf_out) (find_leaf fuel nodes type root key blank)

unfoldable pub find_page : ℕ → Nodes → OrderingType → ℕ → OrderingKey → Node → Option ℕ
find_page fuel nodes type root key blank =
    map (λ r. r.0) (find_page_and_leaf fuel nodes type root key blank 0)
