-- ===== src/Storage/Cache.antt =====
-- The cache of the nodes at the top of a tree, src/storage_engine/cache.c: an open-addressed table
-- of nodes under their addresses, with linear probing. `free` is the null pointer left behind.
pub mod Probe
pub mod Find
pub mod Held
pub mod Add
pub mod Offer
pub mod Init
pub mod Gap
pub mod Hole
pub mod Mask
pub mod Close
pub mod Left
pub mod Remove
use Prim.Native.Nat.{bit_and}
use stripe_sql.Prelude.{
  ℕ, zero, suc, ◌+◌, ◌-◌, ◌*◌, ◌/◌, ◌%◌, ◌^◌, Option, none, some, Bool, true, false, ◌&&◌, ◌||◌,
  not, Array, put, ltb, leb, ◌==◌, if◌then◌else◌,
}
use stripe_sql.Prelude.Word.{u32, sub32}
use stripe_sql.Storage.Ordering.{OrderingKey}

-- `node` of node.h.
pub record Node : Type 0 where
  pub children : Array ℕ
  pub keys : Array OrderingKey
  pub parent : ℕ
  pub next : ℕ
  pub prev : ℕ
  pub child_count : ℕ
  pub max_key : OrderingKey
  pub is_leaf : Bool

pub record NodeCacheSlot : Type 0 where
  pub addr : ℕ
  pub cached : Option Node

pub record NodeCache : Type 0 where
  pub slots : Array NodeCacheSlot
  pub slot_count : ℕ
  pub count : ℕ
  pub max_nodes : ℕ
  pub hits : ℕ
  pub misses : ℕ

-- (node_cache_slot){0}
abbrev pub no_slot : NodeCacheSlot
no_slot = record { addr = 0; cached = none }

-- (node_cache){0}
abbrev pub no_cache : NodeCache
no_cache = record {
  slots = λ _. no_slot;
  slot_count = 0;
  count = 0;
  max_nodes = 0;
  hits = 0;
  misses = 0;
}

-- x & (slotCount - 1)
abbrev pub wrapped : ℕ → ℕ → ℕ
wrapped slot_count x = bit_and x (slot_count - 1)

unfoldable pub home_slot : ℕ → ℕ → ℕ
home_slot slot_count addr = wrapped slot_count (addr * 0x9E3779B97F4A7C15 % 2 ^ 64 / 2 ^ 32)

-- The loop of `findSlot`, which comes to an empty slot within `slotCount` rounds.
unfoldable pub find_loop : ℕ → Array NodeCacheSlot → ℕ → ℕ → ℕ → ℕ
find_loop zero slots slot_count addr i = i
find_loop (suc fuel) slots slot_count addr i =
    let rest = find_loop fuel slots slot_count addr (wrapped slot_count (u32 (i + 1))) in
    if (slots i).addr == 0 || (slots i).addr == addr then i else rest

unfoldable pub find_slot : NodeCache → ℕ → ℕ
unfolding find_loop home_slot
find_slot c addr = find_loop c.slot_count c.slots c.slot_count addr (home_slot c.slot_count addr)

-- The loop of `emptySlot`: what it leaves in the slots, and the hole at its end.
unfoldable pub empty_loop : ℕ → Array NodeCacheSlot → ℕ → ℕ → ℕ → Array NodeCacheSlot × ℕ
unfolding home_slot
empty_loop zero slots slot_count hole j = (slots, hole)
empty_loop (suc fuel) slots slot_count hole j =
    let next = wrapped slot_count (u32 (j + 1)) in
    let moved = empty_loop fuel (put slots hole (slots j)) slot_count j next in
    let kept = empty_loop fuel slots slot_count hole next in
    let home = home_slot slot_count (slots j).addr in
    if (slots j).addr == 0
    then (slots, hole)
    else if leb (wrapped slot_count (sub32 j hole)) (wrapped slot_count (sub32 j home))
    then moved
    else kept

unfoldable pub empty_slot : NodeCache → ℕ → NodeCache
unfolding empty_loop
empty_slot c i =
    let freed = put c.slots i (record (c.slots i) { cached = none }) in
    let (slots, hole) =
      empty_loop c.slot_count freed c.slot_count i (wrapped c.slot_count (u32 (i + 1))) in
    record c { slots = put slots hole no_slot; count = sub32 c.count 1 }

-- The loop of `nodeCacheInit`. 32 rounds are enough where `wanted` is 2 ^ 31 at most.
unfoldable pub double_loop : ℕ → ℕ → ℕ → ℕ
double_loop zero wanted slot_count = slot_count
double_loop (suc fuel) wanted slot_count =
    let rest = double_loop fuel wanted (u32 (slot_count * 2)) in
    if ltb slot_count wanted then rest else slot_count

unfoldable pub node_cache_init : ℕ → NodeCache
unfolding double_loop
node_cache_init max_nodes = if max_nodes == 0 then no_cache else record no_cache {
  max_nodes = max_nodes;
  slot_count = double_loop 32 (u32 (2 * max_nodes)) 8;
}

unfoldable pub node_cache_clear : NodeCache → NodeCache
node_cache_clear c = record c {
  slots = λ i. if ltb i c.slot_count then no_slot else c.slots i;
  count = 0;
}

unfoldable pub node_cache_free : NodeCache → NodeCache
node_cache_free c = no_cache

-- `*out` is `some` where it is filled.
unfoldable pub node_cache_get : NodeCache → ℕ → NodeCache × Option Node
unfolding find_slot
node_cache_get c addr =
    let slot = c.slots (find_slot c addr) in
    if c.slot_count == 0
    then (c, none)
    else if slot.addr == 0
    then (record c { misses = (c.misses + 1) % 2 ^ 64 }, none)
    else (record c { hits = (c.hits + 1) % 2 ^ 64 }, slot.cached)

unfoldable pub node_cache_offer : NodeCache → ℕ → Node → ℕ → NodeCache × Bool
unfolding find_slot
node_cache_offer c addr n root =
    let i = find_slot c addr in
    let with_node = put c.slots i (record { addr = addr; cached = some n }) in
    if c.slot_count == 0 || addr == 0 || root == 0
    then (c, false)
    else if not (addr == root) && not (n.parent == root)
    then (c, false)
    else if (c.slots i).addr == 0
    then (if leb c.max_nodes c.count
        then (c, false)
        else (record c { slots = with_node; count = u32 (c.count + 1) }, true))
    else (record c { slots = put c.slots i (record (c.slots i) { cached = some n }) }, true)

unfoldable pub node_cache_update : NodeCache → ℕ → Node → NodeCache × Bool
unfolding find_slot
node_cache_update c addr n =
    let i = find_slot c addr in
    if c.slot_count == 0
    then (c, false)
    else if (c.slots i).addr == 0
    then (c, false)
    else (record c { slots = put c.slots i (record (c.slots i) { cached = some n }) }, true)

unfoldable pub node_cache_remove : NodeCache → ℕ → NodeCache × Bool
unfolding find_slot empty_slot
node_cache_remove c addr =
    let i = find_slot c addr in
    if c.slot_count == 0
    then (c, false)
    else if (c.slots i).addr == 0
    then (c, false)
    else (empty_slot c i, true)
