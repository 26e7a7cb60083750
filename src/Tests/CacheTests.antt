-- ===== src/Tests/CacheTests.antt =====
-- The node cache on concrete inputs.
use stripe_sql.Prelude.{ℕ, ◌≡◌, ◌↔◌, refl, arith, none, some, true, ◌&&◌, ◌==◌, if◌then◌else◌}
use stripe_sql.Storage.Ordering.{of_ulong}
use stripe_sql.Storage.Cache.{
  Node, NodeCache, node_cache_init, node_cache_offer, node_cache_remove, node_cache_clear,
  node_cache_get,
}
use stripe_sql.Storage.Cache.Probe.{IsCache}
use stripe_sql.Storage.Cache.Held.{held, HasAddr}
use stripe_sql.Storage.Cache.Remove.{held-remove}
use stripe_sql.Storage.Cache.Offer.{held-offer}
use stripe_sql.Storage.Cache.Init.{node_cache_init-IsCache, node_cache_clear-IsCache}

-- A node with `count` children under the node at 4096.
abbrev node_of : ℕ → Node
node_of count = record {
  children = λ i. i;
  keys = λ i. of_ulong i;
  parent = 4096;
  next = 0;
  prev = 0;
  child_count = count;
  max_key = of_ulong 9;
  is_leaf = true;
}

abbrev fresh : NodeCache
fresh = node_cache_init 3

abbrev one_node : NodeCache
one_node = (node_cache_offer fresh 4096 (node_of 1) 4096).0

abbrev two_nodes : NodeCache
two_nodes = (node_cache_offer one_node 5000 (node_of 2) 4096).0

gets_back : held two_nodes 5000 ≡ some (node_of 2)
unfolding node_cache_init node_cache_offer node_cache_get
gets_back = refl

removes_one :
    (held (node_cache_remove two_nodes 4096).0 5000 ≡ some (node_of 2))
    × (held (node_cache_remove two_nodes 4096).0 4096 ≡ none)
unfolding node_cache_init node_cache_offer node_cache_remove node_cache_get
removes_one = (refl, refl)

fresh-IsCache : IsCache fresh
fresh-IsCache = (node_cache_init-IsCache 3 0 (omega arith) (omega arith)).0

one_node-IsCache : IsCache one_node
one_node-IsCache =
    (held-offer fresh 4096 4096 (node_of 1) 4096 fresh-IsCache (λ e. ground (arith, e))).0

two_nodes-IsCache : IsCache two_nodes
two_nodes-IsCache =
    (held-offer one_node 5000 4096 (node_of 2) 4096 one_node-IsCache (λ e. ground (arith, e))).0

node_cache_init-IsCache_example :
    IsCache (node_cache_init 46)
    × ((node_cache_init 46).max_nodes ≡ 46)
    × (held (node_cache_init 46) 4096 ≡ none)
node_cache_init-IsCache_example = node_cache_init-IsCache 46 4096 (omega arith) (omega arith)

node_cache_clear-IsCache_example :
    IsCache (node_cache_clear two_nodes) × (held (node_cache_clear two_nodes) 4096 ≡ none)
node_cache_clear-IsCache_example = node_cache_clear-IsCache two_nodes 4096 two_nodes-IsCache

held-offer_example :
    IsCache (node_cache_offer one_node 5000 (node_of 2) 4096).0
    × (held (node_cache_offer one_node 5000 (node_of 2) 4096).0 4096 ≡ (
        if (node_cache_offer one_node 5000 (node_of 2) 4096).1 && 4096 == 5000
        then some (node_of 2)
        else held one_node 4096))
held-offer_example =
    held-offer one_node 5000 4096 (node_of 2) 4096 one_node-IsCache (λ e. ground (arith, e))

held-remove_example :
    IsCache (node_cache_remove two_nodes 4096).0
    × (((node_cache_remove two_nodes 4096).1 ≡ true) ↔ HasAddr two_nodes 4096)
    × (held (node_cache_remove two_nodes 4096).0 5000 ≡ (
        if (node_cache_remove two_nodes 4096).1 && 5000 == 4096 then none else held two_nodes 5000))
held-remove_example = held-remove two_nodes 4096 5000 two_nodes-IsCache (λ e. ground (arith, e))
