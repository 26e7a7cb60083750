-- ===== src/Storage/Cache/Remove.antt =====
-- A node that is dropped from the cache: `nodeCacheRemove` and `emptySlot`.
use stripe_sql.Prelude.{
  ℕ, ◌<◌, ◌≡◌, ◌≢◌, ◌↔◌, inl, inr, refl, sym, ap, ◌∙◌, arith, none, true, false, ◌&&◌, ◌==◌,
  if◌then◌else◌, Bool-cases, ==_iff,
}
use stripe_sql.Storage.Cache.{NodeCache, find_slot, empty_slot, node_cache_remove}
use stripe_sql.Storage.Cache.Probe.{addr_at, IsCache}
use stripe_sql.Storage.Cache.Find.{find_slot-Stops}
use stripe_sql.Storage.Cache.Held.{held, found-addr, HasAddr, found-HasAddr, HasAddr-found}
use stripe_sql.Storage.Cache.Left.{left, left-IsCache, left-same, left-other}

remove-hit :
    (c : NodeCache) (addr : ℕ) (v : IsCache c) (full : addr_at c.slots (find_slot c addr) ≢ 0)
    → node_cache_remove c addr
      ≡ (left c v (find_slot c addr) (find_slot-Stops c v addr).0 full, true)
unfolding node_cache_remove empty_slot
remove-hit c addr v full = rw not_empty (rw filled refl)
  where
    not_empty : (c.slot_count == 0) ≡ false
    not_empty = ground (arith, v.some_slots)

    filled : (addr_at c.slots (find_slot c addr) == 0) ≡ false
    filled = ground (arith, full)

remove-miss :
    (c : NodeCache) (addr : ℕ)
    → 0 < c.slot_count
    → addr_at c.slots (find_slot c addr) ≡ 0
    → node_cache_remove c addr ≡ (c, false)
unfolding node_cache_remove
remove-miss c addr h z = rw not_empty (rw empty refl)
  where
    not_empty : (c.slot_count == 0) ≡ false
    not_empty = ground (arith, h)

    empty : (addr_at c.slots (find_slot c addr) == 0) ≡ true
    empty = ground (arith, z)

-- A removal keeps the table well-formed. It says that the cache had the address if and only if a slot of
-- the table has it, and then the cache has it no more; every other address keeps what it had.
pub held-remove :
    (c : NodeCache) (addr other : ℕ)
    → IsCache c
    → other ≢ 0
    → IsCache (node_cache_remove c addr).0
      × (((node_cache_remove c addr).1 ≡ true) ↔ HasAddr c addr)
      × (held (node_cache_remove c addr).0 other
          ≡ (if (node_cache_remove c addr).1 && other == addr then none else held c other))
held-remove c addr other v r = elim (Bool-cases (addr_at c.slots (find_slot c addr) == 0)) [
  | inl x ↦
      let empty : addr_at c.slots (find_slot c addr) ≡ 0 =
        (==_iff (addr_at c.slots (find_slot c addr)) 0).0 x in
      rw (remove-miss c addr v.some_slots empty)
        (v, ((λ e. ground (arith, e)), (λ has. absurd (HasAddr-found c v addr has empty))), refl)
  | inr x ↦
      let full : addr_at c.slots (find_slot c addr) ≢ 0 = λ z. ground (arith, x, z) in
      let same : addr_at c.slots (find_slot c addr) ≡ addr = found-addr c v addr full in
      let lt = (find_slot-Stops c v addr).0 in
      rw (remove-hit c addr v full) (
        left-IsCache c v (find_slot c addr) lt full,
        ((λ _. found-HasAddr c v addr full), (λ _. refl)),
        elim (Bool-cases (other == addr)) [
          | inl y ↦ rw y (
              ap (held (left c v (find_slot c addr) lt full)) ((==_iff other addr).0 y ∙ sym same)
              ∙ left-same c v (find_slot c addr) lt full)
          | inr y ↦
              rw y (
                left-other c v (find_slot c addr) lt full other r
                  (λ q. ground (arith, y, q ∙ same)))
        ],
      )
]
