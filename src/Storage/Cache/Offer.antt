-- ===== src/Storage/Cache/Offer.antt =====
-- A node that is offered to the cache: `nodeCacheOffer`.
use stripe_sql.Prelude.{
  ℕ, ◌+◌, ◌<◌, ◌≡◌, ◌≢◌, ◌⊎◌, inl, inr, refl, sym, subst, arith, Option, some, Bool, true, false,
  ◌&&◌, ◌||◌, not, put, leb, ◌==◌, if◌then◌else◌, Bool-cases, ==_iff,
}
use stripe_sql.Prelude.Word.{u32}
use stripe_sql.Storage.Cache.{Node, NodeCache, find_slot, node_cache_offer}
use stripe_sql.Storage.Cache.Probe.{addr_at, IsCache}
use stripe_sql.Storage.Cache.Held.{held, renewed, renewed-same, renewed-other, renewed-IsCache}
use stripe_sql.Storage.Cache.Add.{added-IsCache, added-same, added-other, added}

-- The branches of `nodeCacheOffer`.
module _ (c : NodeCache) (addr : ℕ) (n : Node) (root : ℕ) (h : 0 < c.slot_count) where
  not_empty : (c.slot_count == 0) ≡ false
  not_empty = ground (arith, h)

  at_zero : Bool
  at_zero = addr == 0 || root == 0

  not_top : Bool
  not_top = not (addr == root) && not (n.parent == root)

  -- Nothing happens; or there is a free slot, room, and the node goes there; or the cache has the
  -- address, and the node replaces the old one.
  offer-cases :
      (node_cache_offer c addr n root ≡ (c, false))
      ⊎ (((addr ≢ 0)
            × (addr_at c.slots (find_slot c addr) ≡ 0)
            × (c.count < c.max_nodes)
            × (node_cache_offer c addr n root ≡ (
              record c {
                slots = put c.slots (find_slot c addr) (record { addr = addr; cached = some n });
                count = u32 (c.count + 1);
              },
              true,
            )))
          ⊎ ((addr_at c.slots (find_slot c addr) ≢ 0)
              × (node_cache_offer c addr n root ≡ (renewed c (find_slot c addr) n, true))))
  unfolding node_cache_offer at_zero not_top
  offer-cases = elim (Bool-cases at_zero) [
    | inl x ↦ inl (rw not_empty (rw x refl))
    | inr x ↦ elim (Bool-cases not_top) [
      | inl y ↦ inl (rw not_empty (rw x (rw y refl)))
      | inr y ↦ elim (Bool-cases (addr_at c.slots (find_slot c addr) == 0)) [
        | inl z ↦ elim (Bool-cases (leb c.max_nodes c.count)) [
          | inl w ↦ inl (rw not_empty (rw x (rw y (rw z (rw w refl)))))
          | inr w ↦ inr (
              inl (
                (λ e. ground (arith, x, e)),
                (==_iff (addr_at c.slots (find_slot c addr)) 0).0 z,
                ground (arith, w),
                rw not_empty (rw x (rw y (rw z (rw w refl)))),
              ))
        ]
        | inr z ↦ inr (inr ((λ e. ground (arith, z, e)), rw not_empty (rw x (rw y (rw z refl)))))
      ]
    ]
  ]

-- An offer keeps the table well-formed. If the cache says that it has the node now, it holds this
-- node under the address; every other address, and each one where it says no, keeps what it had.
pub held-offer :
    (c : NodeCache) (addr other : ℕ) (n : Node) (root : ℕ)
    → IsCache c
    → other ≢ 0
    → IsCache (node_cache_offer c addr n root).0
      × (held (node_cache_offer c addr n root).0 other
          ≡ (if (node_cache_offer c addr n root).1 && other == addr then some n else held c other))
held-offer c addr other n root v r = elim (offer-cases c addr n root v.some_slots) [
  | inl e ↦ rw e (v, refl)
  | inr (inl (real, empty, spare, e)) ↦ rw e (
    added-IsCache c v addr n real empty spare,
    by_address (held (added c v addr n real) other) (held c other)
        (λ same.
          subst (λ o. held (added c v addr n real) o ≡ some n) (sym same)
            (added-same c v addr n real empty spare))
        (added-other c v addr n real empty spare other r),
  )
  | inr (inr (full, e)) ↦ rw e (
    renewed-IsCache c v (find_slot c addr) n,
    by_address (held (renewed c (find_slot c addr) n) other) (held c other)
        (λ same.
          subst (λ o. held (renewed c (find_slot c addr) n) o ≡ some n) (sym same)
            (renewed-same c v addr n full))
        (renewed-other c v addr other n full),
  )
]
  where
    by_address :
        (a b : Option Node)
        → (other ≡ addr → a ≡ some n)
        → (other ≢ addr → a ≡ b)
        → a ≡ (if other == addr then some n else b)
    by_address a b same apart = elim (Bool-cases (other == addr)) [
      | inl x ↦ rw x (same ((==_iff other addr).0 x))
      | inr x ↦ rw x (apart (λ e. ground (arith, x, e)))
    ]
