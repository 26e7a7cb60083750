-- ===== src/Storage/Cache/Init.antt =====
-- An empty cache: `nodeCacheInit` and `nodeCacheClear`.
use native.Mathlib.Nat.{pow-suc, one-le-pow}
use stripe_sql.Prelude.{
  ℕ, zero, suc, ◌*◌, ◌^◌, ◌<◌, ◌≤◌, ◌≡◌, inl, inr, refl, sym, ◌∙◌, subst, arith, none, false, Array,
  ltb, ◌==◌, if◌then◌else◌, Bool-cases, ltb→lt, ltb→le,
}
use stripe_sql.Prelude.Word.{u32}
use stripe_sql.Storage.Cache.{
  NodeCacheSlot, NodeCache, no_slot, no_cache, double_loop, node_cache_init, node_cache_clear,
}
use stripe_sql.Storage.Cache.Probe.{addr_at, occupied, IsCache}
use stripe_sql.Storage.Cache.Find.{find_slot-Stops}
use stripe_sql.Storage.Cache.Held.{held, held-none}

-- A power of two that is not less than `wanted`, and at most 2 ^ 31.
abbrev IsSize : ℕ → ℕ → Type 0
IsSize wanted size = (k : ℕ) × (size ≡ 2 ^ k) × (size ≤ 2 ^ 31) × (wanted ≤ size) × (0 < size)

below : {a c : ℕ} (b : ℕ) → 1 ≤ b → a * b ≡ c → a ≤ c
below zero h e = absurd (omega (arith, h))
below {a} {c} (suc b) h e = omega (arith, e)

double_loop-IsSize :
    (fuel m k size wanted : ℕ)
    → m ≤ fuel
    → size ≡ 2 ^ k
    → size * 2 ^ m ≡ 2 ^ 31
    → wanted ≤ 2 ^ 31
    → 0 < size
    → IsSize wanted (double_loop fuel wanted size)
unfolding double_loop
double_loop-IsSize zero zero k size wanted h e p w s =
    (k, e, omega (arith, p), omega (arith, p, w), s)
double_loop-IsSize zero (suc m) k size wanted h e p w s = absurd (omega (arith, h))
double_loop-IsSize (suc fuel) zero k size wanted h e p w s =
    rw big (k, e, omega (arith, p), omega (arith, p, w), s)
  where
    big : ltb size wanted ≡ false
    big = ground (arith, p, w)
double_loop-IsSize (suc fuel) (suc m) k size wanted h e p w s =
    elim (Bool-cases (ltb size wanted)) [
      | inl x ↦ rw x (
          rw (doubled (ltb→lt size wanted x)) (
            double_loop-IsSize fuel m (suc k) (size * 2) wanted (omega (arith, h)) power product w
              (omega (arith, s))))
      | inr x ↦
          rw x (
            k,
            e,
            below (2 ^ suc m) (one-le-pow (suc m) 2 (omega arith)) p,
            ltb→le size wanted x,
            s,
          )
    ]
  where
    product : size * 2 * 2 ^ m ≡ 2 ^ 31
    product = omega (arith, subst (λ t. size * t ≡ 2 ^ 31) (pow-suc 2 m) p)

    power : size * 2 ≡ 2 ^ suc k
    power = rw (pow-suc 2 k) (omega (arith, e))

    doubled : size < wanted → u32 (size * 2) ≡ size * 2
    doubled l = omega (arith, l, w)

nothing-occupied :
    (slots : Array NodeCacheSlot) (n : ℕ)
    → ((i : ℕ) → i < n → addr_at slots i ≡ 0)
    → occupied slots n ≡ 0
nothing-occupied slots zero h = refl
nothing-occupied slots (suc n) h =
    rw (h n (omega arith))
      (omega (arith, nothing-occupied slots n (λ i lt. h i (omega (arith, lt)))))

-- A table of empty slots that is large enough.
empty-IsCache :
    (c : NodeCache)
    → IsSize (2 * c.max_nodes) c.slot_count
    → c.count ≡ 0
    → ((i : ℕ) → i < c.slot_count → addr_at c.slots i ≡ 0)
    → IsCache c
empty-IsCache c (k, power, fits, half, pos) z h = record {
  log_size = k;
  power = power;
  fits = fits;
  some_slots = pos;
  half = half;
  bounded = omega (arith, z);
  counted = z ∙ sym (nothing-occupied c.slots c.slot_count h);
  reach = λ i lt f. absurd (f (h i lt));
  unique = λ i j lt lt' f e. absurd (f (h i lt));
}

-- For 1 to 2 ^ 30 nodes, `nodeCacheInit` makes a well-formed table, for that many nodes, in which
-- nothing is held.
pub node_cache_init-IsCache :
    (max_nodes addr : ℕ)
    → 0 < max_nodes
    → max_nodes ≤ 2 ^ 30
    → IsCache (node_cache_init max_nodes)
      × ((node_cache_init max_nodes).max_nodes ≡ max_nodes)
      × (held (node_cache_init max_nodes) addr ≡ none)
unfolding node_cache_init
node_cache_init-IsCache max_nodes addr pos le =
    rw some_nodes (well_formed, refl, held-none made well_formed addr refl)
  where
    some_nodes : (max_nodes == 0) ≡ false
    some_nodes = ground (arith, pos)

    small : u32 (2 * max_nodes) ≡ 2 * max_nodes
    small = omega (arith, le)

    made : NodeCache
    made = record no_cache {
      max_nodes = max_nodes;
      slot_count = double_loop 32 (u32 (2 * max_nodes)) 8;
    }

    well_formed : IsCache made
    well_formed =
        empty-IsCache made
          (rw small (
            double_loop-IsSize 32 28 3 8 (2 * max_nodes) (omega arith) refl refl (omega (arith, le))
              (omega arith)))
          refl (λ i lt. refl)

-- Clearing keeps the table well-formed and leaves nothing held.
pub node_cache_clear-IsCache :
    (c : NodeCache) (addr : ℕ)
    → IsCache c
    → IsCache (node_cache_clear c) × (held (node_cache_clear c) addr ≡ none)
unfolding node_cache_clear
node_cache_clear-IsCache c addr v = (
  well_formed,
  held-none cleared well_formed addr (emptied _ (find_slot-Stops cleared well_formed addr).0),
)
  where
    cleared : NodeCache
    cleared = record c { slots = λ i. if ltb i c.slot_count then no_slot else c.slots i; count = 0 }

    emptied : (i : ℕ) → i < c.slot_count → addr_at cleared.slots i ≡ 0
    emptied i lt = ground (arith, lt)

    well_formed : IsCache cleared
    well_formed =
        empty-IsCache cleared (v.log_size, v.power, v.fits, v.half, v.some_slots) refl emptied
