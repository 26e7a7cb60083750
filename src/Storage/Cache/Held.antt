-- ===== src/Storage/Cache/Held.antt =====
-- The node cache as a finite map: what `nodeCacheGet` gives after the other calls.
use stripe_sql.Prelude.{
  ℕ, zero, suc, ◌+◌, ◌%◌, ◌<◌, ◌≡◌, ◌≢◌, inl, inr, refl, sym, ap, ◌∙◌, subst, arith, Option, none,
  some, Array, put, ◌==◌, if◌then◌else◌,
}
use stripe_sql.Storage.Cache.{
  Node, NodeCacheSlot, NodeCache, home_slot, find_loop, find_slot, node_cache_get,
}
use stripe_sql.Storage.Cache.Probe.{addr_at, occupied, IsCache, Reaches}
use stripe_sql.Storage.Cache.Find.{find_slot-Stops, find_slot-found}

-- The node that `nodeCacheGet` copies out.
abbrev pub held : NodeCache → ℕ → Option Node
held c addr = (node_cache_get c addr).1

abbrev pub viewed : NodeCacheSlot → Option Node
viewed s = if s.addr == 0 then none else s.cached

abbrev pub view : Array NodeCacheSlot → ℕ → Option Node
view slots i = viewed (slots i)

-- The map, read off the slot that is found.
pub held-view :
    (c : NodeCache) (addr : ℕ) → 0 < c.slot_count → held c addr ≡ view c.slots (find_slot c addr)
unfolding node_cache_get
held-view c addr h = ground (arith, h)

find_loop-ext :
    (fuel : ℕ) (slots slots' : Array NodeCacheSlot) (n addr i : ℕ)
    → ((j : ℕ) → addr_at slots j ≡ addr_at slots' j)
    → find_loop fuel slots n addr i ≡ find_loop fuel slots' n addr i
unfolding find_loop
find_loop-ext zero slots slots' n addr i h = refl
find_loop-ext (suc fuel) slots slots' n addr i h =
    rw (h i) (rw (find_loop-ext fuel slots slots' n addr _ h) refl)

-- Slot `i` with a new copy of its node, or with a node.
abbrev pub renewed : NodeCache → ℕ → Node → NodeCache
renewed c i n = record c { slots = put c.slots i (record (c.slots i) { cached = some n }) }

find_slot-renewed :
    (c : NodeCache) (i addr : ℕ) (n : Node) → find_slot (renewed c i n) addr ≡ find_slot c addr
unfolding find_slot
find_slot-renewed c i addr n =
    find_loop-ext c.slot_count (renewed c i n).slots c.slots c.slot_count addr
      (home_slot c.slot_count addr) (λ j. ground arith)

pub put-there : (slots : Array NodeCacheSlot) (i : ℕ) (s : NodeCacheSlot) → put slots i s i ≡ s
put-there slots i s = ground arith

pub put-elsewhere :
    (slots : Array NodeCacheSlot) (i j : ℕ) (s : NodeCacheSlot) → j ≢ i → put slots i s j ≡ slots j
put-elsewhere slots i j s d = ground (arith, d)

module _ (c : NodeCache) (v : IsCache c) where
  -- A slot that is found and not empty has the address.
  pub found-addr :
      (addr : ℕ)
      → addr_at c.slots (find_slot c addr) ≢ 0
      → addr_at c.slots (find_slot c addr) ≡ addr
  found-addr addr f = elim (find_slot-Stops c v addr).1 [ inl z ↦ absurd (f z) | inr e ↦ e ]

  pub renewed-same :
      (addr : ℕ) (n : Node)
      → addr_at c.slots (find_slot c addr) ≢ 0
      → held (renewed c (find_slot c addr) n) addr ≡ some n
  renewed-same addr n f =
      held-view (renewed c (find_slot c addr) n) addr v.some_slots
      ∙ ap (view (renewed c (find_slot c addr) n).slots)
          (find_slot-renewed c (find_slot c addr) addr n)
      ∙ ap viewed (
          put-there c.slots (find_slot c addr)
            (record (c.slots (find_slot c addr)) { cached = some n }))
      ∙ full (c.slots (find_slot c addr)) f
    where
      full : (s : NodeCacheSlot) → s.addr ≢ 0 → viewed (record s { cached = some n }) ≡ some n
      full s d = ground (arith, d)

  pub renewed-other :
      (addr other : ℕ) (n : Node)
      → addr_at c.slots (find_slot c addr) ≢ 0
      → other ≢ addr
      → held (renewed c (find_slot c addr) n) other ≡ held c other
  renewed-other addr other n f d =
      held-view (renewed c (find_slot c addr) n) other v.some_slots
      ∙ ap (view (renewed c (find_slot c addr) n).slots)
          (find_slot-renewed c (find_slot c addr) other n)
      ∙ ap viewed (
          put-elsewhere c.slots (find_slot c addr) (find_slot c other)
            (record (c.slots (find_slot c addr)) { cached = some n }) apart)
      ∙ sym (held-view c other v.some_slots)
    where
      apart : find_slot c other ≢ find_slot c addr
      apart e = d (
          sym (found-addr other (λ z. f (ap (addr_at c.slots) (sym e) ∙ z)))
          ∙ ap (addr_at c.slots) e
          ∙ found-addr addr f)

  -- What a full slot of the table has, the cache holds.
  pub held-at :
      (j : ℕ)
      → j < c.slot_count
      → addr_at c.slots j ≢ 0
      → held c (addr_at c.slots j) ≡ (c.slots j).cached
  held-at j h f =
      held-view c (addr_at c.slots j) v.some_slots
      ∙ ap (view c.slots) (find_slot-found c v j h f)
      ∙ full (c.slots j) f
    where
      full : (s : NodeCacheSlot) → s.addr ≢ 0 → viewed s ≡ s.cached
      full s d = ground (arith, d)

  pub held-none : (addr : ℕ) → addr_at c.slots (find_slot c addr) ≡ 0 → held c addr ≡ none
  held-none addr z = held-view c addr v.some_slots ∙ empty (c.slots (find_slot c addr)) z
    where
      empty : (s : NodeCacheSlot) → s.addr ≡ 0 → viewed s ≡ none
      empty s e = ground (arith, e)

occupied-ext :
    (slots slots' : Array NodeCacheSlot) (n : ℕ)
    → ((j : ℕ) → addr_at slots j ≡ addr_at slots' j)
    → occupied slots n ≡ occupied slots' n
occupied-ext slots slots' zero h = refl
occupied-ext slots slots' (suc n) h = rw (h n) (rw (occupied-ext slots slots' n h) refl)

-- A new copy of a node does not move the addresses.
pub renewed-IsCache : (c : NodeCache) → IsCache c → (i : ℕ) (n : Node) → IsCache (renewed c i n)
renewed-IsCache c v i n = record {
  log_size = v.log_size;
  power = v.power;
  fits = v.fits;
  some_slots = v.some_slots;
  half = v.half;
  bounded = v.bounded;
  counted = v.counted ∙ occupied-ext c.slots (renewed c i n).slots c.slot_count (λ j. sym (kept j));
  reach = λ j h f.
      subst (λ a. Reaches (renewed c i n).slots c.slot_count (home_slot c.slot_count a) j)
        (sym (kept j))
        (moved (home_slot c.slot_count (addr_at c.slots j)) j (v.reach j h (λ z. f (kept j ∙ z))));
  unique = λ j k hj hk f e. v.unique j k hj hk (λ z. f (kept j ∙ z)) (sym (kept j) ∙ e ∙ kept k);
}
  where
    kept : (j : ℕ) → addr_at (renewed c i n).slots j ≡ addr_at c.slots j
    kept j = ground arith

    moved :
        (p j : ℕ)
        → Reaches c.slots c.slot_count p j
        → Reaches (renewed c i n).slots c.slot_count p j
    moved p j (d, lt, at, full) =
        (d, lt, at, λ k h z. full k h (sym (kept ((p + k) % c.slot_count)) ∙ z))

-- The table has the address in one of its slots.
abbrev pub HasAddr : NodeCache → ℕ → Type 0
HasAddr c addr = (addr ≢ 0) × ((j : ℕ) × (j < c.slot_count) × (addr_at c.slots j ≡ addr))

pub found-HasAddr :
    (c : NodeCache)
    → IsCache c
    → (addr : ℕ) → addr_at c.slots (find_slot c addr) ≢ 0
    → HasAddr c addr
found-HasAddr c v addr full =
    let same : addr_at c.slots (find_slot c addr) ≡ addr = found-addr c v addr full in
    ((λ z. full (same ∙ z)), (find_slot c addr, (find_slot-Stops c v addr).0, same))

pub HasAddr-found :
    (c : NodeCache)
    → IsCache c
    → (addr : ℕ) → HasAddr c addr
    → addr_at c.slots (find_slot c addr) ≢ 0
HasAddr-found c v addr (d, (j, h, e)) z = d (
    sym e
    ∙ ap (addr_at c.slots) (sym (find_slot-found c v j h (λ y. d (sym e ∙ y))) ∙ ap (find_slot c) e)
    ∙ z)
