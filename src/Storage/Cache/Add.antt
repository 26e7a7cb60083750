-- ===== src/Storage/Cache/Add.antt =====
-- A node that is put into the empty slot that was found for it.
use stripe_sql.Prelude.{
  ℕ, zero, suc, ◌+◌, ◌%◌, ◌<◌, ◌≡◌, ◌≢◌, inl, inr, sym, ap, ◌∙◌, subst, arith, none, some, Array,
  put, ltb, ◌==◌, if◌then◌else◌, Bool-cases, ==_iff,
}
use stripe_sql.Prelude.Word.{u32}
use stripe_sql.Storage.Cache.{Node, NodeCacheSlot, NodeCache, home_slot, find_slot}
use stripe_sql.Storage.Cache.Probe.{addr_at, occupied, IsCache, Reaches}
use stripe_sql.Storage.Cache.Find.{find_slot-Stops, find_slot-found}
use stripe_sql.Storage.Cache.Held.{held, found-addr, held-at, held-none, put-there, put-elsewhere}

pub occupied-put :
    (slots : Array NodeCacheSlot) (i : ℕ) (s : NodeCacheSlot) (n : ℕ)
    → addr_at slots i ≡ 0
    → s.addr ≢ 0
    → occupied (put slots i s) n ≡ (if ltb i n then suc (occupied slots n) else occupied slots n)
occupied-put slots i s zero z f = ground arith
occupied-put slots i s (suc n) z f = ground (arith, z, f, occupied-put slots i s n z f)

module _ (c : NodeCache) (v : IsCache c) (addr : ℕ) (n : Node) (real : addr ≢ 0) where
  abbrev i : ℕ
  i = find_slot c addr

  abbrev pub slot : NodeCacheSlot
  slot = record { addr = addr; cached = some n }

  abbrev pub added : NodeCache
  added = record c { slots = put c.slots i slot; count = u32 (c.count + 1) }

  module _ (empty : addr_at c.slots i ≡ 0) (spare : c.count < c.max_nodes) where
    still_full : (j : ℕ) → addr_at c.slots j ≢ 0 → addr_at added.slots j ≢ 0
    still_full j f z = ground (arith, f, z, real)

    at_slot : addr_at added.slots i ≡ addr
    at_slot = ap (λ s. s.addr) (put-there c.slots i slot)

    elsewhere : (j : ℕ) → j ≢ i → addr_at added.slots j ≡ addr_at c.slots j
    elsewhere j d = ap (λ s. s.addr) (put-elsewhere c.slots i j slot d)

    still-Reaches :
        (p j : ℕ) → Reaches c.slots c.slot_count p j → Reaches added.slots c.slot_count p j
    still-Reaches p j (d, lt, at, full) =
        (d, lt, at, λ k h. still_full ((p + k) % c.slot_count) (full k h))

    added-reach :
        (j : ℕ)
        → j < c.slot_count
        → addr_at added.slots j ≢ 0
        → Reaches added.slots c.slot_count (home_slot c.slot_count (addr_at added.slots j)) j
    added-reach j h f = elim (Bool-cases (j == i)) [
      | inl x ↦
          let e : j ≡ i = (==_iff j i).0 x in
          subst
            (λ t.
              Reaches added.slots c.slot_count (home_slot c.slot_count (addr_at added.slots t)) t)
            (sym e)
            (subst (λ a. Reaches added.slots c.slot_count (home_slot c.slot_count a) i)
              (sym at_slot)
              (still-Reaches (home_slot c.slot_count addr) i (find_slot-Stops c v addr).2))
      | inr x ↦
          let d : j ≢ i = λ e. ground (arith, x, e) in
          subst (λ a. Reaches added.slots c.slot_count (home_slot c.slot_count a) j)
            (sym (elsewhere j d))
            (still-Reaches (home_slot c.slot_count (addr_at c.slots j)) j
              (v.reach j h (λ z. f (elsewhere j d ∙ z))))
    ]

    -- Another slot that has the address would have been found.
    no_other : (k : ℕ) → k < c.slot_count → k ≢ i → addr ≢ addr_at c.slots k
    no_other k h d e =
        d (sym (find_slot-found c v k h (λ z. real (e ∙ z))) ∙ ap (find_slot c) (sym e))

    added_unique :
        (j k : ℕ)
        → j < c.slot_count
        → k < c.slot_count
        → addr_at added.slots j ≢ 0
        → addr_at added.slots j ≡ addr_at added.slots k
        → j ≡ k
    added_unique j k hj hk f e = elim (Bool-cases (j == i)) [
      | inl x ↦ elim (Bool-cases (k == i)) [
        | inl y ↦ ground (arith, x, y)
        | inr y ↦
            let d : k ≢ i = λ t. ground (arith, y, t) in
            absurd (
              no_other k hk d (
                sym at_slot
                ∙ ap (addr_at added.slots) (sym ((==_iff j i).0 x))
                ∙ e
                ∙ elsewhere k d))
      ]
      | inr x ↦
          let dj : j ≢ i = λ t. ground (arith, x, t) in
          elim (Bool-cases (k == i)) [
            | inl y ↦ absurd (
                no_other j hj dj (
                  sym at_slot
                  ∙ ap (addr_at added.slots) (sym ((==_iff k i).0 y))
                  ∙ sym e
                  ∙ elsewhere j dj))
            | inr y ↦
                let dk : k ≢ i = λ t. ground (arith, y, t) in
                v.unique j k hj hk (λ z. f (elsewhere j dj ∙ z))
                  (sym (elsewhere j dj) ∙ e ∙ elsewhere k dk)
          ]
    ]

    pub added-IsCache : IsCache added
    added-IsCache = record {
      log_size = v.log_size;
      power = v.power;
      fits = v.fits;
      some_slots = v.some_slots;
      half = v.half;
      bounded = omega (arith, spare);
      counted = ground (
        arith,
        v.counted,
        v.half,
        v.fits,
        spare,
        (find_slot-Stops c v addr).0,
        occupied-put c.slots i slot c.slot_count empty real,
      );
      reach = added-reach;
      unique = added_unique;
    }

    pub added-same : held added addr ≡ some n
    added-same =
        ap (held added) (sym at_slot)
        ∙ held-at added added-IsCache i (find_slot-Stops c v addr).0 (λ z. real (sym at_slot ∙ z))
        ∙ ap (λ s. s.cached) (put-there c.slots i slot)

    added-held :
        (other : ℕ)
        → other ≢ addr
        → addr_at c.slots (find_slot c other) ≢ 0
        → held added other ≡ held c other
    added-held other d f =
        ap (held added) (sym (found-addr c v other f) ∙ sym (elsewhere j apart))
        ∙ held-at added added-IsCache j within (λ z. f (sym (elsewhere j apart) ∙ z))
        ∙ ap (λ s. s.cached) (put-elsewhere c.slots i j slot apart)
        ∙ sym (held-at c v j within f)
        ∙ ap (held c) (found-addr c v other f)
      where
        j : ℕ
        j = find_slot c other

        within : j < c.slot_count
        within = (find_slot-Stops c v other).0

        apart : j ≢ i
        apart e = f (ap (addr_at c.slots) e ∙ empty)

    added-none :
        (other : ℕ)
        → other ≢ 0
        → other ≢ addr
        → addr_at c.slots (find_slot c other) ≡ 0
        → held added other ≡ none
    added-none other r d z = elim (find_slot-Stops added added-IsCache other).1 [
      | inl e ↦ held-none added added-IsCache other e
      | inr e ↦ elim (Bool-cases (j == i)) [
        | inl x ↦ absurd (d (sym e ∙ ap (addr_at added.slots) ((==_iff j i).0 x) ∙ at_slot))
        | inr x ↦ absurd (r (missed (λ t. ground (arith, x, t)) e))
      ]
    ]
      where
        j : ℕ
        j = find_slot added other

        missed : j ≢ i → addr_at added.slots j ≡ other → other ≡ 0
        missed apart e =
            let old : addr_at c.slots j ≡ other = sym (elsewhere j apart) ∙ e in
            sym old
            ∙ ap (addr_at c.slots) (
                sym (
                  find_slot-found c v j (find_slot-Stops added added-IsCache other).0
                    (λ t. r (sym old ∙ t))))
            ∙ ap (λ a. addr_at c.slots (find_slot c a)) old
            ∙ z

    pub added-other : (other : ℕ) → other ≢ 0 → other ≢ addr → held added other ≡ held c other
    added-other other r d = elim (Bool-cases (addr_at c.slots (find_slot c other) == 0)) [
      | inl x ↦
          let z : addr_at c.slots (find_slot c other) ≡ 0 =
            (==_iff (addr_at c.slots (find_slot c other)) 0).0 x in
          added-none other r d z ∙ sym (held-none c v other z)
      | inr x ↦ added-held other d (λ z. ground (arith, x, z))
    ]
