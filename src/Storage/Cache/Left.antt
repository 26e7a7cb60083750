-- ===== src/Storage/Cache/Left.antt =====
-- The table that `emptySlot` leaves.
use stripe_sql.Prelude.{
  ℕ, ◌+◌, ◌-◌, ◌%◌, ◌<◌, ◌≡◌, ◌≢◌, inl, inr, sym, ap, ◌∙◌, subst, arith, none, Array, put, ◌==◌,
  Bool-cases, ==_iff,
}
use stripe_sql.Prelude.Word.{u32, sub32}
use stripe_sql.Storage.Cache.{
  NodeCacheSlot, NodeCache, no_slot, home_slot, find_slot, empty_loop, wrapped,
}
use stripe_sql.Storage.Cache.Probe.{addr_at, occupied, Reaches, IsCache, next}
use stripe_sql.Storage.Cache.Find.{find_slot-Stops, find_slot-found, empty_one}
use stripe_sql.Storage.Cache.Held.{held, held-at, held-none, found-addr, put-there, put-elsewhere}
use stripe_sql.Storage.Cache.Add.{occupied-put}
use stripe_sql.Storage.Cache.Gap.{holed, ahead, ahead-lt, ahead-mod, IsGap, Through}
use stripe_sql.Storage.Cache.Close.{IsClosed, empty_loop-IsClosed, occupied-same}

module _ (c : NodeCache) (v : IsCache c) (i : ℕ) (lt : i < c.slot_count)
    (full : addr_at c.slots i ≢ 0) where
  abbrev n : ℕ
  n = c.slot_count

  abbrev freed : Array NodeCacheSlot
  freed = put c.slots i (record (c.slots i) { cached = none })

  freed-addr : (x : ℕ) → addr_at freed x ≡ addr_at c.slots x
  freed-addr x = ground arith

  freed-IsGap : IsGap freed n i 1
  freed-IsGap = record {
    within = lt;
    started = omega arith;
    full = λ k h l. absurd (omega (arith, h, l));
    through = λ x h d f.
        subst (λ a. Through freed n i (home_slot n a) x) (sym (freed-addr x))
          (straight (home_slot n (addr_at c.slots x)) x (v.reach x h (λ z. f (freed-addr x ∙ z))));
    strong = λ k h l. absurd (omega (arith, h, l));
  }
    where
      straight : (p x : ℕ) → Reaches c.slots n p x → Through freed n i p x
      straight p x (d, dl, at, before) =
          (d, dl, at, λ k h. inl (λ z. before k h (sym (freed-addr ((p + k) % n)) ∙ z)))

  abbrev out : Array NodeCacheSlot × ℕ
  out = empty_loop n freed n i (wrapped n (u32 (i + 1)))

  out-IsClosed : IsClosed freed n i out
  out-IsClosed =
      subst (λ j. IsClosed freed n i (empty_loop n freed n i j))
        (sym (next freed v.log_size n v.power v.fits v.some_slots i lt)) (closes (empty_one c v))
    where
      closes :
          (e : ℕ) × (e < n) × (addr_at c.slots e ≡ 0)
          → IsClosed freed n i (empty_loop n freed n i ((i + 1) % n))
      closes (e, el, z) =
          empty_loop-IsClosed v.log_size n v.power v.fits v.some_slots n (ahead n i e - 1) 1 freed i
            freed-IsGap (omega (arith, positive, ahead-lt n i e lt el))
            (omega (arith, positive, ahead-lt n i e lt el))
            (ap (λ d. addr_at freed ((i + d) % n)) whole
              ∙ ap (addr_at freed) (ahead-mod n i e lt el)
              ∙ freed-addr e
              ∙ z)
        where
          apart : i ≢ e
          apart q = full (ap (addr_at c.slots) q ∙ z)

          positive : 0 < ahead n i e
          positive = ground (arith, apart, lt, el)

          whole : 1 + (ahead n i e - 1) ≡ ahead n i e
          whole = omega (arith, positive)

  abbrev pub table : Array NodeCacheSlot
  table = holed out.0 out.1

  abbrev pub left : NodeCache
  left = record c { slots = table; count = sub32 c.count 1 }

  -- A full slot of the new table is a full slot of the old one, and not the removed one.
  old_slot :
      (x : ℕ)
      → x < n
      → addr_at table x ≢ 0
      → (out-IsClosed.to x ≢ i) × (table x ≡ c.slots (out-IsClosed.to x))
  old_slot x h f = (apart, out-IsClosed.same x h ∙ kept (out-IsClosed.to x) apart)
    where
      apart : out-IsClosed.to x ≢ i
      apart q = f (
          ap (λ s. s.addr) (out-IsClosed.same x h)
          ∙ ap (addr_at (holed freed i)) q
          ∙ ap (λ s. s.addr) (put-there freed i no_slot))

      kept : (y : ℕ) → y ≢ i → holed freed i y ≡ c.slots y
      kept y d =
          put-elsewhere freed i y no_slot d
          ∙ put-elsewhere c.slots i y (record (c.slots i) { cached = none }) d

  left-count : sub32 c.count 1 ≡ occupied table n
  left-count = ground (
    arith,
    v.counted,
    v.bounded,
    v.half,
    v.fits,
    lt,
    out-IsClosed.count,
    occupied-same c.slots (put (holed freed i) i (c.slots i)) n (λ x h. put_back x),
    occupied-put (holed freed i) i (c.slots i) n (ap (λ s. s.addr) (put-there freed i no_slot))
        full,
  )
    where
      put_back : (x : ℕ) → addr_at c.slots x ≡ addr_at (put (holed freed i) i (c.slots i)) x
      put_back x = ground arith

  left-reach :
      (x : ℕ) → x < n → addr_at table x ≢ 0 → Reaches table n (home_slot n (addr_at table x)) x
  left-reach x h f =
      subst (λ a. Reaches table n (home_slot n a) x) (sym same)
        (out-IsClosed.reaches x h apart (λ z. f (same ∙ z)))
    where
      apart : x ≢ out.1
      apart q = f (ap (addr_at table) q ∙ ap (λ s. s.addr) (put-there out.0 out.1 no_slot))

      same : addr_at table x ≡ addr_at out.0 x
      same = ap (λ s. s.addr) (put-elsewhere out.0 out.1 x no_slot apart)

  left_unique :
      (x y : ℕ) → x < n → y < n → addr_at table x ≢ 0 → addr_at table x ≡ addr_at table y → x ≡ y
  left_unique x y hx hy f e =
      let (dx, sx) = old_slot x hx f in
      let (dy, sy) = old_slot y hy (λ z. f (e ∙ z)) in
      sym (out-IsClosed.from_to x hx)
      ∙ ap out-IsClosed.from (
          v.unique (out-IsClosed.to x) (out-IsClosed.to y) (out-IsClosed.to_below x hx)
            (out-IsClosed.to_below y hy) (λ z. f (ap (λ s. s.addr) sx ∙ z))
            (sym (ap (λ s. s.addr) sx) ∙ e ∙ ap (λ s. s.addr) sy))
      ∙ out-IsClosed.from_to y hy

  pub left-IsCache : IsCache left
  left-IsCache = record {
    log_size = v.log_size;
    power = v.power;
    fits = v.fits;
    some_slots = v.some_slots;
    half = v.half;
    bounded = omega (arith, v.bounded, v.half, v.fits, at_least);
    counted = left-count;
    reach = left-reach;
    unique = left_unique;
  }
    where
      at_least : 0 < c.count
      at_least = ground (
        arith,
        v.counted,
        lt,
        occupied-same c.slots (put (holed freed i) i (c.slots i)) n (λ x h. put_back x),
        occupied-put (holed freed i) i (c.slots i) n (ap (λ s. s.addr) (put-there freed i no_slot))
            full,
      )
        where
          put_back : (x : ℕ) → addr_at c.slots x ≡ addr_at (put (holed freed i) i (c.slots i)) x
          put_back x = ground arith

  pub left-same : held left (addr_at c.slots i) ≡ none
  left-same = elim (find_slot-Stops left left-IsCache (addr_at c.slots i)).1 [
    | inl z ↦ held-none left left-IsCache (addr_at c.slots i) z
    | inr e ↦ absurd (gone e)
  ]
    where
      x : ℕ
      x = find_slot left (addr_at c.slots i)

      below : x < n
      below = (find_slot-Stops left left-IsCache (addr_at c.slots i)).0

      gone : addr_at table x ≢ addr_at c.slots i
      gone e =
          let (d, s) = old_slot x below (λ z. full (sym e ∙ z)) in
          d (
            sym (
              v.unique i (out-IsClosed.to x) lt (out-IsClosed.to_below x below) full
                (sym e ∙ ap (λ t. t.addr) s)))

  left-held :
      (y : ℕ)
      → y < n
      → y ≢ i
      → addr_at c.slots y ≢ 0
      → held left (addr_at c.slots y) ≡ held c (addr_at c.slots y)
  left-held y h d f =
      ap (held left) (sym (ap (λ s. s.addr) moved_there))
      ∙ held-at left left-IsCache x below (λ z. f (sym (ap (λ s. s.addr) moved_there) ∙ z))
      ∙ ap (λ s. s.cached) moved_there
      ∙ sym (held-at c v y h f)
    where
      x : ℕ
      x = out-IsClosed.from y

      below : x < n
      below = out-IsClosed.from_below y h

      moved_there : table x ≡ c.slots y
      moved_there =
          out-IsClosed.same x below
          ∙ ap (holed freed i) (out-IsClosed.to_from y h)
          ∙ put-elsewhere freed i y no_slot d
          ∙ put-elsewhere c.slots i y (record (c.slots i) { cached = none }) d

  left-none :
      (other : ℕ) → other ≢ 0 → addr_at c.slots (find_slot c other) ≡ 0 → held left other ≡ none
  left-none other r z = elim (find_slot-Stops left left-IsCache other).1 [
    | inl e ↦ held-none left left-IsCache other e
    | inr e ↦ absurd (r (missed e))
  ]
    where
      x : ℕ
      x = find_slot left other

      below : x < n
      below = (find_slot-Stops left left-IsCache other).0

      missed : addr_at table x ≡ other → other ≡ 0
      missed e =
          let (d, s) = old_slot x below (λ t. r (sym e ∙ t)) in
          let old : addr_at c.slots (out-IsClosed.to x) ≡ other = sym (ap (λ t. t.addr) s) ∙ e in
          sym old
          ∙ ap (addr_at c.slots) (
              sym (
                find_slot-found c v (out-IsClosed.to x) (out-IsClosed.to_below x below)
                  (λ t. r (sym old ∙ t))))
          ∙ ap (λ a. addr_at c.slots (find_slot c a)) old
          ∙ z

  pub left-other :
      (other : ℕ) → other ≢ 0 → other ≢ addr_at c.slots i → held left other ≡ held c other
  left-other other r d = elim (Bool-cases (addr_at c.slots (find_slot c other) == 0)) [
    | inl x ↦
        let z : addr_at c.slots (find_slot c other) ≡ 0 =
          (==_iff (addr_at c.slots (find_slot c other)) 0).0 x in
        left-none other r z ∙ sym (held-none c v other z)
    | inr x ↦
        let f : addr_at c.slots (find_slot c other) ≢ 0 = λ z. ground (arith, x, z) in
        let same : addr_at c.slots (find_slot c other) ≡ other = found-addr c v other f in
        ap (held left) (sym same)
        ∙ left-held (find_slot c other) (find_slot-Stops c v other).0
            (λ q. d (sym same ∙ ap (addr_at c.slots) q)) f
        ∙ ap (held c) same
  ]
