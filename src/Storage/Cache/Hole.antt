-- ===== src/Storage/Cache/Hole.antt =====
-- The gap that a removed node leaves in a run of full slots, and how the loop of `emptySlot` closes it.
use native.Mathlib.Nat.{mod-add-mod, mod-lt, mod-eq_of_lt}
use stripe_sql.Prelude.{
  ℕ, ◌+◌, ◌-◌, ◌%◌, ◌<◌, ◌≤◌, ◌≡◌, ◌≢◌, ◌⊎◌, inl, inr, refl, sym, ap, ◌∙◌, subst, arith, Array, put,
  ltb, ◌==◌, Bool-cases, ==_iff, ltb→lt, ltb→le,
}
use stripe_sql.Storage.Cache.{NodeCacheSlot, no_slot, home_slot}
use stripe_sql.Storage.Cache.Probe.{addr_at, Reaches}
use stripe_sql.Storage.Cache.Held.{put-there, put-elsewhere}
use stripe_sql.Storage.Cache.Gap.{
  IsGap, holed, Through, ahead, cancel, ahead-mod, ahead_only, from_hole,
}

module _ (slots : Array NodeCacheSlot) (n hole e : ℕ) (g : IsGap slots n hole e) (short : e < n)
    (home-below : (addr : ℕ) → home_slot n addr < n) where
  abbrev pub j : ℕ
  j = (hole + e) % n

  pub apart : j ≢ hole
  apart q =
      let z : e ≡ 0 =
        cancel n hole e 0 g.within short (omega (arith, short))
          (q ∙ sym (mod-eq_of_lt g.within) ∙ ap (λ t. t % n) (omega arith)) in
      ground (arith, z, g.started)

  -- A path that does not pass the hole.
  around_hole :
      (p i d : ℕ)
      → d < n
      → (p + d) % n ≡ i
      → ((k : ℕ) → k < d → (addr_at slots ((p + k) % n) ≢ 0) ⊎ ((p + k) % n ≡ hole))
      → ((k : ℕ) → k < d → (p + k) % n ≢ hole)
      → Reaches (holed slots hole) n p i
  around_hole p i d lt at some never = (d, lt, at, λ k h z. full_there k h (some k h) z)
    where
      full_there :
          (k : ℕ)
          → k < d
          → (addr_at slots ((p + k) % n) ≢ 0) ⊎ ((p + k) % n ≡ hole)
          → addr_at (holed slots hole) ((p + k) % n) ≢ 0
      full_there k h (inl f) z =
          f (
            sym (ap (λ s. s.addr) (put-elsewhere slots hole ((p + k) % n) no_slot (never k h))) ∙ z)
      full_there k h (inr q) z = never k h q

  -- Past the hole, a path goes on to what lies behind the hole.
  past_hole :
      (p i d k : ℕ)
      → d < n
      → i < n
      → (p + d) % n ≡ i
      → k < d
      → (p + k) % n ≡ hole
      → (d - k ≡ ahead n hole i) × ((m : ℕ) → (p + (k + m)) % n ≡ (hole + m) % n)
  past_hole p i d k lt l at h q = (
    ahead_only n hole i (d - k) g.within l (omega (arith, lt))
        (from_hole n p k (d - k) hole q ∙ ap (λ t. (p + t) % n) (omega (arith, h)) ∙ at),
    λ m. sym (from_hole n p k m hole q),
  )

  -- The loop is at an empty slot: every node is found without passing the hole.
  pub closed :
      addr_at slots j ≡ 0
      → (i : ℕ) → i < n
      → i ≢ hole
      → addr_at slots i ≢ 0
      → Reaches (holed slots hole) n (home_slot n (addr_at slots i)) i
  closed z i lt d f = elim (Bool-cases (ltb u e)) [
    | inl x ↦
        subst (λ t. Reaches (holed slots hole) n (home_slot n (addr_at slots t)) t) at_u
          (g.strong u positive (ltb→lt u e x))
    | inr x ↦ later (g.through i lt d f) (beyond (ltb→le u e x))
  ]
    where
      p : ℕ
      p = home_slot n (addr_at slots i)

      u : ℕ
      u = ahead n hole i

      at_u : (hole + u) % n ≡ i
      at_u = ahead-mod n hole i g.within lt

      positive : 0 < u
      positive = ground (arith, d, g.within, lt)

      -- Slot `j` is empty, so it is another one.
      beyond : e ≤ u → e < u
      beyond le = elim (Bool-cases (e == u)) [
        | inl x ↦ absurd (
            f (
              ap (addr_at slots) (sym at_u ∙ ap (λ t. (hole + t) % n) (sym ((==_iff e u).0 x)))
              ∙ z))
        | inr x ↦ ground (arith, le, x)
      ]

      later : Through slots n hole p i → e < u → Reaches (holed slots hole) n p i
      later (dist, dl, at, some) far =
          around_hole p i dist dl at some
            (λ k h q. never dist dl at some k h (past_hole p i dist k dl lt at h q) far)
        where
          never :
              (dist : ℕ)
              → dist < n
              → (p + dist) % n ≡ i
              → ((k : ℕ) → k < dist → (addr_at slots ((p + k) % n) ≢ 0) ⊎ ((p + k) % n ≡ hole))
              → (k : ℕ) → k < dist
              → (dist - k ≡ u) × ((m : ℕ) → (p + (k + m)) % n ≡ (hole + m) % n)
              → e < u
              → ⊥
          never dist dl at some k h (same, on) far =
              elim (some (k + e) (omega (arith, same, far))) [
                | inl x ↦ x (ap (addr_at slots) (on e) ∙ z)
                | inr x ↦ apart (sym (on e) ∙ x)
              ]

  -- The node at `j` goes into the hole, and leaves one.
  pub moved :
      addr_at slots j ≢ 0
      → e ≤ ahead n (home_slot n (addr_at slots j)) j
      → IsGap (put slots hole (slots j)) n j 1
  moved f le = record {
    within = mod-lt (hole + e) (omega (arith, short));
    started = omega arith;
    full = λ k h l. absurd (omega (arith, h, l));
    through = λ i lt d q. elim (Bool-cases (i == hole)) [
      | inl x ↦ at_hole i lt ((==_iff i hole).0 x)
      | inr x ↦ elsewhere i lt (λ t. ground (arith, x, t)) q
    ];
    strong = λ k h l. absurd (omega (arith, h, l));
  }
    where
      new : Array NodeCacheSlot
      new = put slots hole (slots j)

      filled : (x : ℕ) → (addr_at slots x ≢ 0) ⊎ (x ≡ hole) → addr_at new x ≢ 0
      filled x (inl t) z = ground (arith, t, z, f)
      filled x (inr t) z = ground (arith, t, z, f)

      new_at_hole : addr_at new hole ≡ addr_at slots j
      new_at_hole = ap (λ s. s.addr) (put-there slots hole (slots j))

      elsewhere :
          (i : ℕ)
          → i < n
          → i ≢ hole
          → addr_at new i ≢ 0
          → Through new n j (home_slot n (addr_at new i)) i
      elsewhere i lt d q =
          let same : addr_at new i ≡ addr_at slots i =
            ap (λ s. s.addr) (put-elsewhere slots hole i (slots j) d) in
          subst (λ a. Through new n j (home_slot n a) i) (sym same)
            (widen (g.through i lt d (λ z. q (same ∙ z))))
        where
          widen :
              Through slots n hole (home_slot n (addr_at slots i)) i
              → Through new n j (home_slot n (addr_at slots i)) i
          widen (dist, dl, at, some) = (dist, dl, at, λ k h. inl (filled _ (some k h)))

      at_hole : (i : ℕ) → i < n → i ≡ hole → Through new n j (home_slot n (addr_at new i)) i
      at_hole i lt same =
          subst (λ t. Through new n j (home_slot n (addr_at new t)) t) (sym same)
            (subst (λ a. Through new n j (home_slot n a) hole) (sym new_at_hole)
              (shorten (g.through j (mod-lt (hole + e) (omega (arith, short))) apart f)))
        where
          p : ℕ
          p = home_slot n (addr_at slots j)

          shorten : Through slots n hole p j → Through new n j p hole
          shorten (dist, dl, at, some) =
              let far : e ≤ dist = omega (
                arith,
                le,
                ahead_only n p j dist (home-below (addr_at slots j))
                    (mod-lt (hole + e) (omega (arith, short))) dl at,
              ) in
              (
                dist - e,
                omega (arith, dl),
                cancel n e ((p + (dist - e)) % n) hole short
                    (mod-lt (p + (dist - e)) (omega (arith, short))) g.within
                    (ap (λ t. t % n) (omega arith)
                      ∙ mod-add-mod (p + (dist - e)) n e
                      ∙ ap (λ t. t % n) (omega (arith, far))
                      ∙ at
                      ∙ ap (λ t. t % n) (omega arith)),
                λ k h. inl (filled _ (some k (omega (arith, h)))),
              )

  -- It stays.
  pub kept :
      addr_at slots j ≢ 0
      → ahead n (home_slot n (addr_at slots j)) j < e
      → IsGap slots n hole (e + 1)
  kept f lt = record {
    within = g.within;
    started = omega arith;
    full = λ k h l. up_to (λ t. addr_at slots ((hole + t) % n) ≢ 0) k l f (g.full k h);
    through = g.through;
    strong = λ k h l.
        up_to
          (λ t.
            Reaches (holed slots hole) n (home_slot n (addr_at slots ((hole + t) % n)))
              ((hole + t) % n))
          k l (here (g.through j (mod-lt (hole + e) (omega (arith, short))) apart f))
          (g.strong k h);
  }
    where
      up_to : (P : ℕ → Type 0) (k : ℕ) → k < e + 1 → P e → (k < e → P k) → P k
      up_to P k l here below = elim (Bool-cases (k == e)) [
        | inl x ↦ subst P (sym ((==_iff k e).0 x)) here
        | inr x ↦ below (ground (arith, l, x))
      ]

      here :
          Through slots n hole (home_slot n (addr_at slots j)) j
          → Reaches (holed slots hole) n (home_slot n (addr_at slots j)) j
      here (dist, dl, at, some) =
          around_hole (home_slot n (addr_at slots j)) j dist dl at some
            (λ k h q. never dist dl at k h q)
        where
          never :
              (dist : ℕ)
              → dist < n
              → (home_slot n (addr_at slots j) + dist) % n ≡ j
              → (k : ℕ) → k < dist
              → (home_slot n (addr_at slots j) + k) % n ≢ hole
          never dist dl at k h q =
              let below_n : j < n = mod-lt (hole + e) (omega (arith, short)) in
              ground (
                arith,
                lt,
                h,
                (past_hole (home_slot n (addr_at slots j)) j dist k dl below_n at h q).0,
                ahead_only n hole j e g.within below_n short refl,
                ahead_only n (home_slot n (addr_at slots j)) j dist (home-below (addr_at slots j))
                    below_n dl at,
              )
