-- ===== src/Storage/Cache/Close.antt =====
-- The loop of `emptySlot` from the first slot behind the hole to the end of the run.
use native.Mathlib.Nat.{mod-add-mod, mod-lt, mod-eq_of_lt}
use stripe_sql.Prelude.{
  ℕ, zero, suc, ◌+◌, ◌-◌, ◌%◌, ◌^◌, ◌<◌, ◌≤◌, ◌≡◌, ◌≢◌, inl, inr, refl, sym, ap, ◌∙◌, subst, arith,
  true, false, Array, put, leb, ◌==◌, if◌then◌else◌, Bool-cases, ==_iff, leb→le,
}
use stripe_sql.Prelude.Word.{u32, sub32}
use stripe_sql.Storage.Cache.{NodeCacheSlot, no_slot, home_slot, empty_loop, wrapped}
use stripe_sql.Storage.Cache.Probe.{addr_at, occupied, Reaches, next, home-lt}
use stripe_sql.Storage.Cache.Held.{put-elsewhere}
use stripe_sql.Storage.Cache.Add.{occupied-put}
use stripe_sql.Storage.Cache.Gap.{holed, ahead, ahead_only, cancel, IsGap}
use stripe_sql.Storage.Cache.Hole.{apart, closed, moved, kept}
use stripe_sql.Storage.Cache.Mask.{wrapped-sub32}

-- What the loop makes of a table with a hole: the same nodes in other slots, all of them found.
pub record IsClosed (slots : Array NodeCacheSlot) (n hole : ℕ) (out : Array NodeCacheSlot × ℕ)
    : Type 0 where
  pub below : out.1 < n
  pub reaches :
      (i : ℕ)
      → i < n
      → i ≢ out.1
      → addr_at out.0 i ≢ 0
      → Reaches (holed out.0 out.1) n (home_slot n (addr_at out.0 i)) i
  pub to : ℕ → ℕ
  pub from : ℕ → ℕ
  pub to_below : (i : ℕ) → i < n → to i < n
  pub from_below : (i : ℕ) → i < n → from i < n
  pub from_to : (i : ℕ) → i < n → from (to i) ≡ i
  pub to_from : (i : ℕ) → i < n → to (from i) ≡ i
  pub same : (i : ℕ) → i < n → holed out.0 out.1 i ≡ holed slots hole (to i)
  pub count : occupied (holed out.0 out.1) n ≡ occupied (holed slots hole) n

abbrev swap : ℕ → ℕ → ℕ → ℕ
swap a b x = if x == b then a else if x == a then b else x

swap_below : (n a b x : ℕ) → a < n → b < n → x < n → swap a b x < n
swap_below n a b x h l m = ground (arith, h, l, m)

swap_twice : (a b x : ℕ) → swap a b (swap a b x) ≡ x
swap_twice a b x = ground arith

moved-swap :
    (slots : Array NodeCacheSlot) (a b x : ℕ)
    → a ≢ b
    → holed (put slots a (slots b)) b x ≡ holed slots a (swap a b x)
moved-swap slots a b x d = ground (arith, d)

pub occupied-same :
    (slots slots' : Array NodeCacheSlot) (n : ℕ)
    → ((i : ℕ) → i < n → addr_at slots i ≡ addr_at slots' i)
    → occupied slots n ≡ occupied slots' n
occupied-same slots slots' zero h = refl
occupied-same slots slots' (suc n) h =
    rw (h n (omega arith))
      (rw (occupied-same slots slots' n (λ i lt. h i (omega (arith, lt)))) refl)

-- The table without either slot, with the node of slot `b` at `b` and at `a`.
occupied-moved :
    (slots : Array NodeCacheSlot) (n a b : ℕ)
    → a < n
    → b < n
    → a ≢ b
    → addr_at slots b ≢ 0
    → occupied (holed (put slots a (slots b)) b) n ≡ occupied (holed slots a) n
occupied-moved slots n a b h l d f =
    occupied-same (holed (put slots a (slots b)) b) (put neither a (slots b)) n
      (λ i lt. ground (arith, d))
    ∙ occupied-put neither a (slots b) n neither_a f
    ∙ ground (arith, h, l)
    ∙ sym (occupied-put neither b (slots b) n neither_b f)
    ∙ occupied-same (put neither b (slots b)) (holed slots a) n (λ i lt. ground (arith, d))
  where
    neither : Array NodeCacheSlot
    neither = put (put slots a no_slot) b no_slot

    neither_a : addr_at neither a ≡ 0
    neither_a = ground (arith, d)

    neither_b : addr_at neither b ≡ 0
    neither_b = ground (arith, d)

module _ (fuel : ℕ) (slots : Array NodeCacheSlot) (n hole j : ℕ) where
  loop-stops : (addr_at slots j == 0) ≡ true → empty_loop (suc fuel) slots n hole j ≡ (slots, hole)
  unfolding empty_loop
  loop-stops x = rw x refl

  loop-moves :
      (addr_at slots j == 0) ≡ false
      → leb (wrapped n (sub32 j hole)) (wrapped n (sub32 j (home_slot n (addr_at slots j)))) ≡ true
      → empty_loop (suc fuel) slots n hole j
        ≡ empty_loop fuel (put slots hole (slots j)) n j (wrapped n (u32 (j + 1)))
  unfolding empty_loop
  loop-moves x y = rw x (rw y refl)

  loop-keeps :
      (addr_at slots j == 0) ≡ false
      → leb (wrapped n (sub32 j hole)) (wrapped n (sub32 j (home_slot n (addr_at slots j)))) ≡ false
      → empty_loop (suc fuel) slots n hole j
        ≡ empty_loop fuel slots n hole (wrapped n (u32 (j + 1)))
  unfolding empty_loop
  loop-keeps x y = rw x (rw y refl)

-- One move, and then what the rest of the loop makes of the table.
moved-IsClosed :
    (slots : Array NodeCacheSlot) (n a b : ℕ) (out : Array NodeCacheSlot × ℕ)
    → a < n
    → b < n
    → a ≢ b
    → addr_at slots b ≢ 0
    → IsClosed (put slots a (slots b)) n b out
    → IsClosed slots n a out
moved-IsClosed slots n a b out h l d f c = record {
  below = c.below;
  reaches = c.reaches;
  to = λ i. swap a b (c.to i);
  from = λ i. c.from (swap a b i);
  to_below = λ i lt. swap_below n a b (c.to i) h l (c.to_below i lt);
  from_below = λ i lt. c.from_below (swap a b i) (swap_below n a b i h l lt);
  from_to = λ i lt. ap c.from (swap_twice a b (c.to i)) ∙ c.from_to i lt;
  to_from =
      λ i lt. ap (swap a b) (c.to_from (swap a b i) (swap_below n a b i h l lt)) ∙ swap_twice a b i;
  same = λ i lt. c.same i lt ∙ moved-swap slots a b (c.to i) d;
  count = c.count ∙ occupied-moved slots n a b h l d f;
}

module _ (k n : ℕ) (power : n ≡ 2 ^ k) (fits : n ≤ 2 ^ 31) (pos : 0 < n) where
  -- The loop runs to the empty slot that ends the run, `m` slots on.
  pub empty_loop-IsClosed :
      (fuel m e : ℕ) (slots : Array NodeCacheSlot) (hole : ℕ)
      → IsGap slots n hole e
      → e + m < n
      → m < fuel
      → addr_at slots ((hole + (e + m)) % n) ≡ 0
      → IsClosed slots n hole (empty_loop fuel slots n hole ((hole + e) % n))
  empty_loop-IsClosed zero m e slots hole g s h z = absurd (omega (arith, h))
  empty_loop-IsClosed (suc fuel) m e slots hole g s h z = elim (Bool-cases (addr_at slots j == 0)) [
    | inl x ↦ subst (IsClosed slots n hole) (sym (loop-stops fuel slots n hole j x)) (record {
      below = g.within;
      reaches =
          closed slots n hole e g short (home-lt slots k n power fits pos)
            ((==_iff (addr_at slots j) 0).0 x);
      to = λ i. i;
      from = λ i. i;
      to_below = λ i lt. lt;
      from_below = λ i lt. lt;
      from_to = λ i lt. refl;
      to_from = λ i lt. refl;
      same = λ i lt. refl;
      count = refl;
    })
    | inr x ↦
        elim (Bool-cases
          (leb (wrapped n (sub32 j hole)) (wrapped n (sub32 j (home_slot n (addr_at slots j)))))) [
            | inl y ↦ subst (IsClosed slots n hole) (sym (loop-moves fuel slots n hole j x y)) (
                moved-IsClosed slots n hole j _ g.within j_below
                  (λ q. apart slots n hole e g short (home-lt slots k n power fits pos) (sym q))
                  (filled x)
                  (subst
                    (λ t.
                      IsClosed (put slots hole (slots j)) n j
                        (empty_loop fuel (put slots hole (slots j)) n j t))
                    (sym (next slots k n power fits pos j j_below))
                    (empty_loop-IsClosed fuel (m - 1) 1 (put slots hole (slots j)) j
                      (moved slots n hole e g short (home-lt slots k n power fits pos) (filled x)
                        (far y))
                      (omega (arith, s, more x, g.started)) (omega (arith, h, more x))
                      (end_moved x))))
            | inr y ↦ subst (IsClosed slots n hole) (sym (loop-keeps fuel slots n hole j x y)) (
                subst (λ t. IsClosed slots n hole (empty_loop fuel slots n hole t))
                  (sym (next slots k n power fits pos j j_below ∙ next_on))
                  (empty_loop-IsClosed fuel (m - 1) (e + 1) slots hole
                    (kept slots n hole e g short (home-lt slots k n power fits pos) (filled x)
                      (near y))
                    (omega (arith, s, more x)) (omega (arith, h, more x))
                    (ap (λ t. addr_at slots ((hole + t) % n)) (kept_end x) ∙ z)))
          ]
  ]
    where
      j : ℕ
      j = (hole + e) % n

      j_below : j < n
      j_below = mod-lt (hole + e) pos

      short : e < n
      short = omega (arith, s)

      filled : (addr_at slots j == 0) ≡ false → addr_at slots j ≢ 0
      filled x q = ground (arith, x, q)

      next_on : (j + 1) % n ≡ (hole + (e + 1)) % n
      next_on = mod-add-mod (hole + e) n 1 ∙ ap (λ t. t % n) (omega arith)

      behind : wrapped n (sub32 j hole) ≡ e
      behind =
          wrapped-sub32 slots k n power fits pos hole j g.within j_below
          ∙ sym (ahead_only n hole j e g.within j_below short refl)

      home : ℕ
      home = home_slot n (addr_at slots j)

      from_home : wrapped n (sub32 j home) ≡ ahead n home j
      from_home =
          wrapped-sub32 slots k n power fits pos home j
            (home-lt slots k n power fits pos (addr_at slots j)) j_below

      far : leb (wrapped n (sub32 j hole)) (wrapped n (sub32 j home)) ≡ true → e ≤ ahead n home j
      far y = le_by (leb→le (wrapped n (sub32 j hole)) (wrapped n (sub32 j home)) y)
        where
          le_by : wrapped n (sub32 j hole) ≤ wrapped n (sub32 j home) → e ≤ ahead n home j
          le_by l =
              subst (λ t. e ≤ t) from_home (subst (λ t. t ≤ wrapped n (sub32 j home)) behind l)

      near : leb (wrapped n (sub32 j hole)) (wrapped n (sub32 j home)) ≡ false → ahead n home j < e
      near y =
          subst (λ t. t < e) from_home
            (subst (λ t. wrapped n (sub32 j home) < t) behind
              (not_le (wrapped n (sub32 j hole)) (wrapped n (sub32 j home)) y))
        where
          not_le : (a b : ℕ) → leb a b ≡ false → b < a
          not_le a b q = ground (arith, q)

      more : (addr_at slots j == 0) ≡ false → 0 < m
      more x = elim (Bool-cases (m == 0)) [
        | inl y ↦
            absurd
              (filled x (ap (λ t. addr_at slots ((hole + t) % n)) (at_end ((==_iff m 0).0 y)) ∙ z))
        | inr y ↦ ground (arith, y)
      ]
        where
          at_end : m ≡ 0 → e ≡ e + m
          at_end q = omega (arith, q)

      kept_end : (addr_at slots j == 0) ≡ false → e + 1 + (m - 1) ≡ e + m
      kept_end x = omega (arith, more x)

      end_moved :
          (addr_at slots j == 0) ≡ false
          → addr_at (put slots hole (slots j)) ((j + (1 + (m - 1))) % n) ≡ 0
      end_moved x =
          ap (addr_at (put slots hole (slots j))) at_end
          ∙ ap (λ t. t.addr) (put-elsewhere slots hole ((hole + (e + m)) % n) (slots j) not_hole)
          ∙ z
        where
          sum : hole + e + (1 + (m - 1)) ≡ hole + (e + m)
          sum = omega (arith, more x)

          at_end : (j + (1 + (m - 1))) % n ≡ (hole + (e + m)) % n
          at_end = mod-add-mod (hole + e) n (1 + (m - 1)) ∙ ap (λ t. t % n) sum

          not_hole : (hole + (e + m)) % n ≢ hole
          not_hole q =
              let zero_sum : e + m ≡ 0 =
                cancel n hole (e + m) 0 g.within s pos
                  (q ∙ sym (mod-eq_of_lt g.within) ∙ ap (λ t. t % n) (omega arith)) in
              ground (arith, zero_sum, g.started)
