-- ===== src/Storage/Cache/Mask.antt =====
-- The distance between two slots, as `emptySlot` computes it on 32-bit words.
use native.Mathlib.Nat.{mod-eq_of_lt, add-mul-mod_self_right, pow-le-pow_right, pow-suc}
use stripe_sql.Prelude.{
  ℕ, zero, suc, ◌+◌, ◌-◌, ◌*◌, ◌%◌, ◌^◌, ◌<◌, ◌≤◌, ◌≡◌, inl, inr, sym, ap, ◌∙◌, arith, true, false,
  Array, ltb, leb, Bool-cases, ltb→lt, ltb→le, leb→le,
}
use stripe_sql.Prelude.Word.{sub32}
use stripe_sql.Storage.Cache.{NodeCacheSlot, wrapped}
use stripe_sql.Storage.Cache.Probe.{wrapped-mod}
use stripe_sql.Storage.Cache.Gap.{ahead}

-- A power of two up to 2 ^ 31 divides 2 ^ 32.
divides : (m k : ℕ) → 2 ^ (m + k) ≡ 2 ^ k * 2 ^ m
divides zero k = sum_zero (0 + k) (omega arith)
  where
    sum_zero : (t : ℕ) → t ≡ k → 2 ^ t ≡ 2 ^ k * 2 ^ 0
    sum_zero t e = ap (λ x. 2 ^ x) e ∙ times_one (2 ^ k)
      where
        times_one : (y : ℕ) → y ≡ y * 2 ^ 0
        times_one y = omega arith
divides (suc m) k = sum_suc (suc m + k) (omega arith) (divides m k)
  where
    product : (x y : ℕ) → x * y * 2 ≡ x * (y * 2)
    product x y = omega arith

    sum_suc : (t : ℕ) → t ≡ suc (m + k) → 2 ^ (m + k) ≡ 2 ^ k * 2 ^ m → 2 ^ t ≡ 2 ^ k * 2 ^ suc m
    sum_suc t e before =
        ap (λ x. 2 ^ x) e
        ∙ pow-suc 2 (m + k)
        ∙ ap (λ x. x * 2) before
        ∙ product (2 ^ k) (2 ^ m)
        ∙ ap (λ x. 2 ^ k * x) (sym (pow-suc 2 m))

module _ (slots : Array NodeCacheSlot) (k n : ℕ) (power : n ≡ 2 ^ k) (fits : n ≤ 2 ^ 31)
    (pos : 0 < n) where
  quotient : (q : ℕ) × (2 ^ 32 ≡ n * q)
  quotient = (
    2 ^ (32 - k),
    ap (λ t. 2 ^ t) whole ∙ divides (32 - k) k ∙ ap (λ t. t * 2 ^ (32 - k)) (sym power),
  )
    where
      small : k ≤ 32
      small = elim (Bool-cases (ltb 32 k)) [
        | inl x ↦ absurd (
            too_large (
              pow-le-pow_right {n = 2} (omega arith) {i = 32} {j = k}
                (omega (arith, ltb→lt 32 k x))))
        | inr x ↦ ltb→le 32 k x
      ]
        where
          too_large : 2 ^ 32 ≤ 2 ^ k → ⊥
          too_large le = omega (arith, le, power, fits)

      whole : 32 ≡ 32 - k + k
      whole = omega (arith, small)

  pub wrapped-sub32 : (a b : ℕ) → a < n → b < n → wrapped n (sub32 b a) ≡ ahead n a b
  wrapped-sub32 a b h l =
      wrapped-mod slots k n power fits pos (sub32 b a) ∙ (elim (Bool-cases (leb a b)) [
        | inl x ↦ rw x (ap (λ t. t % n) (in_order x) ∙ mod-eq_of_lt (omega (arith, l)))
        | inr x ↦ rw x (
            ap (λ t. t % n) (turned x quotient.0 quotient.1)
            ∙ add-mul-mod_self_right (b + n - a) (quotient.0 - 1) n
            ∙ mod-eq_of_lt (ground (arith, x, h)))
      ])
    where
      in_order : leb a b ≡ true → sub32 b a ≡ b - a
      in_order x = omega (arith, leb→le a b x, h, l, fits)

      turned : leb a b ≡ false → (q : ℕ) → 2 ^ 32 ≡ n * q → sub32 b a ≡ b + n - a + (q - 1) * n
      turned x zero e = absurd (omega (arith, e))
      turned x (suc q) e = ground (arith, x, e, l, h, fits)
