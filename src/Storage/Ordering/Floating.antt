-- ===== src/Storage/Ordering/Floating.antt =====
-- The order of the keys of doubles, and the order of the numbers that the doubles are.
use stripe_sql.Prelude.{
  ℕ, zero, suc, ◌+◌, ◌-◌, ◌*◌, ◌/◌, ◌%◌, ◌^◌, ◌<◌, ◌≡◌, refl, sym, subst, ◌∙◌, true, false,
  Ordering, compare, arith, ltb, if◌then◌else◌, Bool-cases, inl, inr, ◌==◌,
}
use stripe_sql.Prelude.Int.{ℤ, pos, negsuc, compare_ℤ}
use stripe_sql.Value.{Value}
use stripe_sql.Storage.Ordering.{pk_to_ok, compare_ordering_keys}
use stripe_sql.Storage.Ordering.Primary.{signed_magnitude, compare-floating}
use native.Mathlib.Nat.{mul-lt-mul_of_pos_right, pow-le-pow_right, one-le-pow}

-- An IEEE 754 double with the given exponent and fraction, in units of the smallest one, 2 ^ -1074.
abbrev scaled : ℕ → ℕ → ℕ
scaled zero fraction = fraction
scaled (suc e) fraction = (2 ^ 52 + fraction) * 2 ^ e

-- The number that the low 63 bits stand for.
abbrev units : ℕ → ℕ
units m = scaled (m / 2 ^ 52) (m % 2 ^ 52)

scaled-fraction : (e f g : ℕ) → f < g → scaled e f < scaled e g
scaled-fraction zero f g h = h
scaled-fraction (suc e) f g h =
    omega
      (arith, mul-lt-mul_of_pos_right {m = f} {n = g} {k = 2 ^ e} h (one-le-pow e 2 (omega arith)))

scaled-below : (e f : ℕ) → f < 2 ^ 52 → scaled e f < 2 ^ 52 * 2 ^ e
scaled-below zero f h = omega (arith, h)
scaled-below (suc e) f h = omega (
  arith,
  mul-lt-mul_of_pos_right {m = f} {n = 2 ^ 52} {k = 2 ^ e} h (one-le-pow e 2 (omega arith)),
)

scaled-exponent : (e d f g : ℕ) → f < 2 ^ 52 → scaled e f < scaled (suc (e + d)) g
scaled-exponent e d f g h = omega (
  arith,
  scaled-below e f h,
  pow-le-pow_right {n = 2} (omega arith) {i = e} {j = e + d} (omega arith),
)

units-lt : (m n : ℕ) → m < n → units m < units n
units-lt m n h = elim (Bool-cases (m / 2 ^ 52 == n / 2 ^ 52)) [
  | inl e ↦
      subst (λ x. scaled (m / 2 ^ 52) (m % 2 ^ 52) < scaled x (n % 2 ^ 52)) (ground (arith, e))
        (scaled-fraction (m / 2 ^ 52) (m % 2 ^ 52) (n % 2 ^ 52) (ground (arith, e, h)))
  | inr e ↦
      subst (λ x. scaled (m / 2 ^ 52) (m % 2 ^ 52) < scaled x (n % 2 ^ 52))
        {x = suc (m / 2 ^ 52 + (n / 2 ^ 52 - m / 2 ^ 52 - 1))} (ground (arith, e, h))
        (scaled-exponent (m / 2 ^ 52) (n / 2 ^ 52 - m / 2 ^ 52 - 1) (m % 2 ^ 52) (n % 2 ^ 52)
          (omega arith))
]

compare-lt : (m n : ℕ) → m < n → compare m n ≡ Ordering.lt
compare-lt m n h = ground (arith, h)

compare-gt : (m n : ℕ) → n < m → compare m n ≡ Ordering.gt
compare-gt m n h = ground (arith, h)

compare-units : (m n : ℕ) → compare (units m) (units n) ≡ compare m n
compare-units m n = elim (Bool-cases (ltb m n)) [
  | inl l ↦
      rw (compare-lt m n (ground (arith, l)))
        (compare-lt (units m) (units n) (units-lt m n (ground (arith, l))))
  | inr l ↦ elim (Bool-cases (ltb n m)) [
    | inl g ↦
        rw (compare-gt m n (ground (arith, g)))
          (compare-gt (units m) (units n) (units-lt n m (ground (arith, g))))
    | inr g ↦
        subst (λ x. compare (units m) (units x) ≡ compare m x) {x = m} (ground (arith, l, g))
          (ground arith)
  ]
]

abbrev opposite : ℕ → ℤ
opposite zero = pos 0
opposite (suc n) = negsuc n

-- The number that a double is, by its bits. An infinity is the number behind the largest, and a NaN one
-- further out.
abbrev value_of : ℕ → ℤ
value_of b = if ltb b (2 ^ 63) then pos (units b) else opposite (units (b - 2 ^ 63))

abbrev or_else : Ordering → Ordering → Ordering
or_else Ordering.lt other = Ordering.lt
or_else Ordering.eq other = other
or_else Ordering.gt other = Ordering.gt

-- As numbers, and by the sign where these are the same.
abbrev compare_doubles : ℕ → ℕ → Ordering
compare_doubles a b =
    or_else (compare_ℤ (value_of a) (value_of b)) (compare (b / 2 ^ 63) (a / 2 ^ 63))

compare-opposite : (m n : ℕ) → compare_ℤ (opposite m) (opposite n) ≡ compare n m
compare-opposite zero zero = ground arith
compare-opposite zero (suc n) = ground arith
compare-opposite (suc m) zero = ground arith
compare-opposite (suc m) (suc n) = ground arith

or_else-eq : (o : Ordering) → or_else o Ordering.eq ≡ o
or_else-eq Ordering.lt = refl
or_else-eq Ordering.eq = refl
or_else-eq Ordering.gt = refl

pos-opposite : (m n : ℕ) → or_else (compare_ℤ (pos m) (opposite n)) Ordering.gt ≡ Ordering.gt
pos-opposite zero zero = refl
pos-opposite (suc m) zero = ground arith
pos-opposite m (suc n) = refl

opposite-pos : (m n : ℕ) → or_else (compare_ℤ (opposite m) (pos n)) Ordering.lt ≡ Ordering.lt
opposite-pos zero zero = refl
opposite-pos zero (suc n) = ground arith
opposite-pos (suc m) n = refl

sign_of-pos : (a : ℕ) → ltb a (2 ^ 63) ≡ true → a / 2 ^ 63 ≡ 0
sign_of-pos a h = ground (arith, h)

sign_of-negative : (a : ℕ) → a < 2 ^ 64 → ltb a (2 ^ 63) ≡ false → a / 2 ^ 63 ≡ 1
sign_of-negative a l h = ground (arith, l, h)

signed_magnitude-compare_doubles :
    (a b : ℕ)
    → a < 2 ^ 64
    → b < 2 ^ 64
    → compare_ℤ (signed_magnitude a) (signed_magnitude b) ≡ compare_doubles a b
signed_magnitude-compare_doubles a b ha hb = elim (Bool-cases (ltb a (2 ^ 63))) [
  | inl p ↦ elim (Bool-cases (ltb b (2 ^ 63))) [
    | inl q ↦
        rw (p, q, sign_of-pos a p, sign_of-pos b q, compare-units a b)
          (sym (or_else-eq (compare a b)))
    | inr q ↦
        rw (p, q, sign_of-pos a p, sign_of-negative b hb q)
          (sym (pos-opposite (units a) (units (b - 2 ^ 63))))
  ]
  | inr p ↦ elim (Bool-cases (ltb b (2 ^ 63))) [
    | inl q ↦
        rw (p, q, sign_of-negative a ha p, sign_of-pos b q)
          (sym (opposite-pos (units (a - 2 ^ 63)) (units b)))
    | inr q ↦
        rw
          (
            p,
            q,
            sign_of-negative a ha p,
            sign_of-negative b hb q,
            compare-opposite (units (a - 2 ^ 63)) (units (b - 2 ^ 63)),
            compare-units (b - 2 ^ 63) (a - 2 ^ 63),
          )
          (sym (or_else-eq (compare (b - 2 ^ 63) (a - 2 ^ 63))))
  ]
]

-- The ordering keys of two doubles compare as the numbers that these are, except that -0.0, which is the
-- same number as 0.0, has a key below that of 0.0, and that a NaN counts as if its bits were those of a
-- number: one beyond the infinity of its sign.
pub compare-doubles :
    (a b : ℕ)
    → a < 2 ^ 64
    → b < 2 ^ 64
    → compare_ordering_keys (pk_to_ok (Value.floating a)) (pk_to_ok (Value.floating b))
      ≡ compare_doubles a b
compare-doubles a b ha hb = compare-floating a b ha hb ∙ signed_magnitude-compare_doubles a b ha hb
