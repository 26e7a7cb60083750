-- ===== src/Prelude/Bits.antt =====
-- Laws of the bit operations that the program uses: a shifted word joined with a byte, and a
-- flipped sign bit.
use Prim.Native.Nat.{
  ℕ, zero, suc, ◌+◌, ◌-◌, ◌*◌, ◌/◌, ◌%◌, ◌^◌, ◌≤◌, ◌<◌, max, min, bit_or, bit_xor, bit_and, digits,
  differ, bit_and-bitwise, bit_or-bitwise, bit_xor-bitwise,
}
use mathlib.Core.Path.{◌≡◌, refl, ap, ◌∙◌}
use native.Mathlib.Nat.{pow-suc, add-mul-mod_self_right, mod-eq_of_lt, div-add-mod', mod-lt}
use native.Mathlib.Omega.{arith}
use mathlib.Core.WellFounded
use stripe_sql.Prelude.Order.{lt_wf}
use stripe_sql.Prelude.Tests.{ltb, if◌then◌else◌}

-- The recursion on digits, for a count of digits to go. A count above the number changes nothing.
module _ (z : ℕ → ℕ) (f : ℕ → ℕ → ℕ) where
  abbrev counted : ℕ → ℕ → ℕ → ℕ
  counted n a b = digits z f n a b

  one_to_spare : (n a b : ℕ) → a ≤ n → counted (suc n) a b ≡ counted n a b
  one_to_spare n zero b h = spare_zero n b
    where
      spare_zero : (k y : ℕ) → counted (suc k) 0 y ≡ counted k 0 y
      spare_zero zero y = refl
      spare_zero (suc k) y = refl
  one_to_spare zero (suc a) b h = absurd (omega arith)
  one_to_spare (suc n) (suc a) b h =
      ap (λ t. t * 2 + f (suc a % 2) (b % 2)) (one_to_spare n (suc a / 2) (b / 2) (omega arith))

  spare : (extra n total a b : ℕ) → extra + n ≡ total → a ≤ n → counted total a b ≡ counted n a b
  spare zero n total a b e h = ap (λ t. counted t a b) (omega arith)
  spare (suc extra) n zero a b e h = absurd (omega arith)
  spare (suc extra) n (suc total) a b e h =
      one_to_spare total a b (omega arith) ∙ spare extra n total a b (omega arith) h

  -- The tail of the digits of `suc a`, from the count that the operation starts with.
  tail : (a b : ℕ) → counted a (suc a / 2) (b / 2) ≡ counted (suc a / 2) (suc a / 2) (b / 2)
  tail a b = spare (a - suc a / 2) (suc a / 2) a (suc a / 2) (b / 2) (omega arith) (omega arith)

zero-bit_or : (b : ℕ) → bit_or 0 b ≡ b
zero-bit_or b = bit_or-bitwise 0 b

zero-bit_xor : (b : ℕ) → bit_xor 0 b ≡ b
zero-bit_xor b = bit_xor-bitwise 0 b

bit_or_step : (a b : ℕ) → bit_or a b ≡ bit_or (a / 2) (b / 2) * 2 + max (a % 2) (b % 2)
bit_or_step zero b = omega (arith, zero-bit_or b, zero-bit_or (b / 2))
bit_or_step (suc a) b =
    omega
      (arith, bit_or-bitwise (suc a) b, bit_or-bitwise (suc a / 2) (b / 2), tail (λ x. x) max a b)

bit_xor_step : (a b : ℕ) → bit_xor a b ≡ bit_xor (a / 2) (b / 2) * 2 + differ (a % 2) (b % 2)
bit_xor_step zero b = omega (arith, zero-bit_xor b, zero-bit_xor (b / 2))
bit_xor_step (suc a) b = omega (
  arith,
  bit_xor-bitwise (suc a) b,
  bit_xor-bitwise (suc a / 2) (b / 2),
  tail (λ x. x) differ a b,
)

-- An operation that copies the lowest digit and goes on with the rest changes nothing.
module _ (op : ℕ → ℕ) (start : op 0 ≡ 0) (step : (a : ℕ) → op a ≡ op (a / 2) * 2 + a % 2) where
  copies_digits : (a : ℕ) → op a ≡ a
  copies_digits a =
      WellFounded.induction lt_wf {C = λ k. op k ≡ k} a
        (λ k below. ground (arith, start, step k, below (k / 2)))

bit_or-zero : (a : ℕ) → bit_or a 0 ≡ a
bit_or-zero = copies_digits (λ a. bit_or a 0) refl (λ a. omega (arith, bit_or_step a 0))

-- A word whose low `k` bits are clear, joined with a number of `k` bits, is their sum.
pub bit_or-disjoint : (k a b : ℕ) → b < 2 ^ k → bit_or (a * 2 ^ k) b ≡ a * 2 ^ k + b
bit_or-disjoint zero a b h = rw zero_of_lt (omega (arith, bit_or-zero (a * 1)))
  where
    zero_of_lt : b ≡ 0
    zero_of_lt = omega arith
bit_or-disjoint (suc k) a b h = omega (
  arith,
  double,
  pow-suc 2 k,
  bit_or_step (a * 2 ^ suc k) b,
  ap (λ t. bit_or t (b / 2)) halved,
  bit_or-disjoint k a (b / 2) (omega (arith, pow-suc 2 k)),
)
  where
    double : a * 2 ^ suc k ≡ a * 2 ^ k * 2
    double = rw (pow-suc 2 k) (omega arith)

    halved : a * 2 ^ suc k / 2 ≡ a * 2 ^ k
    halved = omega (arith, double)

pub bit_or-byte : (a b : ℕ) → b < 256 → bit_or (a * 256) b ≡ a * 256 + b
bit_or-byte a b h = bit_or-disjoint 8 a b h

bit_xor-zero : (a : ℕ) → bit_xor a 0 ≡ a
bit_xor-zero =
    copies_digits (λ a. bit_xor a 0) refl
      (λ a. omega (arith, bit_xor_step a 0, differ-zero (a % 2)))
  where
    differ-zero : (x : ℕ) → differ x 0 ≡ x
    differ-zero zero = refl
    differ-zero (suc x) = refl

differ-bits : (x : ℕ) → x < 2 → (differ x 0 ≡ x) × (differ x 1 ≡ 1 - x)
differ-bits zero h = (refl, refl)
differ-bits (suc zero) h = (refl, refl)
differ-bits (suc (suc x)) h = absurd (omega arith)

-- Flipping bit `k` of a number of `k + 1` bits.
bit_xor-top :
    (k a : ℕ) → a < 2 * 2 ^ k → bit_xor a (2 ^ k) ≡ (if ltb a (2 ^ k) then a + 2 ^ k else a - 2 ^ k)
bit_xor-top zero a h =
    ground (arith, bit_xor_step a 1, bit_xor-zero (a / 2), differ-bits (a % 2) (omega arith))
bit_xor-top (suc k) a h = rw (pow-suc 2 k) (
    ground (
      arith,
      bit_xor_step a (2 ^ k * 2),
      ap (λ t. bit_xor (a / 2) t) halved,
      ap (λ t. differ (a % 2) t) even,
      differ-bits (a % 2) (omega arith),
      bit_xor-top k (a / 2) (omega (arith, pow-suc 2 k)),
    ))
  where
    halved : 2 ^ k * 2 / 2 ≡ 2 ^ k
    halved = omega arith

    even : 2 ^ k * 2 % 2 ≡ 0
    even = omega arith

-- Flipping the sign bit of a 64-bit word.
pub bit_xor-sign :
    (a : ℕ) → a < 2 ^ 64 → bit_xor a (2 ^ 63) ≡ (if ltb a (2 ^ 63) then a + 2 ^ 63 else a - 2 ^ 63)
bit_xor-sign a h = bit_xor-top 63 a h

and_zero : (b : ℕ) → bit_and 0 b ≡ 0
and_zero b = bit_and-bitwise 0 b

bit_and_step : (a b : ℕ) → bit_and a b ≡ bit_and (a / 2) (b / 2) * 2 + min (a % 2) (b % 2)
bit_and_step zero b = omega (arith, and_zero b, and_zero (b / 2))
bit_and_step (suc a) b = omega (
  arith,
  bit_and-bitwise (suc a) b,
  bit_and-bitwise (suc a / 2) (b / 2),
  tail (λ x. zero) min a b,
)

bit_and_nothing : (a : ℕ) → bit_and a 0 ≡ 0
bit_and_nothing a =
    WellFounded.induction lt_wf {C = λ k. bit_and k 0 ≡ 0} a
      (λ k below. ground (arith, and_zero 0, bit_and_step k 0, below (k / 2)))

mod_twice : (n a : ℕ) → 1 ≤ n → a % (n * 2) ≡ a / 2 % n * 2 + a % 2
mod_twice n a h =
    ap (λ t. t % (n * 2)) whole
    ∙ add-mul-mod_self_right (a / 2 % n * 2 + a % 2) (a / 2 / n) (n * 2)
    ∙ mod-eq_of_lt below
  where
    whole : a ≡ a / 2 % n * 2 + a % 2 + a / 2 / n * (n * 2)
    whole = omega (arith, div-add-mod' (a / 2) n)

    below : a / 2 % n * 2 + a % 2 < n * 2
    below = omega (arith, mod-lt (a / 2) h)

-- A mask of `k` ones.
pub bit_and-mask : (k a : ℕ) → bit_and a (2 ^ k - 1) ≡ a % 2 ^ k
bit_and-mask zero a = omega (arith, bit_and_nothing a)
bit_and-mask (suc k) a = omega (
  arith,
  pow-suc 2 k,
  bit_and_step a (2 ^ suc k - 1),
  ap (bit_and (a / 2)) halved,
  bit_and-mask k (a / 2),
  mod_double,
  power_positive k,
)
  where
    power_positive : (n : ℕ) → 1 ≤ 2 ^ n
    power_positive zero = omega arith
    power_positive (suc n) = omega (arith, pow-suc 2 n, power_positive n)

    halved : (2 ^ suc k - 1) / 2 ≡ 2 ^ k - 1
    halved = omega (arith, pow-suc 2 k, power_positive k)

    mod_double : a % 2 ^ suc k ≡ a / 2 % 2 ^ k * 2 + a % 2
    mod_double = rw (pow-suc 2 k) (mod_twice (2 ^ k) a (power_positive k))
