-- ===== src/Storage/Ordering/Code.antt =====
-- A number for each key that orders the keys of one type as `compareOrderingKeys` does.
use native.Mathlib.Nat.{pow-suc}
use stripe_sql.Prelude.{
  ℕ, zero, suc, ◌+◌, ◌*◌, ◌^◌, ◌<◌, ◌≡◌, refl, ap, ap₂, compare, List, [], ◌∷◌, length, arith,
}
use stripe_sql.Storage.Ordering.{
  OrderingType, OrderingKey, of_ulong, of_string, of_double, strncmp, u64_cmp,
  compare_ordering_keys,
}

abbrev pub AreZero : List ℕ → Type 0
AreZero [] = Unit
AreZero (x ∷ xs) = (x ≡ 0) × AreZero xs

-- Bytes, and nothing but zeros behind the first zero.
abbrev pub IsCString : List ℕ → Type 0
IsCString [] = Unit
IsCString (x ∷ xs) = (x < 256) × (x ≡ 0 → AreZero xs) × IsCString xs

-- An array of `n` cells and a NUL.
abbrev pub IsPadded : ℕ → List ℕ → Type 0
IsPadded zero (x ∷ []) = x ≡ 0
IsPadded (suc n) (x ∷ xs) = IsPadded n xs
IsPadded n s = ⊥

length-IsPadded : (n : ℕ) (s : List ℕ) → IsPadded n s → length s ≡ suc n
length-IsPadded zero (x ∷ []) h = refl
length-IsPadded (suc n) (x ∷ xs) h = ap suc (length-IsPadded n xs h)
length-IsPadded zero [] h = absurd h
length-IsPadded zero (x ∷ y ∷ r) h = absurd h
length-IsPadded (suc n) [] h = absurd h

-- Keys of the given type, as `pkToOk` and the disk format make them.
abbrev pub KeyOf : OrderingType → OrderingKey → Type 0
KeyOf OrderingType.ulong (of_ulong n) = n < 2 ^ 64
KeyOf OrderingType.double (of_double n) = n < 2 ^ 64
KeyOf OrderingType.string (of_string s) = IsPadded 24 s × IsCString s
KeyOf t k = ⊥

-- The first `n` cells read as a number.
pub spell : ℕ → List ℕ → ℕ
spell zero s = 0
spell (suc n) [] = 0
spell (suc n) (x ∷ xs) = x * 256 ^ n + spell n xs

unfoldable pub key_code : OrderingKey → ℕ
key_code (of_ulong n) = n
key_code (of_double n) = n
key_code (of_string s) = spell 24 s

spell-lt : (n : ℕ) (s : List ℕ) → IsCString s → spell n s < 256 ^ n
unfolding spell
spell-lt zero s h = omega arith
spell-lt (suc n) [] h = omega (arith, spell-lt n [] h, pow-suc 256 n)
spell-lt (suc n) (x ∷ xs) h = grind (arith, spell-lt n xs h.2, pow-suc 256 n)

spell-AreZero : (n : ℕ) (s : List ℕ) → AreZero s → spell n s ≡ 0
unfolding spell
spell-AreZero zero s h = refl
spell-AreZero (suc n) [] h = refl
spell-AreZero (suc n) (x ∷ xs) h = rw (h.0, spell-AreZero n xs h.1) (omega arith)

-- The first byte decides, whatever stands behind it.
first_byte_lt : (p x y r s : ℕ) → x < y → r < p → x * p + r < y * p + s
first_byte_lt p x y r s h k = grind arith

compare-add_left : (a b c : ℕ) → compare (a + b) (a + c) ≡ compare b c
compare-add_left a b c = ground arith

strncmp-spell :
    (n : ℕ) (a b : List ℕ)
    → n < length a
    → n < length b
    → IsCString a
    → IsCString b
    → strncmp n a b ≡ compare (spell n a) (spell n b)
unfolding strncmp spell
strncmp-spell zero (x ∷ xs) (y ∷ ys) p q ha hb = refl
strncmp-spell zero (x ∷ xs) [] p q ha hb = absurd (omega arith)
strncmp-spell zero [] b p q ha hb = absurd (omega arith)
strncmp-spell (suc n) (x ∷ xs) [] p q ha hb = absurd (omega arith)
strncmp-spell (suc n) [] b p q ha hb = absurd (omega arith)
strncmp-spell (suc n) (x ∷ xs) (y ∷ ys) p q ha hb = ground (
  arith,
  strncmp-spell n xs ys (omega arith) (omega arith) ha.2 hb.2,
  spell-lt n xs ha.2,
  spell-lt n ys hb.2,
  spell-AreZero n xs,
  spell-AreZero n ys,
  ha.1,
  hb.1,
  first_byte_lt (256 ^ n) x y (spell n xs) (spell n ys),
  first_byte_lt (256 ^ n) y x (spell n ys) (spell n xs),
)

u64_cmp-compare : (a b : ℕ) → u64_cmp a b ≡ compare a b
unfolding u64_cmp
u64_cmp-compare a b = ground arith

-- Keys of one type compare as their codes do.
pub compare-code :
    (t : OrderingType) (a b : OrderingKey)
    → KeyOf t a
    → KeyOf t b
    → compare_ordering_keys a b ≡ compare (key_code a) (key_code b)
unfolding compare_ordering_keys key_code
compare-code OrderingType.ulong (of_ulong a) (of_ulong b) ha hb = u64_cmp-compare a b
compare-code OrderingType.double (of_double a) (of_double b) ha hb = u64_cmp-compare a b
compare-code OrderingType.string (of_string a) (of_string b) ha hb =
    strncmp-spell 24 a b (omega (arith, length-IsPadded 24 a ha.0))
      (omega (arith, length-IsPadded 24 b hb.0)) ha.1 hb.1
compare-code t a b ha hb = ground arith

same_byte : (p x y r s : ℕ) → r < p → s < p → x * p + r ≡ y * p + s → x ≡ y
same_byte p x y r s h k e = ground (arith, first_byte_lt p x y r s, first_byte_lt p y x s r)

spell-injective :
    (n : ℕ) (a b : List ℕ)
    → IsPadded n a
    → IsPadded n b
    → IsCString a
    → IsCString b
    → spell n a ≡ spell n b
    → a ≡ b
unfolding spell
spell-injective zero (x ∷ []) (y ∷ []) p q ha hb e = ground arith
spell-injective (suc n) (x ∷ xs) (y ∷ ys) p q ha hb e =
    ap₂ ◌∷◌ same (spell-injective n xs ys p q ha.2 hb.2 (omega (arith, ap (λ t. t * 256 ^ n) same)))
  where
    same : x ≡ y
    same = same_byte _ x y _ _ (spell-lt n xs ha.2) (spell-lt n ys hb.2) e
spell-injective n a b p q ha hb e = ground arith

-- Keys of one type with the same code are the same key.
pub key_code-injective :
    (t : OrderingType) (a b : OrderingKey) → KeyOf t a → KeyOf t b → key_code a ≡ key_code b → a ≡ b
unfolding key_code
key_code-injective OrderingType.ulong (of_ulong a) (of_ulong b) ha hb e = ap of_ulong e
key_code-injective OrderingType.double (of_double a) (of_double b) ha hb e = ap of_double e
key_code-injective OrderingType.string (of_string a) (of_string b) ha hb e =
    ap of_string (spell-injective 24 a b ha.0 hb.0 ha.1 hb.1 e)
key_code-injective t a b ha hb e = ground arith
