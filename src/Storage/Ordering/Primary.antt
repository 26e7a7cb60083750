-- ===== src/Storage/Ordering/Primary.antt =====
-- `pkToOk` keeps the order of the primary keys of each type, and `compareOrderingKeys` is a total
-- order on the keys of one type.
use Prim.Native.Nat.{bit_xor}
use stripe_sql.Prelude.{
  ℕ, zero, suc, false, ◌+◌, ◌-◌, ◌%◌, ◌^◌, ◌<◌, ◌≤◌, ◌≡◌, refl, ◌↔◌, Ordering, compare, List, [],
  ◌∷◌, length, arith, ltb, if◌then◌else◌,
}
use stripe_sql.Prelude.Int.{ℤ, pos, negsuc, compare_ℤ, IsInt64, to_u64}
use stripe_sql.Prelude.Bits.{bit_xor-sign}
use stripe_sql.Value.{Value}
use stripe_sql.Storage.Ordering.{
  OrderingType, OrderingKey, pad, pk_to_ok, flip_double, strncmp, u64_cmp, compare_ordering_keys,
}
use stripe_sql.Storage.Ordering.Code.{
  KeyOf, IsPadded, IsCString, AreZero, compare-code, key_code-injective,
}

-- The bytes of a text before its NUL.
abbrev pub IsText : List ℕ → Type 0
IsText [] = Unit
IsText (c ∷ s) = (0 < c) × (c < 256) × IsText s

-- Byte by byte, a prefix first.
abbrev pub compare_texts : List ℕ → List ℕ → Ordering
compare_texts [] [] = Ordering.eq
compare_texts [] (y ∷ ys) = Ordering.lt
compare_texts (x ∷ xs) [] = Ordering.gt
compare_texts (x ∷ xs) (y ∷ ys) = elim (compare x y) [
  | Ordering.lt ↦ Ordering.lt
  | Ordering.eq ↦ compare_texts xs ys
  | Ordering.gt ↦ Ordering.gt
]

-- The values that can be a primary key: in the range of their C type, texts at most 24 bytes.
abbrev pub IsPrimaryKey : Value → Type 0
IsPrimaryKey (Value.integer i) = IsInt64 i
IsPrimaryKey (Value.floating b) = b < 2 ^ 64
IsPrimaryKey (Value.text s) = IsText s × (length s ≤ 24)
IsPrimaryKey (Value.u32 n) = n < 2 ^ 32
IsPrimaryKey v = ⊥

abbrev pub type_of_key : Value → OrderingType
type_of_key (Value.text s) = OrderingType.string
type_of_key (Value.floating b) = OrderingType.double
type_of_key v = OrderingType.ulong

pub pad-zeros : (n : ℕ) → AreZero (pad n [])
unfolding pad
pad-zeros zero = tt
pad-zeros (suc n) = (refl, pad-zeros n)

pad-IsPadded : (n : ℕ) (s : List ℕ) → length s ≤ n → IsPadded n (pad (suc n) s)
unfolding pad
pad-IsPadded zero [] h = refl
pad-IsPadded zero (c ∷ s) h = absurd (omega arith)
pad-IsPadded (suc n) [] h = pad-IsPadded n [] (omega arith)
pad-IsPadded (suc n) (c ∷ s) h = pad-IsPadded n s (omega arith)

pad-IsCString : (n : ℕ) (s : List ℕ) → IsText s → IsCString (pad n s)
unfolding pad
pad-IsCString zero s h = tt
pad-IsCString (suc n) [] h = (omega arith, (λ _. pad-zeros n), pad-IsCString n [] tt)
pad-IsCString (suc n) (c ∷ s) h = (h.1, (λ z. absurd (omega arith)), pad-IsCString n s h.2)

-- Where the flipped sign bit puts a signed integer among the unsigned ones.
abbrev offset : ℤ → ℕ
offset (pos n) = n + 2 ^ 63
offset (negsuc n) = 2 ^ 63 - 1 - n

flip-offset : (i : ℤ) → IsInt64 i → bit_xor (to_u64 i) (2 ^ 63) ≡ offset i
flip-offset (pos n) h = ground (arith, bit_xor-sign (n % 2 ^ 64))
flip-offset (negsuc n) h = ground (arith, bit_xor-sign (2 ^ 64 - 1 - n % 2 ^ 64))

-- A double's bit pattern as its sign and magnitude, a negative zero just below the positive one.
abbrev pub signed_magnitude : ℕ → ℤ
signed_magnitude b = if ltb b (2 ^ 63) then pos b else negsuc (b - 2 ^ 63)

flip_double-offset : (b : ℕ) → b < 2 ^ 64 → flip_double b ≡ offset (signed_magnitude b)
unfolding flip_double
flip_double-offset b h = ground (arith, bit_xor-sign b)

compare-offset : (a b : ℤ) → IsInt64 a → IsInt64 b → u64_cmp (offset a) (offset b) ≡ compare_ℤ a b
unfolding u64_cmp
compare-offset (pos a) (pos b) ha hb = ground arith
compare-offset (pos a) (negsuc b) ha hb = ground arith
compare-offset (negsuc a) (pos b) ha hb = ground arith
compare-offset (negsuc a) (negsuc b) ha hb = ground arith

signed_magnitude-IsInt64 : (b : ℕ) → b < 2 ^ 64 → IsInt64 (signed_magnitude b)
signed_magnitude-IsInt64 b h = ground arith

offset-lt : (i : ℤ) → IsInt64 i → offset i < 2 ^ 64
offset-lt (pos n) h = omega arith
offset-lt (negsuc n) h = omega arith

fits_text : (n : ℕ) → n ≤ 24 → ltb 24 n ≡ false
fits_text n h = ground arith

-- A primary key becomes an ordering key of the type that its value's type has.
pub pk_to_ok-KeyOf : (v : Value) → IsPrimaryKey v → KeyOf (type_of_key v) (pk_to_ok v)
unfolding pk_to_ok
pk_to_ok-KeyOf (Value.integer i) h = rw (flip-offset i h) (offset-lt i h)
pk_to_ok-KeyOf (Value.floating b) h =
    rw (flip_double-offset b h) (offset-lt (signed_magnitude b) (signed_magnitude-IsInt64 b h))
pk_to_ok-KeyOf (Value.text s) h =
    rw (fits_text (length s) h.1) (pad-IsPadded 24 s h.1, pad-IsCString 25 s h.0)
pk_to_ok-KeyOf (Value.u32 n) h = omega arith
pk_to_ok-KeyOf Value.null h = absurd h
pk_to_ok-KeyOf (Value.boolean b) h = absurd h

-- Integers compare as ordering keys the way they compare as signed numbers.
pub compare-integer :
    (a b : ℤ)
    → IsInt64 a
    → IsInt64 b
    → compare_ordering_keys (pk_to_ok (Value.integer a)) (pk_to_ok (Value.integer b))
      ≡ compare_ℤ a b
unfolding pk_to_ok compare_ordering_keys
compare-integer a b ha hb = rw (flip-offset a ha, flip-offset b hb) (compare-offset a b ha hb)

-- Doubles compare as ordering keys by sign and magnitude: as the numbers that their bit patterns stand
-- for so, where a negative pattern is one below the negated magnitude. The zero with the sign sorts
-- below the other, and NaNs are ordered by their bits.
pub compare-floating :
    (a b : ℕ)
    → a < 2 ^ 64
    → b < 2 ^ 64
    → compare_ordering_keys (pk_to_ok (Value.floating a)) (pk_to_ok (Value.floating b))
      ≡ compare_ℤ (signed_magnitude a) (signed_magnitude b)
unfolding pk_to_ok compare_ordering_keys
compare-floating a b ha hb =
    rw (flip_double-offset a ha, flip_double-offset b hb)
      (compare-offset (signed_magnitude a) (signed_magnitude b) (signed_magnitude-IsInt64 a ha)
        (signed_magnitude-IsInt64 b hb))

pad-strncmp :
    (n : ℕ) (a b : List ℕ)
    → IsText a
    → IsText b
    → length a ≤ n
    → length b ≤ n
    → strncmp n (pad (suc n) a) (pad (suc n) b) ≡ compare_texts a b
unfolding pad strncmp
pad-strncmp zero [] [] ha hb p q = refl
pad-strncmp zero (x ∷ a) b ha hb p q = absurd (omega arith)
pad-strncmp zero [] (y ∷ b) ha hb p q = absurd (omega arith)
pad-strncmp (suc n) [] [] ha hb p q = refl
pad-strncmp (suc n) [] (y ∷ b) ha hb p q = ground arith
pad-strncmp (suc n) (x ∷ a) [] ha hb p q = ground arith
pad-strncmp (suc n) (x ∷ a) (y ∷ b) ha hb p q =
    ground (arith, pad-strncmp n a b ha.2 hb.2 (omega arith) (omega arith))

-- Texts compare as ordering keys byte by byte, a prefix before what it starts.
pub compare-text :
    (a b : List ℕ)
    → IsText a
    → IsText b
    → length a ≤ 24
    → length b ≤ 24
    → compare_ordering_keys (pk_to_ok (Value.text a)) (pk_to_ok (Value.text b)) ≡ compare_texts a b
unfolding pk_to_ok compare_ordering_keys
compare-text a b ha hb p q =
    rw (fits_text (length a) p, fits_text (length b) q) (pad-strncmp 24 a b ha hb p q)

-- On the keys of one type `compareOrderingKeys` is a total order: 0 exactly on equal keys, a swap
-- of the arguments swaps the sign, and being less is transitive.
pub compare-IsTotalOrder :
    (t : OrderingType) (a b c : OrderingKey)
    → KeyOf t a
    → KeyOf t b
    → KeyOf t c
    → ((compare_ordering_keys a b ≡ Ordering.eq) ↔ (a ≡ b))
      × ((compare_ordering_keys a b ≡ Ordering.lt) ↔ (compare_ordering_keys b a ≡ Ordering.gt))
      × (compare_ordering_keys a b ≡ Ordering.lt
          → compare_ordering_keys b c ≡ Ordering.lt
          → compare_ordering_keys a c ≡ Ordering.lt)
compare-IsTotalOrder t a b c ha hb hc = (
  (
    (λ e. key_code-injective t a b ha hb (ground (arith, compare-code t a b ha hb, e))),
    (λ e. rw e (ground (arith, compare-code t b b hb hb))),
  ),
  (
    (λ e. ground (arith, compare-code t a b ha hb, compare-code t b a hb ha, e)),
    (λ e. ground (arith, compare-code t a b ha hb, compare-code t b a hb ha, e)),
  ),
  (λ e f.
      ground (
        arith,
        compare-code t a b ha hb,
        compare-code t b c hb hc,
        compare-code t a c ha hc,
        e,
        f,
      )),
)
