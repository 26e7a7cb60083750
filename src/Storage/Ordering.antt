-- ===== src/Storage/Ordering.antt =====
-- Ordering keys, src/storage_engine/ordering.c: what the nodes and pages of a table compare.
pub mod Code
pub mod Primary
pub mod Floating
use Prim.Native.Nat.{bit_xor}
use stripe_sql.Prelude.{
  ℕ, zero, suc, ◌+◌, ◌-◌, ◌/◌, ◌^◌, Ordering, List, [], ◌∷◌, Bool, true, false, ltb, ◌==◌,
  if◌then◌else◌, length,
}
use stripe_sql.Prelude.Int.{to_u64}
use stripe_sql.Value.{Value}

abbrev pub text_key_max_len : ℕ
text_key_max_len = 24

pub data OrderingType : Type 0 where
  ulong string double : OrderingType

-- The tag and the member of the union that it selects; a string is its whole array.
pub data OrderingKey : Type 0 where
  of_ulong : ℕ → OrderingKey
  of_string : List ℕ → OrderingKey
  of_double : ℕ → OrderingKey

abbrev pub key_type : OrderingKey → OrderingType
key_type (of_ulong n) = OrderingType.ulong
key_type (of_string s) = OrderingType.string
key_type (of_double n) = OrderingType.double

-- (ordering_key){0}
abbrev pub zero_key : OrderingKey
zero_key = of_ulong 0

abbrev sign_bit : ℕ
sign_bit = 2 ^ 63

-- `n` cells that start with the text and are zero behind it.
unfoldable pub pad : ℕ → List ℕ → List ℕ
pad zero s = []
pad (suc n) [] = 0 ∷ pad n []
pad (suc n) (c ∷ s) = c ∷ pad n s

flip_double : ℕ → ℕ
flip_double whole = if whole / 2 ^ 63 == 1 then 2 ^ 64 - 1 - whole else bit_xor whole sign_bit

boolean_word : Bool → ℕ
boolean_word true = 1
boolean_word false = 0

-- The default case reads the union as an integer: zero for a null, and the flag for a Boolean.
unfoldable pub pk_to_ok : Value → OrderingKey
unfolding flip_double boolean_word pad
pk_to_ok (Value.floating bits) = of_double (flip_double bits)
pk_to_ok (Value.integer i) = of_ulong (bit_xor (to_u64 i) sign_bit)
pk_to_ok (Value.text s) =
    if ltb text_key_max_len (length s) then zero_key else of_string (pad (text_key_max_len + 1) s)
pk_to_ok (Value.u32 n) = of_ulong n
pk_to_ok Value.null = of_ulong 0
pk_to_ok (Value.boolean b) = of_ulong (boolean_word b)

unfoldable pub ordering_key_disk_size : OrderingType → ℕ
ordering_key_disk_size OrderingType.string = text_key_max_len
ordering_key_disk_size OrderingType.ulong = 8
ordering_key_disk_size OrderingType.double = 8

-- The sign of `strncmp`: at most `n` cells, and none behind a NUL.
unfoldable pub strncmp : ℕ → List ℕ → List ℕ → Ordering
strncmp (suc n) (x ∷ xs) (y ∷ ys) =
    let rest = strncmp n xs ys in
    if ltb x y
    then Ordering.lt
    else if ltb y x
    then Ordering.gt
    else if x == 0
    then Ordering.eq
    else rest
strncmp n xs ys = Ordering.eq

unfoldable pub txt_key_cmp : List ℕ → List ℕ → Ordering
unfolding strncmp
txt_key_cmp a b = strncmp text_key_max_len a b

unfoldable pub u64_cmp : ℕ → ℕ → Ordering
u64_cmp a b = if ltb a b then Ordering.lt else if a == b then Ordering.eq else Ordering.gt

-- -1, 0 and 1 are `lt`, `eq` and `gt`. Keys of two types are reported and compare as equal.
unfoldable pub compare_ordering_keys : OrderingKey → OrderingKey → Ordering
unfolding u64_cmp txt_key_cmp
compare_ordering_keys (of_ulong a) (of_ulong b) = u64_cmp a b
compare_ordering_keys (of_double a) (of_double b) = u64_cmp a b
compare_ordering_keys (of_string a) (of_string b) = txt_key_cmp a b
compare_ordering_keys a b = Ordering.eq
