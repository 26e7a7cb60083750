-- ===== src/Storage/Table/Keys.antt =====
-- Ordering keys in a table's file.
pub mod RoundTrip
pub mod Back
use Prim.Native.Nat.{bit_or}
use stripe_sql.Prelude.{
  ℕ, zero, suc, ◌+◌, ◌*◌, ◌/◌, ◌%◌, ◌^◌, ◌&&◌, List, [], ◌∷◌, ◌++◌, copy, slice, get_or, ltb, leb,
  ◌==◌, if◌then◌else◌,
}
use stripe_sql.Storage.Bytes.{Buffer, write_ulong_bytewise}
use stripe_sql.Storage.Ordering.{
  OrderingType, OrderingKey, of_ulong, of_string, of_double, text_key_max_len,
}

-- memset(buf + p, 0, n)
abbrev pub clear_bytes : Buffer → ℕ → ℕ → Buffer
clear_bytes buf p n j = if leb p j && ltb j (p + n) then 0 else buf j

-- strnlen
unfoldable pub strnlen : ℕ → List ℕ → ℕ
strnlen (suc n) (c ∷ s) = if c == 0 then 0 else suc (strnlen n s)
strnlen n s = 0

-- The bytes of a word as they stand in memory, the lowest first.
abbrev pub word_bytes : ℕ → ℕ → List ℕ
word_bytes zero v = []
word_bytes (suc n) v = v % 256 ∷ word_bytes n (v / 256)

-- k.as.string and k.as.u64, whichever member was written. Behind the word the union is zero.
unfoldable pub as_string : OrderingKey → List ℕ
as_string (of_string s) = s
as_string (of_ulong n) = word_bytes 8 n
as_string (of_double n) = word_bytes 8 n

abbrev pub word_of_bytes : ℕ → List ℕ → ℕ
word_of_bytes zero s = 0
word_of_bytes (suc n) [] = 0
word_of_bytes (suc n) (c ∷ s) = c + 256 * word_of_bytes n s

unfoldable pub as_u64 : OrderingKey → ℕ
as_u64 (of_ulong n) = n
as_u64 (of_double n) = n
as_u64 (of_string s) = word_of_bytes 8 s

unfoldable pub write_ordering_key : Buffer → ℕ → OrderingKey → OrderingType → Buffer
write_ordering_key buf p k OrderingType.string =
    copy (clear_bytes buf p text_key_max_len) p (λ i. get_or (as_string k) i 0) 0
      (strnlen text_key_max_len (as_string k))
write_ordering_key buf p k _ = write_ulong_bytewise buf p (as_u64 k)

unfoldable pub read_uint : Buffer → ℕ → ℕ
read_uint bytes p =
    bit_or
      (bit_or (bit_or (bytes p * 2 ^ 24 % 2 ^ 32) (bytes (p + 1) * 2 ^ 16 % 2 ^ 32))
        (bytes (p + 2) * 2 ^ 8 % 2 ^ 32))
      (bytes (p + 3))

-- (uint64_t) a[i] << n
abbrev shifted : ℕ → ℕ → ℕ
shifted b n = b * 2 ^ n % 2 ^ 64

unfoldable pub read_ulong : Buffer → ℕ → ℕ
read_ulong a p =
    let b0 = shifted (a p) 56 in
    let b1 = bit_or b0 (shifted (a (p + 1)) 48) in
    let b2 = bit_or b1 (shifted (a (p + 2)) 40) in
    let b3 = bit_or b2 (shifted (a (p + 3)) 32) in
    let b4 = bit_or b3 (shifted (a (p + 4)) 24) in
    let b5 = bit_or b4 (shifted (a (p + 5)) 16) in
    let b6 = bit_or b5 (shifted (a (p + 6)) 8) in bit_or b6 (a (p + 7))

unfoldable pub read_ordering_key : Buffer → ℕ → OrderingType → OrderingKey
unfolding read_ulong
read_ordering_key buf p OrderingType.string = of_string (slice buf p text_key_max_len ++ (0 ∷ []))
read_ordering_key buf p OrderingType.ulong = of_ulong (read_ulong buf p)
read_ordering_key buf p OrderingType.double = of_double (read_ulong buf p)
