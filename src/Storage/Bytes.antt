-- ===== src/Storage/Bytes.antt =====
-- The byte encoding of src/storage_engine/file.c: integers in a buffer, most significant byte first.
-- A buffer is an array of bytes, and a pointer into it is the index it points at.
pub mod RoundTrip
use Prim.Native.Nat.{bit_or}
use stripe_sql.Prelude.{ℕ, zero, suc, ◌+◌, ◌*◌, ◌/◌, ◌%◌, ◌^◌, Array, put}

abbrev pub Buffer : Type 0
Buffer = Array ℕ

-- The loop of the writers, with `i` rounds left: `arr[i] = v & 0xFF; v >>= 8`.
unfoldable pub write_bytes : ℕ → Buffer → ℕ → ℕ → Buffer
write_bytes zero arr p v = arr
write_bytes (suc i) arr p v = write_bytes i (put arr (p + i) (v % 256)) p (v / 256)

unfoldable pub write_ulong_bytewise : Buffer → ℕ → ℕ → Buffer
unfolding write_bytes
write_ulong_bytewise arr p lui = write_bytes 8 arr p lui

unfoldable pub write_uint_bytewise : Buffer → ℕ → ℕ → Buffer
unfolding write_bytes
write_uint_bytewise arr p ui = write_bytes 4 arr p ui

unfoldable pub write_ushort_bytewise : Buffer → ℕ → ℕ → Buffer
write_ushort_bytewise arr p us = put (put arr p (us / 256 % 256)) (p + 1) (us % 256)

-- `out = (out << 8) | a[i]` on a 64-bit word, for `n` rounds.
unfoldable pub read_bytes : ℕ → Buffer → ℕ → ℕ → ℕ
read_bytes zero arr p out = out
read_bytes (suc n) arr p out = read_bytes n arr (p + 1) (bit_or (out * 256 % 2 ^ 64) (arr p))

unfoldable pub read_ulong_bytewise : Buffer → ℕ → ℕ
unfolding read_bytes
read_ulong_bytewise arr p = read_bytes 8 arr p 0

unfoldable pub read_uint_bytewise : Buffer → ℕ → ℕ
read_uint_bytewise arr p =
    bit_or
      (bit_or (bit_or (arr p * 2 ^ 24 % 2 ^ 32) (arr (p + 1) * 2 ^ 16 % 2 ^ 32))
        (arr (p + 2) * 2 ^ 8 % 2 ^ 32))
      (arr (p + 3))

unfoldable pub read_ushort_bytewise : Buffer → ℕ → ℕ
read_ushort_bytewise arr p = bit_or (arr p * 256) (arr (p + 1)) % 2 ^ 16
