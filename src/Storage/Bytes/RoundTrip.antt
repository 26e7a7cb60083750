-- ===== src/Storage/Bytes/RoundTrip.antt =====
-- What the readers of file.c return for what the writers wrote, and which bytes a writer touches.
use Prim.Native.Nat.{bit_or}
use stripe_sql.Prelude.{
  ℕ, zero, suc, ◌+◌, ◌*◌, ◌/◌, ◌%◌, ◌^◌, ◌≤◌, ◌<◌, ◌≡◌, refl, ap, ◌∙◌, ◌⊎◌, arith,
}
use stripe_sql.Prelude.Bits.{bit_or-byte, bit_or-disjoint}
use stripe_sql.Storage.Bytes.{
  Buffer, write_ulong_bytewise, write_uint_bytewise, write_ushort_bytewise, read_bytes,
  read_ulong_bytewise, read_uint_bytewise, read_ushort_bytewise,
}

-- One step of the readers puts a word's lowest byte back under the rest of it.
join_byte : (v : ℕ) → v < 2 ^ 64 → bit_or (v / 256 * 256 % 2 ^ 64) (v % 256) ≡ v
join_byte v h = ground (arith, bit_or-byte (v / 256) (v % 256))

join_bytes :
    (a b c d : ℕ)
    → a < 256
    → b < 256
    → c < 256
    → d < 256
    → bit_or (bit_or (bit_or (a * 2 ^ 24 % 2 ^ 32) (b * 2 ^ 16 % 2 ^ 32)) (c * 2 ^ 8 % 2 ^ 32)) d
      ≡ ((a * 256 + b) * 256 + c) * 256 + d
join_bytes a b c d ha hb hc hd = ground (
  arith,
  bit_or-disjoint 24 a (b * 2 ^ 16),
  bit_or-disjoint 16 (a * 256 + b) (c * 2 ^ 8),
  bit_or-disjoint 8 ((a * 256 + b) * 256 + c) d,
)

-- A word without its lowest `n` bytes.
abbrev high : ℕ → ℕ → ℕ
high zero v = v
high (suc n) v = high n v / 256

-- The `n` cells from `q` on hold the `n` lowest bytes of `v`.
abbrev Spells : ℕ → Buffer → ℕ → ℕ → Type 0
Spells zero arr q v = Unit
Spells (suc n) arr q v = (arr q ≡ high n v % 256) × Spells n arr (q + 1) v

high-le : (n v : ℕ) → high n v ≤ v
high-le zero v = omega arith
high-le (suc n) v = omega (arith, high-le n v)

read_bytes-Spells :
    (n : ℕ) (arr : Buffer) (q v : ℕ)
    → v < 2 ^ 64
    → Spells n arr q v
    → read_bytes n arr q (high n v) ≡ v
unfolding read_bytes
read_bytes-Spells zero arr q v h s = refl
read_bytes-Spells (suc n) arr q v h s =
    rw (s.0, join_byte (high n v) (omega (arith, high-le n v)))
      (read_bytes-Spells n arr (q + 1) v h s.1)

cells : (arr : Buffer) (p v : ℕ) → Spells 8 (write_ulong_bytewise arr p v) p v
unfolding write_ulong_bytewise
cells arr p v = (
  ground arith,
  (
    ground arith,
    (
      ground arith,
      (ground arith, (ground arith, (ground arith, (ground arith, (ground arith, tt))))),
    ),
  ),
)

-- A 64-bit word written at `p` is read back.
pub read_ulong-write_ulong :
    (arr : Buffer) (p v : ℕ) → v < 2 ^ 64 → read_ulong_bytewise (write_ulong_bytewise arr p v) p ≡ v
unfolding read_ulong_bytewise
read_ulong-write_ulong arr p v h =
    ap (read_bytes 8 (write_ulong_bytewise arr p v) p) top
    ∙ read_bytes-Spells 8 (write_ulong_bytewise arr p v) p v h (cells arr p v)
  where
    top : ◌≡◌ {A = ℕ} 0 (high 8 v)
    top = omega arith

pub read_uint-write_uint :
    (arr : Buffer) (p v : ℕ) → v < 2 ^ 32 → read_uint_bytewise (write_uint_bytewise arr p v) p ≡ v
unfolding write_uint_bytewise read_uint_bytewise
read_uint-write_uint arr p v h =
    ground (
      arith,
      join_bytes (v / 256 / 256 / 256 % 256) (v / 256 / 256 % 256) (v / 256 % 256) (v % 256),
    )

pub read_ushort-write_ushort :
    (arr : Buffer) (p v : ℕ)
    → v < 2 ^ 16
    → read_ushort_bytewise (write_ushort_bytewise arr p v) p ≡ v
unfolding write_ushort_bytewise read_ushort_bytewise
read_ushort-write_ushort arr p v h = ground (arith, bit_or-byte (v / 256 % 256) (v % 256))

-- The writers touch no byte outside the ones they are given.
pub write_ulong-frame :
    (arr : Buffer) (p v j : ℕ) → (j < p) ⊎ (p + 8 ≤ j) → write_ulong_bytewise arr p v j ≡ arr j
unfolding write_ulong_bytewise
write_ulong-frame arr p v j h = ground arith

pub write_uint-frame :
    (arr : Buffer) (p v j : ℕ) → (j < p) ⊎ (p + 4 ≤ j) → write_uint_bytewise arr p v j ≡ arr j
unfolding write_uint_bytewise
write_uint-frame arr p v j h = ground arith

pub write_ushort-frame :
    (arr : Buffer) (p v j : ℕ) → (j < p) ⊎ (p + 2 ≤ j) → write_ushort_bytewise arr p v j ≡ arr j
unfolding write_ushort_bytewise
write_ushort-frame arr p v j h = ground arith

pub write_uint-IsByte :
    (arr : Buffer) (p v j : ℕ) → arr j < 256 → write_uint_bytewise arr p v j < 256
unfolding write_uint_bytewise
write_uint-IsByte arr p v j h = ground arith
