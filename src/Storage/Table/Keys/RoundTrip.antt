-- ===== src/Storage/Table/Keys/RoundTrip.antt =====
-- What is read back of the words and keys written to a table's file, and which bytes matter.
use Prim.Native.Nat.{bit_or}
use stripe_sql.Prelude.{ℕ, suc, ◌+◌, ◌*◌, ◌%◌, ◌^◌, ◌<◌, ◌≡◌, refl, sym, ◌∙◌, subst, arith}
use stripe_sql.Prelude.Bits.{bit_or-disjoint, bit_or-byte}
use stripe_sql.Storage.Bytes.{
  Buffer, write_ulong_bytewise, write_uint_bytewise, read_ulong_bytewise, read_uint_bytewise,
  read_bytes,
}
use stripe_sql.Storage.Bytes.RoundTrip.{read_ulong-write_ulong, read_uint-write_uint}
use stripe_sql.Storage.Table.Keys.{read_ulong, read_uint}

or_bytes :
    (a0 a1 a2 a3 a4 a5 a6 a7 : ℕ)
    → a0 < 256
    → a1 < 256
    → a2 < 256
    → a3 < 256
    → a4 < 256
    → a5 < 256
    → a6 < 256
    → a7 < 256
    → bit_or
        (bit_or
          (bit_or
            (bit_or
              (bit_or
                (bit_or
                  (bit_or (a0 * 2 ^ 56 % 2 ^ 64) (a1 * 2 ^ 48 % 2 ^ 64))
                  (a2 * 2 ^ 40 % 2 ^ 64))
                (a3 * 2 ^ 32 % 2 ^ 64))
              (a4 * 2 ^ 24 % 2 ^ 64))
            (a5 * 2 ^ 16 % 2 ^ 64))
          (a6 * 2 ^ 8 % 2 ^ 64))
        a7
      ≡ ((((((a0 * 256 + a1) * 256 + a2) * 256 + a3) * 256 + a4) * 256 + a5) * 256 + a6) * 256 + a7
or_bytes a0 a1 a2 a3 a4 a5 a6 a7 h0 h1 h2 h3 h4 h5 h6 h7 = ground (
  arith,
  bit_or-disjoint 56 a0 (a1 * 2 ^ 48),
  bit_or-disjoint 48 (a0 * 256 + a1) (a2 * 2 ^ 40),
  bit_or-disjoint 40 ((a0 * 256 + a1) * 256 + a2) (a3 * 2 ^ 32),
  bit_or-disjoint 32 (((a0 * 256 + a1) * 256 + a2) * 256 + a3) (a4 * 2 ^ 24),
  bit_or-disjoint 24 ((((a0 * 256 + a1) * 256 + a2) * 256 + a3) * 256 + a4) (a5 * 2 ^ 16),
  bit_or-disjoint 16 (((((a0 * 256 + a1) * 256 + a2) * 256 + a3) * 256 + a4) * 256 + a5)
      (a6 * 2 ^ 8),
  bit_or-disjoint 8 ((((((a0 * 256 + a1) * 256 + a2) * 256 + a3) * 256 + a4) * 256 + a5) * 256 + a6)
      a7,
)

or_zero : (b : ℕ) → b < 256 → bit_or 0 b ≡ b
or_zero b h = omega (arith, bit_or-byte 0 b h)

or_shifted : (x b : ℕ) → x < 2 ^ 56 → b < 256 → bit_or (x * 256 % 2 ^ 64) b ≡ x * 256 + b
or_shifted x b l h = ground (arith, l, h, bit_or-byte x b)

shift_bytes :
    (a0 a1 a2 a3 a4 a5 a6 a7 : ℕ)
    → a0 < 256
    → a1 < 256
    → a2 < 256
    → a3 < 256
    → a4 < 256
    → a5 < 256
    → a6 < 256
    → a7 < 256
    → bit_or
        (bit_or
            (bit_or
                (bit_or
                    (bit_or
                        (bit_or (bit_or (bit_or 0 a0 * 256 % 2 ^ 64) a1 * 256 % 2 ^ 64) a2
                          * 256
                          % 2 ^ 64)
                        a3
                      * 256
                      % 2 ^ 64)
                    a4
                  * 256
                  % 2 ^ 64)
                a5
              * 256
              % 2 ^ 64)
            a6
          * 256
          % 2 ^ 64)
        a7
      ≡ ((((((a0 * 256 + a1) * 256 + a2) * 256 + a3) * 256 + a4) * 256 + a5) * 256 + a6) * 256 + a7
shift_bytes a0 a1 a2 a3 a4 a5 a6 a7 h0 h1 h2 h3 h4 h5 h6 h7 =
    rw
      (
        or_zero a0 h0,
        or_shifted (a0) a1 (omega arith) h1,
        or_shifted (a0 * 256 + a1) a2 (omega arith) h2,
        or_shifted ((a0 * 256 + a1) * 256 + a2) a3 (omega arith) h3,
        or_shifted (((a0 * 256 + a1) * 256 + a2) * 256 + a3) a4 (omega arith) h4,
        or_shifted ((((a0 * 256 + a1) * 256 + a2) * 256 + a3) * 256 + a4) a5 (omega arith) h5,
        or_shifted (((((a0 * 256 + a1) * 256 + a2) * 256 + a3) * 256 + a4) * 256 + a5) a6
            (omega arith) h6,
        or_shifted ((((((a0 * 256 + a1) * 256 + a2) * 256 + a3) * 256 + a4) * 256 + a5) * 256 + a6)
            a7 (omega arith) h7,
      )
      refl

next : (p k : ℕ) → p + k + 1 ≡ p + (k + 1)
next p k = omega arith

read_ulong-bytewise :
    (a : Buffer) (p : ℕ)
    → a p < 256
    → a (p + 1) < 256
    → a (p + 2) < 256
    → a (p + 3) < 256
    → a (p + 4) < 256
    → a (p + 5) < 256
    → a (p + 6) < 256
    → a (p + 7) < 256
    → read_ulong a p ≡ read_ulong_bytewise a p
unfolding read_ulong read_ulong_bytewise read_bytes
read_ulong-bytewise a p h0 h1 h2 h3 h4 h5 h6 h7 =
    or_bytes (a p) (a (p + 1)) (a (p + 2)) (a (p + 3)) (a (p + 4)) (a (p + 5)) (a (p + 6))
      (a (p + 7)) h0 h1 h2 h3 h4 h5 h6 h7
    ∙ rw (next p 1, next p 2, next p 3, next p 4, next p 5, next p 6)
        (sym (
          shift_bytes (a p) (a (p + 1)) (a (p + 2)) (a (p + 3)) (a (p + 4)) (a (p + 5)) (a (p + 6))
            (a (p + 7)) h0 h1 h2 h3 h4 h5 h6 h7))

write_ulong-IsByte : (arr : Buffer) (p v k : ℕ) → k < 8 → write_ulong_bytewise arr p v (p + k) < 256
unfolding write_ulong_bytewise
write_ulong-IsByte arr p v k h = ground (arith, h)

pub read_ulong-write :
    (arr : Buffer) (p v : ℕ) → v < 2 ^ 64 → read_ulong (write_ulong_bytewise arr p v) p ≡ v
read_ulong-write arr p v h =
    read_ulong-bytewise (write_ulong_bytewise arr p v) p first (is_byte 1 (omega arith))
      (is_byte 2 (omega arith)) (is_byte 3 (omega arith)) (is_byte 4 (omega arith))
      (is_byte 5 (omega arith)) (is_byte 6 (omega arith)) (is_byte 7 (omega arith))
    ∙ read_ulong-write_ulong arr p v h
  where
    is_byte : (k : ℕ) → k < 8 → write_ulong_bytewise arr p v (p + k) < 256
    is_byte = write_ulong-IsByte arr p v

    first : write_ulong_bytewise arr p v p < 256
    first =
        subst (λ q. write_ulong_bytewise arr p v q < 256) (omega arith) (is_byte 0 (omega arith))

pub read_uint-write :
    (arr : Buffer) (p v : ℕ) → v < 2 ^ 32 → read_uint (write_uint_bytewise arr p v) p ≡ v
unfolding read_uint read_uint_bytewise
read_uint-write arr p v h = read_uint-write_uint arr p v h

-- The two buffers agree on `n` bytes from `p` on.
abbrev pub Agree : ℕ → ℕ → Buffer → Buffer → Type 0
Agree p n a b = (k : ℕ) → k < n → a (p + k) ≡ b (p + k)

Agree-first : (p n : ℕ) (a b : Buffer) → Agree p (suc n) a b → a p ≡ b p
Agree-first p n a b h = subst (λ q. a q ≡ b q) (omega arith) (h 0 (omega arith))

pub read_ulong-Agree : (a b : Buffer) (p : ℕ) → Agree p 8 a b → read_ulong a p ≡ read_ulong b p
unfolding read_ulong
read_ulong-Agree a b p h =
    rw
      (
        Agree-first p 7 a b h,
        h 1 (omega arith),
        h 2 (omega arith),
        h 3 (omega arith),
        h 4 (omega arith),
        h 5 (omega arith),
        h 6 (omega arith),
        h 7 (omega arith),
      )
      refl

pub read_uint-Agree : (a b : Buffer) (p : ℕ) → Agree p 4 a b → read_uint a p ≡ read_uint b p
unfolding read_uint
read_uint-Agree a b p h =
    rw (Agree-first p 3 a b h, h 1 (omega arith), h 2 (omega arith), h 3 (omega arith)) refl
