-- ===== src/Storage/Wal/Crc.antt =====
-- The CRC-32C checksum of wal.c.
use Prim.Native.Nat.{bit_xor}
use stripe_sql.Prelude.{
  ℕ, zero, suc, ◌+◌, ◌-◌, ◌/◌, ◌%◌, ◌^◌, ◌<◌, ◌≡◌, refl, ap, ◌∙◌, arith, ◌==◌, if◌then◌else◌,
}
use stripe_sql.Prelude.Word.{sub32}
use stripe_sql.Storage.Bytes.{Buffer}

abbrev pub poly_crc32c : ℕ
poly_crc32c = 0x82f63b78

-- One of the eight rounds that make a table entry.
crc_round : ℕ → ℕ
crc_round crc = if crc % 2 == 1 then bit_xor (crc / 2) poly_crc32c else crc / 2

-- The table, as the function from an index to its entry.
unfoldable pub crc32c_table : ℕ → ℕ
unfolding crc_round
crc32c_table i =
    crc_round (crc_round (crc_round (crc_round (crc_round (crc_round (crc_round (crc_round i)))))))

unfoldable pub crc_loop : ℕ → Buffer → ℕ → ℕ → ℕ
unfolding crc32c_table
crc_loop zero bytes i crc = crc
crc_loop (suc rounds) bytes i crc =
    crc_loop rounds bytes (i + 1) (bit_xor (crc / 256) (crc32c_table (bit_xor crc (bytes i) % 256)))

-- `~crc` before and after the loop.
unfoldable pub crc32c_compute : ℕ → Buffer → ℕ → ℕ
unfolding crc_loop
crc32c_compute crc bytes length =
    sub32 (2 ^ 32 - 1) (crc_loop length bytes 0 (sub32 (2 ^ 32 - 1) crc))

crc_loop-ext :
    (rounds : ℕ) (a b : Buffer) (i crc : ℕ)
    → ((k : ℕ) → k < rounds → a (i + k) ≡ b (i + k))
    → crc_loop rounds a i crc ≡ crc_loop rounds b i crc
unfolding crc_loop
crc_loop-ext zero a b i crc h = refl
crc_loop-ext (suc rounds) a b i crc h =
    ap (λ x. crc_loop rounds a (i + 1) (bit_xor (crc / 256) (crc32c_table (bit_xor crc x % 256))))
      (ground (arith, h 0))
    ∙ crc_loop-ext rounds a b (i + 1) _ (λ k lt. ground (arith, lt, h (k + 1)))

-- The checksum depends on the bytes that it covers, and on no others.
pub crc32c_compute-ext :
    (crc : ℕ) (a b : Buffer) (length : ℕ)
    → ((k : ℕ) → k < length → a k ≡ b k)
    → crc32c_compute crc a length ≡ crc32c_compute crc b length
unfolding crc32c_compute
crc32c_compute-ext crc a b length h =
    ap (sub32 (2 ^ 32 - 1)) (crc_loop-ext length a b 0 _ (λ k lt. ground (arith, lt, h k)))

pub crc32c_compute-lt : (crc : ℕ) (a : Buffer) (length : ℕ) → crc32c_compute crc a length < 2 ^ 32
unfolding crc32c_compute
crc32c_compute-lt crc a length = omega arith
