-- ===== src/Tests/BytesTests.antt =====
-- The byte encoding and the ordering keys on concrete inputs.
use stripe_sql.Prelude.{◌≡◌, refl, arith, slice, [], ◌∷◌}
use stripe_sql.Storage.Bytes.{
  Buffer, write_ulong_bytewise, write_uint_bytewise, write_ushort_bytewise, read_ulong_bytewise,
  read_ushort_bytewise,
}
use stripe_sql.Storage.Bytes.RoundTrip.{read_ulong-write_ulong}

abbrev blank : Buffer
blank = λ _. 0

uint_bytes : slice (write_uint_bytewise blank 2 0x01020304) 0 8 ≡ 0 ∷ 0 ∷ 1 ∷ 2 ∷ 3 ∷ 4 ∷ 0 ∷ 0 ∷ []
unfolding write_uint_bytewise
uint_bytes = refl

ushort_back : read_ushort_bytewise (write_ushort_bytewise blank 1 0x1234) 1 ≡ 0x1234
unfolding write_ushort_bytewise read_ushort_bytewise
ushort_back = refl

read_ulong-write_ulong_example :
    read_ulong_bytewise (write_ulong_bytewise blank 3 0x0102030405060708) 3 ≡ 0x0102030405060708
read_ulong-write_ulong_example = read_ulong-write_ulong blank 3 0x0102030405060708 (omega arith)
