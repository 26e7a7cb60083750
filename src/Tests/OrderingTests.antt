-- ===== src/Tests/OrderingTests.antt =====
-- Ordering keys on concrete inputs.
use stripe_sql.Prelude.{ℕ, ◌≡◌, ◌↔◌, refl, arith, List, [], ◌∷◌, Ordering}
use stripe_sql.Prelude.Int.{pos, negsuc}
use stripe_sql.Value.{Value}
use stripe_sql.Storage.Ordering.{
  OrderingType, OrderingKey, of_ulong, pk_to_ok, compare_ordering_keys,
}
use stripe_sql.Storage.Ordering.Code.{KeyOf}
use stripe_sql.Storage.Ordering.Floating.{compare-doubles}
use stripe_sql.Storage.Ordering.Primary.{
  pk_to_ok-KeyOf, compare-integer, compare-text, compare-IsTotalOrder,
}

abbrev ab : List ℕ
ab = b'a' ∷ b'b' ∷ []

abbrev abc : List ℕ
abc = b'a' ∷ b'b' ∷ b'c' ∷ []

minus_one : pk_to_ok (Value.integer (negsuc 0)) ≡ of_ulong 0x7fffffffffffffff
unfolding pk_to_ok
minus_one = refl

prefix_first :
    compare_ordering_keys (pk_to_ok (Value.text ab)) (pk_to_ok (Value.text abc)) ≡ Ordering.lt
unfolding pk_to_ok compare_ordering_keys
prefix_first = refl

pk_to_ok-KeyOf_example : KeyOf OrderingType.string (pk_to_ok (Value.text abc))
pk_to_ok-KeyOf_example = pk_to_ok-KeyOf (Value.text abc) (omega arith)

compare-integer_example :
    compare_ordering_keys (pk_to_ok (Value.integer (negsuc 4))) (pk_to_ok (Value.integer (pos 3)))
    ≡ Ordering.lt
compare-integer_example = compare-integer (negsuc 4) (pos 3) (omega arith) (omega arith)

-- -1.0 and 0.1
compare-doubles_example :
    compare_ordering_keys
      (pk_to_ok (Value.floating 0xbff0000000000000))
      (pk_to_ok (Value.floating 0x3fb999999999999a))
    ≡ Ordering.lt
compare-doubles_example =
    compare-doubles 0xbff0000000000000 0x3fb999999999999a (omega arith) (omega arith)

-- -0.0 and 0.0
below_zero :
    compare_ordering_keys
      (pk_to_ok (Value.floating 0x8000000000000000))
      (pk_to_ok (Value.floating 0))
    ≡ Ordering.lt
unfolding pk_to_ok compare_ordering_keys
below_zero = refl

compare-text_example :
    compare_ordering_keys (pk_to_ok (Value.text ab)) (pk_to_ok (Value.text abc)) ≡ Ordering.lt
compare-text_example = compare-text ab abc (omega arith) (omega arith) (omega arith) (omega arith)

abbrev one : OrderingKey
one = of_ulong 1

abbrev two : OrderingKey
two = of_ulong 2

abbrev three : OrderingKey
three = of_ulong 3

compare-IsTotalOrder_example :
    ((compare_ordering_keys one two ≡ Ordering.eq) ↔ (one ≡ two))
    × ((compare_ordering_keys one two ≡ Ordering.lt)
        ↔ (compare_ordering_keys two one ≡ Ordering.gt))
    × (compare_ordering_keys one two ≡ Ordering.lt
        → compare_ordering_keys two three ≡ Ordering.lt
        → compare_ordering_keys one three ≡ Ordering.lt)
compare-IsTotalOrder_example =
    compare-IsTotalOrder OrderingType.ulong one two three (omega arith) (omega arith) (omega arith)
