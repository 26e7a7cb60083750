-- ===== src/Storage/Page/Empty.antt =====
-- The page that `makeSPage` returns.
use stripe_sql.Prelude.{ℕ, ◌≡◌, refl, none, arith}
use stripe_sql.Storage.Ordering.{OrderingType, OrderingKey}
use stripe_sql.Storage.Ordering.Code.{KeyOf}
use stripe_sql.Storage.Page.Data.{make_spage}
use stripe_sql.Storage.Page.Valid.{IsValid, total}
use stripe_sql.Storage.Page.Found.{contents, contents-lacking}

-- A new page is valid for keys of any type.
pub make_spage-IsValid :
    (t : OrderingType) (slots entries cap key_size : ℕ)
    → IsValid t (make_spage slots entries cap key_size)
unfolding make_spage total
make_spage-IsValid t slots entries cap key_size = record {
  slots_fit = omega arith;
  entries_fit = omega arith;
  small = omega arith;
  ordered = record { keys = λ i h. elim h [ ]; sorted = λ i j h lt. elim lt [ ] };
  laid_out = record { inside = λ i h. elim h [ ]; apart = λ i j h lt. elim lt [ ] };
  accounted = record { lengths = refl; sizes = refl };
  lowest = refl;
  highest = refl;
}

-- A new page holds nothing.
pub contents-make_spage :
    (t : OrderingType) (slots entries cap key_size : ℕ) (key : OrderingKey)
    → KeyOf t key
    → contents (make_spage slots entries cap key_size) key ≡ none
contents-make_spage t slots entries cap key_size key k =
    contents-lacking t (make_spage slots entries cap key_size) key
      (make_spage-IsValid t slots entries cap key_size).ordered k
      (unfold make_spage in (λ i h. elim h [ ]))
