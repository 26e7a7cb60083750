-- ===== src/Value.antt =====
-- The tagged values of src/value.h. A double is its bit pattern, a text the bytes before its NUL.
use stripe_sql.Prelude.{ℕ, Bool, List}
use stripe_sql.Prelude.Int.{ℤ}

pub data Value : Type 0 where
  null : Value
  boolean : Bool → Value
  integer : ℤ → Value
  floating : ℕ → Value
  text : List ℕ → Value
  u32 : ℕ → Value
