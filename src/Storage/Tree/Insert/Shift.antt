-- ===== src/Storage/Tree/Insert/Shift.antt =====
-- What the shifts leave in each cell.
use stripe_sql.Prelude.{
  ℕ, zero, suc, ◌+◌, ◌-◌, ◌≤◌, ◌<◌, ◌≡◌, arith, Array, put, ltb, leb, ◌==◌, if◌then◌else◌, ◌&&◌,
  false, Bool-cases, inl, inr, ==_iff, ltb→lt, ltb→le, ◌∙◌,
}
use stripe_sql.Storage.Ordering.{OrderingKey, zero_key}
use stripe_sql.Storage.Tree.Insert.{
  shift_right, shift_left, shift_key_array_r, shift_address_array_r,
}

module _ {A : Type 0} where
  right_step :
      (array : Array A) (i start j : ℕ)
      → start < i
      → (if ltb start j && leb j (i - 1)
          then put array i (array (i - 1)) (j - 1)
          else put array i (array (i - 1)) j)
        ≡ (if ltb start j && leb j i then array (j - 1) else array j)
  right_step array i start j h = elim (Bool-cases (j == i)) [
    | inl same ↦ let e : j ≡ i = (==_iff j i).0 same in rw e (ground (arith, h))
    | inr other ↦ ground (arith, h, other)
  ]

  nothing_between :
      (array : Array A) (i start j : ℕ)
      → i ≤ start
      → array j ≡ (if ltb start j && leb j i then array (j - 1) else array j)
  nothing_between array i start j h = ground (arith, h)

  pub shift_right_cell :
      (fuel : ℕ) (array : Array A) (i start : ℕ)
      → i ≤ start + fuel
      → (j : ℕ)
      → shift_right fuel array i start j
        ≡ (if ltb start j && leb j i then array (j - 1) else array j)
  unfolding shift_right
  shift_right_cell zero array i start h j = ground (arith, h)
  shift_right_cell (suc fuel) array i start h j = elim (Bool-cases (ltb start i)) [
    | inl more ↦ rw more (
        shift_right_cell fuel (put array i (array (i - 1))) (i - 1) start (omega (arith, h)) j
        ∙ right_step array i start j (ltb→lt start i more))
    | inr done ↦ rw done (nothing_between array i start j (ltb→le start i done))
  ]

  pub shift_left_cell :
      (fuel : ℕ) (array : Array A) (i len : ℕ)
      → len ≤ i + fuel
      → (j : ℕ)
      → shift_left fuel array i len j
        ≡ (if leb i j && ltb j (len - 1) then array (j + 1) else array j)
  unfolding shift_left
  shift_left_cell zero array i len h j = ground (arith, h)
  shift_left_cell (suc fuel) array i len h j = ground (
    arith,
    h,
    shift_left_cell fuel (put array i (array (i + 1))) (i + 1) len (omega (arith, h)) j,
  )

  -- The array with `x` in front of cell `i`.
  abbrev pub inserted : Array A → ℕ → A → Array A
  inserted array i x j = if ltb j i then array j else if j == i then x else array (j - 1)

  put-inserted :
      (array : Array A) (i len : ℕ) (blank x : A)
      → i < len
      → (j : ℕ) → j < len
      → put (put (shift_right len array (len - 1) i) i blank) i x j ≡ inserted array i x j
  put-inserted array i len blank x h j l =
      ground (arith, h, l, shift_right_cell len array (len - 1) i (omega (arith, h)) j)

pub put-shift_key_array_r :
    (array : Array OrderingKey) (i len : ℕ) (x : OrderingKey)
    → i < len
    → (j : ℕ) → j < len
    → put (shift_key_array_r array i len).1 i x j ≡ inserted array i x j
unfolding shift_key_array_r
put-shift_key_array_r array i len x h j l =
    let more : leb len i ≡ false = ground (arith, h) in
    rw more (put-inserted array i len zero_key x h j l)

pub put-shift_address_array_r :
    (array : Array ℕ) (i len : ℕ) (x : ℕ)
    → i < len
    → (j : ℕ) → j < len
    → put (shift_address_array_r array i len).1 i x j ≡ inserted array i x j
unfolding shift_address_array_r
put-shift_address_array_r array i len x h j l =
    let more : leb len i ≡ false = ground (arith, h) in rw more (put-inserted array i len 0 x h j l)
