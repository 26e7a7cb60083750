-- ===== src/Storage/Page/Insert/Cells.antt =====
-- Cell by cell, what the loops of `SPInsert` leave in the arrays.
use stripe_sql.Prelude.{
  ℕ, zero, suc, ◌+◌, ◌-◌, ◌<◌, ◌≤◌, ◌≡◌, ◌≢◌, ◌&&◌, Array, arith, ap₂, Bool-cases, inl, inr, ltb,
  leb, ◌==◌, if◌then◌else◌,
}
use stripe_sql.Storage.Ordering.{OrderingType}
use stripe_sql.Storage.Ordering.Code.{KeyOf, key_code}
use stripe_sql.Storage.Page.Data.{Entry, SpSlot}
use stripe_sql.Storage.Page.Insert.{shift_r_loop, shift_slot_array_r, append_loop}
use stripe_sql.Storage.Page.Valid.{IsOrdered, IsLaidOut, total, total-same}
use stripe_sql.Storage.Page.Found.{Splits}

shift_r_loop-cell :
    (rounds : ℕ) (arr : Array SpSlot) (start j : ℕ)
    → shift_r_loop rounds arr start j
      ≡ (if ltb start j && leb j (start + rounds) then arr (j - 1) else arr j)
unfolding shift_r_loop
shift_r_loop-cell zero arr start j = ground arith
shift_r_loop-cell (suc rounds) arr start j = ground (
  arith,
  shift_r_loop-cell rounds (λ i. if i == start + suc rounds then arr (start + rounds) else arr i)
      start j,
)

pub append_loop-cell :
    (rounds : ℕ) (source : Array Entry) (i : ℕ) (entries : Array Entry) (count j : ℕ)
    → append_loop rounds source i entries count j
      ≡ (if leb count j && ltb j (count + rounds) then source (i + (j - count)) else entries j)
unfolding append_loop
append_loop-cell zero source i entries count j = ground arith
append_loop-cell (suc rounds) source i entries count j = ground (
  arith,
  append_loop-cell rounds source (i + 1) (λ k. if k == count then source i else entries k)
      (count + 1) j,
)

-- The slots with `slot` put in before the one at `index`.
abbrev pub inserted : Array SpSlot → ℕ → SpSlot → Array SpSlot
inserted slots index slot j =
    if j == index then slot else if ltb index j then slots (j - 1) else slots j

-- Shifting and writing puts the slot in.
pub shifted-cell :
    (slots : Array SpSlot) (index n : ℕ) (slot : SpSlot) (j : ℕ)
    → index ≤ n
    → j ≤ n
    → (if j == index then slot else shift_slot_array_r slots index (n + 1) j)
      ≡ inserted slots index slot j
unfolding shift_slot_array_r
shifted-cell slots index n slot j h k =
    ground (arith, shift_r_loop-cell (n + 1 - 1 - index) slots index j)

module _ (t : OrderingType) (slots : Array SpSlot) (n index : ℕ) (slot : SpSlot) where
  -- A key that the slots lack goes where the search ends.
  pub inserted-IsOrdered :
      IsOrdered t slots n
      → KeyOf t slot.id
      → Splits slots slot.id n index
      → ((i : ℕ) → i < n → key_code (slots i).id ≢ key_code slot.id)
      → IsOrdered t (inserted slots index slot) (n + 1)
  inserted-IsOrdered o k s fresh = record {
    keys = λ i h. ground (arith, o.keys i, o.keys (i - 1), k);
    sorted = λ i j h lt. ground (
      arith,
      o.sorted i j,
      o.sorted (i - 1) (j - 1),
      o.sorted i (j - 1),
      s.within,
      s.below i,
      s.above (j - 1),
      fresh (j - 1),
    );
  }

  -- Its entries go behind the ones in use.
  pub inserted-IsLaidOut :
      (used : ℕ)
      → IsLaidOut slots n used
      → slot.ptr ≡ used
      → index ≤ n
      → IsLaidOut (inserted slots index slot) (n + 1) (used + slot.len)
  inserted-IsLaidOut used l e w = record {
    inside = λ i h. ground (arith, l.inside i, l.inside (i - 1), e);
    apart = λ i j h lt. ground (
      arith,
      e,
      l.inside i,
      l.inside (i - 1),
      l.inside (j - 1),
      l.inside j,
      l.apart i j,
      l.apart (i - 1) (j - 1),
      l.apart i (j - 1),
    );
  }

-- The sum over the slots grows by what the new one adds.
pub total-inserted :
    (f : SpSlot → ℕ) (slots : Array SpSlot) (n index : ℕ) (slot : SpSlot)
    → index ≤ n
    → total (λ i. f (inserted slots index slot i)) (suc n) ≡ total (λ i. f (slots i)) n + f slot
unfolding total
total-inserted f slots zero index slot h = ground arith
total-inserted f slots (suc n) index slot h = elim (Bool-cases (index == suc n)) [
  | inr lower ↦ ground (arith, lower, total-inserted f slots n index slot)
  | inl top ↦
      ap₂ ◌+◌
        (ap₂ ◌+◌
          (total-same (λ i. f (slots i)) (λ i. f (inserted slots index slot i)) n
            (λ i lt. ground (arith, top)))
          (ground (arith, top)))
        (ground (arith, top))
]
