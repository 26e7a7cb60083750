-- ===== src/Storage/Page/Delete/Cells.antt =====
-- Cell by cell, what the loops of `SPDelete` leave in the arrays.
use stripe_sql.Prelude.{
  ℕ, zero, suc, ◌+◌, ◌-◌, ◌<◌, ◌≤◌, ◌≡◌, ◌≢◌, ◌⊎◌, inl, inr, ◌&&◌, Array, arith, ltb, leb, ◌==◌,
  if◌then◌else◌, Bool-cases, ◌^◌,
}
use stripe_sql.Prelude.Word.{sub32}
use stripe_sql.Storage.Ordering.{OrderingType}
use stripe_sql.Storage.Page.Data.{Entry, SpSlot}
use stripe_sql.Storage.Page.Delete.{
  shift_l_loop, shift_slot_array_l, compact_loop, free_entries, clear_entries, rebase_slots,
}
use stripe_sql.Storage.Page.Valid.{IsOrdered, IsLaidOut, total, total-same}

shift_l_loop-cell :
    (rounds : ℕ) (arr : Array SpSlot) (i j : ℕ)
    → shift_l_loop rounds arr i j ≡ (if leb i j && ltb j (i + rounds) then arr (j + 1) else arr j)
unfolding shift_l_loop
shift_l_loop-cell zero arr i j = ground arith
shift_l_loop-cell (suc rounds) arr i j =
    ground (arith, shift_l_loop-cell rounds (λ k. if k == i then arr (i + 1) else arr k) (i + 1) j)

compact_loop-cell :
    (rounds : ℕ) (arr : Array Entry) (i len j : ℕ)
    → compact_loop rounds arr i len j
      ≡ (if leb i j && ltb j (i + rounds) then arr (j + len) else arr j)
unfolding compact_loop
compact_loop-cell zero arr i len j = ground arith
compact_loop-cell (suc rounds) arr i len j =
    ground
      (arith, compact_loop-cell rounds (λ k. if k == i then arr (i + len) else arr k) (i + 1) len j)

-- A slot that pointed after the entries of `deleted` follows them down.
abbrev pub rebased : SpSlot → SpSlot → SpSlot
rebased deleted s = if ltb deleted.ptr s.ptr then record s { ptr = s.ptr - deleted.len } else s

-- The slots without the one at `index`.
abbrev pub removed : Array SpSlot → ℕ → Array SpSlot
removed slots index j = rebased (slots index) (if ltb j index then slots j else slots (j + 1))

pub removed-cell :
    (slots : Array SpSlot) (index n j : ℕ)
    → index < n
    → suc j < n
    → (slots j).ptr < 2 ^ 32
    → (slots (j + 1)).ptr < 2 ^ 32
    → (j < index → (slots index).ptr < (slots j).ptr → (slots index).len ≤ (slots j).ptr)
    → (index ≤ j
        → (slots index).ptr < (slots (j + 1)).ptr
        → (slots index).len ≤ (slots (j + 1)).ptr)
    → shift_slot_array_l (rebase_slots slots n index (slots index)) index n j
      ≡ removed slots index j
unfolding shift_slot_array_l rebase_slots
removed-cell slots index n j h k s1 s2 a b =
    ground
      (arith, shift_l_loop-cell (n - 1 - index) (rebase_slots slots n index (slots index)) index j)

-- The entries without the `len` ones from `ptr` on.
pub compacted-cell :
    (entries : Array Entry) (ptr len used j : ℕ)
    → ptr + len ≤ used
    → used < 2 ^ 32
    → j + len < used
    → clear_entries
        (compact_loop (used - len - ptr) (free_entries entries ptr len) ptr len)
        (sub32 used len)
        used
        j
      ≡ (if ltb j ptr then entries j else entries (j + len))
unfolding clear_entries free_entries
compacted-cell entries ptr len used j h s lt =
    ground (arith, compact_loop-cell (used - len - ptr) (free_entries entries ptr len) ptr len j)

abbrev AreApart : SpSlot → SpSlot → Type 0
AreApart a b = (a.ptr + a.len ≤ b.ptr) ⊎ (b.ptr + b.len ≤ a.ptr)

rebased-apart :
    (d a b : SpSlot)
    → AreApart a d
    → AreApart b d
    → AreApart a b
    → AreApart (rebased d a) (rebased d b)
rebased-apart d a b p q r = ground arith

module _ (t : OrderingType) (slots : Array SpSlot) (n index : ℕ) (here : index < suc n) where
  pub removed-IsOrdered : IsOrdered t slots (suc n) → IsOrdered t (removed slots index) n
  removed-IsOrdered o = record {
    keys = λ i h. ground (arith, here, o.keys i, o.keys (i + 1));
    sorted = λ i j h lt.
        ground (arith, here, o.sorted i j, o.sorted (i + 1) (j + 1), o.sorted i (j + 1));
  }

  -- Two records share no entry, in either order of their slots.
  pub apart_from :
      (used : ℕ)
      → IsLaidOut slots (suc n) used
      → (i : ℕ) → i < suc n
      → i ≢ index
      → ((slots i).ptr + (slots i).len ≤ (slots index).ptr)
        ⊎ ((slots index).ptr + (slots index).len ≤ (slots i).ptr)
  apart_from used l i h ne = ground (arith, here, l.apart i index, l.apart index i)

  pub removed-IsLaidOut :
      (used : ℕ)
      → IsLaidOut slots (suc n) used
      → IsLaidOut (removed slots index) n (used - (slots index).len)
  removed-IsLaidOut used l = record {
    inside = λ i h. ground (
      arith,
      here,
      l.inside index,
      l.inside i,
      l.inside (i + 1),
      apart_from used l i,
      apart_from used l (i + 1),
    );
    apart = λ i j h lt.
        rebased-apart (slots index) (old i) (old j)
          (ground (arith, here, lt, apart_from used l i, apart_from used l (i + 1)))
          (ground (arith, here, lt, apart_from used l j, apart_from used l (j + 1)))
          (ground (arith, h, lt, l.apart i j, l.apart i (j + 1), l.apart (i + 1) (j + 1)));
  }
    where
      old : ℕ → SpSlot
      old i = if ltb i index then slots i else slots (i + 1)

-- The sum over the slots loses what the removed one added.
pub total-removed :
    (f g : ℕ → ℕ) (n index : ℕ)
    → index < suc n
    → ((i : ℕ) → i < n → g i ≡ (if ltb i index then f i else f (i + 1)))
    → total g n + f index ≡ total f (suc n)
unfolding total
total-removed f g zero index h e = ground (arith, h)
total-removed f g (suc n) index h e = elim (Bool-cases (index == suc n)) [
  | inl top ↦ ground (
    arith,
    top,
    total-same f g n (λ i lt. ground (arith, top, e i (omega arith))),
    e n (omega arith),
  )
  | inr lower ↦ ground (
    arith,
    lower,
    total-removed f g n index (ground (arith, lower, h)) (λ i lt. e i (omega arith)),
    e n (omega arith),
  )
]

pub le-total : (f : ℕ → ℕ) (n i : ℕ) → i < n → f i ≤ total f n
unfolding total
le-total f zero i h = absurd (omega arith)
le-total f (suc n) i h = elim (Bool-cases (i == n)) [
  | inl top ↦ ground (arith, top)
  | inr lower ↦ omega (arith, le-total f n i (ground (arith, lower, h)))
]
