-- ===== src/Storage/Table/Cells.antt =====
-- The loops of src/storage_engine/tableIO.c that write the cells of an array one after another, and
-- the loops that read them: `offset` advances by the width of a cell on disk.
use stripe_sql.Prelude.{
  ℕ, zero, suc, ◌+◌, ◌*◌, ◌<◌, ◌≤◌, ◌≡◌, ◌⊎◌, inl, refl, ap, ◌∙◌, subst, arith, Array, put,
}
use stripe_sql.Storage.Bytes.{Buffer}
use stripe_sql.Storage.Table.Keys.RoundTrip.{Agree}

-- A later buffer keeps what stands below `p`.
abbrev pub Keeps : ℕ → Buffer → Buffer → Type 0
Keeps p a b = (j : ℕ) → j < p → b j ≡ a j

pub Keeps-trans : (p q : ℕ) (a b c : Buffer) → p ≤ q → Keeps p a b → Keeps q b c → Keeps p a c
Keeps-trans p q a b c l h k j u = k j (omega (arith, l, u)) ∙ h j u

pub Keeps-Agree : (p n q : ℕ) (a b : Buffer) → p + n ≤ q → Keeps q a b → Agree p n b a
Keeps-Agree p n q a b l h k u = h (p + k) (omega (arith, l, u))

module _ {A : Type 0} where
  -- `n` cells of the array from index `i` on.
  unfoldable pub write_cells : ℕ → (Buffer → ℕ → A → Buffer) → ℕ → Buffer → ℕ → Array A → ℕ → Buffer
  write_cells width write zero buf offset arr i = buf
  write_cells width write (suc n) buf offset arr i =
      write_cells width write n (write buf offset (arr i)) (offset + width) arr (i + 1)

  unfoldable pub read_cells : ℕ → (Buffer → ℕ → A) → ℕ → Buffer → ℕ → Array A → ℕ → Array A
  read_cells width read zero raw offset arr i = arr
  read_cells width read (suc n) raw offset arr i =
      read_cells width read n raw (offset + width) (put arr i (read raw offset)) (i + 1)

  -- How a cell is written and read back: `back` is what the reader makes of it.
  pub record IsCodec (width : ℕ) (write : Buffer → ℕ → A → Buffer) (read : Buffer → ℕ → A)
      (Fits : A → Type 0) (back : A → A) : Type 0 where
    pub below : (buf : Buffer) (p : ℕ) (a : A) → Keeps p buf (write buf p a)
    pub above : (buf : Buffer) (p : ℕ) (a : A) (j : ℕ) → p + width ≤ j → write buf p a j ≡ buf j
    pub reads_back : (buf : Buffer) (p : ℕ) (a : A) → Fits a → read (write buf p a) p ≡ back a
    pub local : (a b : Buffer) (p : ℕ) → Agree p width a b → read a p ≡ read b p

  module _ (width : ℕ) (write : Buffer → ℕ → A → Buffer) (read : Buffer → ℕ → A) (Fits : A → Type 0)
      (back : A → A) (codec : IsCodec width write read Fits back) where
    pub write_cells-Keeps :
        (n : ℕ) (buf : Buffer) (offset : ℕ) (arr : Array A) (i : ℕ)
        → Keeps offset buf (write_cells width write n buf offset arr i)
    unfolding write_cells
    write_cells-Keeps zero buf offset arr i j l = refl
    write_cells-Keeps (suc n) buf offset arr i j l =
        write_cells-Keeps n (write buf offset (arr i)) (offset + width) arr (i + 1) j
          (omega (arith, l))
        ∙ codec.below buf offset (arr i) j l

    pub write_cells-above :
        (n : ℕ) (buf : Buffer) (offset : ℕ) (arr : Array A) (i j : ℕ)
        → offset + n * width ≤ j
        → write_cells width write n buf offset arr i j ≡ buf j
    unfolding write_cells
    write_cells-above zero buf offset arr i j l = refl
    write_cells-above (suc n) buf offset arr i j l =
        write_cells-above n (write buf offset (arr i)) (offset + width) arr (i + 1) j
          (grind (arith, l))
        ∙ codec.above buf offset (arr i) j (grind (arith, l))

    -- Each cell is where it was written, whatever comes behind them.
    pub write_cells-back :
        (n : ℕ) (buf later : Buffer) (offset : ℕ) (arr : Array A) (i k : ℕ)
        → ((k : ℕ) → k < n → Fits (arr (i + k)))
        → Keeps (offset + n * width) (write_cells width write n buf offset arr i) later
        → k < n
        → read later (offset + k * width) ≡ back (arr (i + k))
    unfolding write_cells
    write_cells-back zero buf later offset arr i k fits keeps l = absurd (omega (arith, l))
    write_cells-back (suc n) buf later offset arr i zero fits keeps l =
        ap (read later) (omega arith)
        ∙ codec.local later (write buf offset (arr i)) offset (
            Keeps-Agree offset width (offset + width) (write buf offset (arr i)) later (omega arith)
              (Keeps-trans (offset + width) (offset + suc n * width) (write buf offset (arr i))
                (write_cells width write n (write buf offset (arr i)) (offset + width) arr (i + 1))
                later (grind arith)
                (write_cells-Keeps n (write buf offset (arr i)) (offset + width) arr (i + 1))
                keeps))
        ∙ codec.reads_back buf offset (arr i)
            (subst (λ j. Fits (arr j)) (omega arith) (fits 0 (omega arith)))
        ∙ ap (λ j. back (arr j)) (omega arith)
    write_cells-back (suc n) buf later offset arr i (suc k) fits keeps l =
        ap (read later) (grind arith)
        ∙ write_cells-back n (write buf offset (arr i)) later (offset + width) arr (i + 1) k
            (λ m u. subst (λ j. Fits (arr j)) (omega arith) (fits (suc m) (omega (arith, u))))
            (λ j u. keeps j (grind (arith, u))) (omega (arith, l))
        ∙ ap (λ j. back (arr j)) (omega arith)

  pub read_cells-other :
      (width : ℕ) (read : Buffer → ℕ → A) (n : ℕ) (raw : Buffer) (offset : ℕ) (arr : Array A)
      (i j : ℕ)
      → (j < i) ⊎ (i + n ≤ j)
      → read_cells width read n raw offset arr i j ≡ arr j
  unfolding read_cells
  read_cells-other width read zero raw offset arr i j h = refl
  read_cells-other width read (suc n) raw offset arr i j h =
      read_cells-other width read n raw (offset + width) (put arr i (read raw offset)) (i + 1) j
        (omega (arith, h))
      ∙ ground (arith, h)

  pub read_cells-at :
      (width : ℕ) (read : Buffer → ℕ → A) (n : ℕ) (raw : Buffer) (offset : ℕ) (arr : Array A)
      (i k : ℕ)
      → k < n
      → read_cells width read n raw offset arr i (i + k) ≡ read raw (offset + k * width)
  unfolding read_cells
  read_cells-at width read zero raw offset arr i k l = absurd (omega (arith, l))
  read_cells-at width read (suc n) raw offset arr i zero l =
      read_cells-other width read n raw (offset + width) (put arr i (read raw offset)) (i + 1)
        (i + 0) (inl (omega arith))
      ∙ here
      ∙ ap (read raw) (omega arith)
    where
      here : put arr i (read raw offset) (i + 0) ≡ read raw offset
      here = ground arith
  read_cells-at width read (suc n) raw offset arr i (suc k) l =
      ap (read_cells width read n raw (offset + width) (put arr i (read raw offset)) (i + 1))
        (omega arith)
      ∙ read_cells-at width read n raw (offset + width) (put arr i (read raw offset)) (i + 1) k
          (omega (arith, l))
      ∙ ap (read raw) (grind arith)

  -- An array written from its first cell on is read back, whatever comes behind it.
  pub read_cells-write_cells :
      (width : ℕ) (write : Buffer → ℕ → A → Buffer) (read : Buffer → ℕ → A) (Fits : A → Type 0)
      (back : A → A)
      → IsCodec width write read Fits back
      → (n : ℕ) (buf later : Buffer) (offset : ℕ) (arr other : Array A) (k : ℕ)
      → ((k : ℕ) → k < n → Fits (arr k))
      → Keeps (offset + n * width) (write_cells width write n buf offset arr 0) later
      → k < n
      → read_cells width read n later offset other 0 k ≡ back (arr k)
  read_cells-write_cells width write read Fits back codec n buf later offset arr other k fits keeps
        l =
      ap (read_cells width read n later offset other 0) (omega arith)
      ∙ read_cells-at width read n later offset other 0 k l
      ∙ write_cells-back width write read Fits back codec n buf later offset arr 0 k
          (λ j u. subst (λ i. Fits (arr i)) (omega arith) (fits j u)) keeps l
      ∙ ap (λ j. back (arr j)) (omega arith)
