-- ===== src/Prelude/Arrays.antt =====
-- C arrays as functions from an index to the cell, and lists measured by native numbers.
use Prim.Native.Nat.{ℕ, zero, suc, ◌+◌, ◌-◌, ◌<◌}
use mathlib.Core.Path.{◌≡◌, refl, ap, ap₂, ◌∙◌}
use mathlib.Core.Bool.{◌&&◌}
use mathlib.Core.List.{List, [], ◌∷◌, ◌++◌}
use native.Mathlib.Omega.{arith}
use stripe_sql.Prelude.Tests.{ltb, leb, ◌==◌, if◌then◌else◌}

-- An allocated block: what each cell holds. How many cells the block has is kept beside it, and
-- the components prove that they stay within it.
abbrev pub Array {ℓ} : Type ℓ → Type ℓ
Array A = ℕ → A

module _ {ℓ} {A : Type ℓ} where
  -- arr[i] = v
  abbrev pub put : Array A → ℕ → A → Array A
  put arr i v j = if j == i then v else arr j

  -- memcpy(dst + at, src + from, n)
  abbrev pub copy : Array A → ℕ → Array A → ℕ → ℕ → Array A
  copy dst at src from n j = if leb at j && ltb j (at + n) then src (from + (j - at)) else dst j

  -- The `n` cells from index `i` on.
  abbrev pub slice : Array A → ℕ → ℕ → List A
  slice arr i zero = []
  slice arr i (suc n) = arr i ∷ slice arr (i + 1) n

  pub slice-ext :
      (arr brr : Array A) (i j n : ℕ)
      → ((k : ℕ) → k < n → arr (i + k) ≡ brr (j + k))
      → slice arr i n ≡ slice brr j n
  slice-ext arr brr i j zero h = refl
  slice-ext arr brr i j (suc n) h =
      ap₂ ◌∷◌ (head (h 0 (omega arith)))
        (slice-ext arr brr (i + 1) (j + 1) n (λ k lt. shift k (h (k + 1) (omega arith))))
    where
      head : arr (i + 0) ≡ brr (j + 0) → arr i ≡ brr j
      head e = ground (arith, e)

      shift : (k : ℕ) → arr (i + (k + 1)) ≡ brr (j + (k + 1)) → arr (i + 1 + k) ≡ brr (j + 1 + k)
      shift k e = ground (arith, e)

  abbrev pub length : List A → ℕ
  length [] = 0
  length (x ∷ xs) = suc (length xs)

  abbrev pub get_or : List A → ℕ → A → A
  get_or [] i d = d
  get_or (x ∷ xs) zero d = x
  get_or (x ∷ xs) (suc i) d = get_or xs i d

  pub length-append : (xs ys : List A) → length (xs ++ ys) ≡ length xs + length ys
  length-append [] ys = omega arith
  length-append (x ∷ xs) ys = omega (arith, length-append xs ys)

  pub length-slice : (arr : Array A) (i n : ℕ) → length (slice arr i n) ≡ n
  length-slice arr i zero = refl
  length-slice arr i (suc n) = ap suc (length-slice arr (i + 1) n)

  slice-last : (arr : Array A) (i n : ℕ) → slice arr i (suc n) ≡ slice arr i n ++ (arr (i + n) ∷ [])
  slice-last arr i zero = ap (λ k. arr k ∷ []) (omega arith)
  slice-last arr i (suc n) =
      ap (λ l. arr i ∷ l)
        (slice-last arr (i + 1) n ∙ ap (λ k. slice arr (i + 1) n ++ (arr k ∷ [])) (omega arith))

  last_cell : (arr : Array A) (n : ℕ) (x : A) → put arr n x (0 + n) ≡ x
  last_cell arr n x = ground arith

  -- Writing behind the first `n` cells appends to them.
  pub slice-put :
      (arr : Array A) (n : ℕ) (x : A) → slice (put arr n x) 0 (n + 1) ≡ slice arr 0 n ++ (x ∷ [])
  slice-put arr n x =
      ap (slice (put arr n x) 0) {y = suc n} (omega arith)
      ∙ slice-last (put arr n x) 0 n
      ∙ ap₂ (λ l y. l ++ (y ∷ [])) (slice-ext (put arr n x) arr 0 0 n (λ k l. ground (arith, l)))
          (last_cell arr n x)
