-- ===== src/Storage/Table/Keys/Back.antt =====
-- A key written to a table's file is read back.
use stripe_sql.Prelude.{
  ℕ, zero, suc, ◌+◌, ◌^◌, ◌<◌, ◌≤◌, ◌≡◌, ◌⊎◌, inl, inr, refl, sym, ap, ap₂, ◌∙◌, subst, arith, List,
  [], ◌∷◌, ◌++◌, slice, slice-ext, get_or, Bool-cases, ◌==◌,
}
use stripe_sql.Storage.Bytes.{Buffer}
use stripe_sql.Storage.Bytes.RoundTrip.{write_ulong-frame}
use stripe_sql.Storage.Ordering.{
  OrderingType, OrderingKey, of_ulong, of_string, of_double, zero_key, ordering_key_disk_size, pad,
}
use stripe_sql.Storage.Ordering.Code.{KeyOf, IsPadded, IsCString, AreZero}
use stripe_sql.Storage.Ordering.Primary.{pad-zeros}
use stripe_sql.Storage.Table.Keys.{
  write_ordering_key, read_ordering_key, strnlen, as_string, as_u64,
}
use stripe_sql.Storage.Table.Keys.RoundTrip.{read_ulong-write, read_ulong-Agree, Agree}

-- A key as a table holds it: of the table's type, or the zeroed key that stands in for one.
abbrev pub IsStored : OrderingType → OrderingKey → Type 0
IsStored type k = KeyOf type k ⊎ (k ≡ zero_key)

-- The key that a reader makes of it.
abbrev pub stored : OrderingType → OrderingKey → OrderingKey
stored OrderingType.string (of_string s) = of_string s
stored OrderingType.string (of_ulong n) = of_string (pad 25 [])
stored OrderingType.string (of_double n) = of_string (pad 25 [])
stored OrderingType.ulong k = of_ulong (as_u64 k)
stored OrderingType.double k = of_double (as_u64 k)

pub stored-KeyOf : (type : OrderingType) (k : OrderingKey) → KeyOf type k → stored type k ≡ k
unfolding as_u64
stored-KeyOf OrderingType.ulong (of_ulong n) h = refl
stored-KeyOf OrderingType.double (of_double n) h = refl
stored-KeyOf OrderingType.string (of_string s) h = refl
stored-KeyOf OrderingType.ulong (of_string s) h = absurd h
stored-KeyOf OrderingType.ulong (of_double s) h = absurd h
stored-KeyOf OrderingType.double (of_string s) h = absurd h
stored-KeyOf OrderingType.double (of_ulong s) h = absurd h
stored-KeyOf OrderingType.string (of_double s) h = absurd h
stored-KeyOf OrderingType.string (of_ulong s) h = absurd h

get_or-AreZero : (s : List ℕ) (i : ℕ) → AreZero s → get_or s i 0 ≡ 0
get_or-AreZero [] i h = refl
get_or-AreZero (c ∷ s) zero h = h.0
get_or-AreZero (c ∷ s) (suc i) h = get_or-AreZero s i h.1

-- Behind the text of a C string its array is zero.
get_or-strnlen :
    (n : ℕ) (s : List ℕ) (i : ℕ) → IsCString s → strnlen n s ≤ i → i < n → get_or s i 0 ≡ 0
unfolding strnlen
get_or-strnlen zero s i h l u = absurd (omega (arith, u))
get_or-strnlen (suc n) [] i h l u = refl
get_or-strnlen (suc n) (c ∷ s) zero h l u = ground (arith, l)
get_or-strnlen (suc n) (c ∷ s) (suc i) h l u = elim (Bool-cases (c == 0)) [
  | inl x ↦ get_or-AreZero s i (h.1 (ground (arith, x)))
  | inr x ↦ get_or-strnlen n s i h.2 (ground (arith, x, l)) (omega (arith, u))
]

-- Cells that hold the array of a text, and the NUL behind them.
slice-text :
    (n : ℕ) (buf : Buffer) (p : ℕ) (s : List ℕ)
    → IsPadded n s
    → ((i : ℕ) → i < n → buf (p + i) ≡ get_or s i 0)
    → slice buf p n ++ (0 ∷ []) ≡ s
slice-text zero buf p (x ∷ []) h cells = ap (λ k. k ∷ []) (sym h)
slice-text zero buf p [] h cells = absurd h
slice-text zero buf p (x ∷ y ∷ s) h cells = absurd h
slice-text (suc n) buf p [] h cells = absurd h
slice-text (suc n) buf p (x ∷ s) h cells =
    ap₂ ◌∷◌ (ap buf (omega arith) ∙ cells 0 (omega arith)) (
      slice-text n buf (p + 1) s h (λ i l. ap buf (omega arith) ∙ cells (suc i) (omega (arith, l))))

strnlen-le : (n : ℕ) (s : List ℕ) → strnlen n s ≤ n
unfolding strnlen
strnlen-le zero s = omega arith
strnlen-le (suc n) [] = omega arith
strnlen-le (suc n) (c ∷ s) = ground (arith, strnlen-le n s)

module _ (buf : Buffer) (p : ℕ) where
  string_cell :
      (s : List ℕ) (i : ℕ)
      → IsCString s
      → i < 24
      → write_ordering_key buf p (of_string s) OrderingType.string (p + i) ≡ get_or s i 0
  unfolding write_ordering_key as_string
  string_cell s i h l = ground (arith, l, get_or-strnlen 24 s i h)

  zero_cell :
      (i : ℕ)
      → i < 24
      → write_ordering_key buf p zero_key OrderingType.string (p + i) ≡ get_or (pad 25 []) i 0
  unfolding write_ordering_key as_string strnlen
  zero_cell i l = ground (arith, l, get_or-AreZero (pad 25 []) i (pad-zeros 25))

  blank_text :
      read_ordering_key
        (write_ordering_key buf p zero_key OrderingType.string)
        p
        OrderingType.string
      ≡ of_string (pad 25 [])
  unfolding read_ordering_key pad
  blank_text = ap of_string (
      slice-text 24 (write_ordering_key buf p zero_key OrderingType.string) p (pad 25 []) refl
        zero_cell)

  zero_fits : {k : OrderingKey} → k ≡ zero_key → as_u64 k < 2 ^ 64
  unfolding as_u64
  zero_fits e = subst (λ k. as_u64 k < 2 ^ 64) (sym e) (omega arith)

  ulong_fits : (k : OrderingKey) → IsStored OrderingType.ulong k → as_u64 k < 2 ^ 64
  unfolding as_u64
  ulong_fits k (inr e) = zero_fits e
  ulong_fits (of_ulong n) (inl h) = h
  ulong_fits (of_string n) (inl h) = absurd h
  ulong_fits (of_double n) (inl h) = absurd h

  double_fits : (k : OrderingKey) → IsStored OrderingType.double k → as_u64 k < 2 ^ 64
  unfolding as_u64
  double_fits k (inr e) = zero_fits e
  double_fits (of_double n) (inl h) = h
  double_fits (of_string n) (inl h) = absurd h
  double_fits (of_ulong n) (inl h) = absurd h

  -- A key of the table's type is read back as it is, and a zeroed key as one of that type.
  pub read_ordering_key-write :
      (type : OrderingType) (k : OrderingKey)
      → IsStored type k
      → read_ordering_key (write_ordering_key buf p k type) p type ≡ stored type k
  unfolding read_ordering_key write_ordering_key
  read_ordering_key-write OrderingType.ulong k h =
      ap of_ulong (read_ulong-write buf p (as_u64 k) (ulong_fits k h))
  read_ordering_key-write OrderingType.double k h =
      ap of_double (read_ulong-write buf p (as_u64 k) (double_fits k h))
  read_ordering_key-write OrderingType.string k (inr e) =
      subst
        (λ k.
          read_ordering_key (write_ordering_key buf p k OrderingType.string) p OrderingType.string
          ≡ stored OrderingType.string k)
        (sym e) blank_text
  read_ordering_key-write OrderingType.string (of_string s) (inl h) = ap of_string (
      slice-text 24 (write_ordering_key buf p (of_string s) OrderingType.string) p s h.0
        (λ i l. string_cell s i h.1 l))
  read_ordering_key-write OrderingType.string (of_ulong s) (inl h) = absurd h
  read_ordering_key-write OrderingType.string (of_double s) (inl h) = absurd h

  -- A key is written from `p` on.
  pub write_ordering_key-below :
      (type : OrderingType) (k : OrderingKey) (j : ℕ)
      → j < p
      → write_ordering_key buf p k type j ≡ buf j
  unfolding write_ordering_key
  write_ordering_key-below OrderingType.string k j l = ground (arith, l)
  write_ordering_key-below OrderingType.ulong k j l = write_ulong-frame buf p (as_u64 k) j (inl l)
  write_ordering_key-below OrderingType.double k j l = write_ulong-frame buf p (as_u64 k) j (inl l)

  -- It takes no more bytes than keys of the type have on disk.
  pub write_ordering_key-above :
      (type : OrderingType) (k : OrderingKey) (j : ℕ)
      → p + ordering_key_disk_size type ≤ j
      → write_ordering_key buf p k type j ≡ buf j
  unfolding write_ordering_key ordering_key_disk_size
  write_ordering_key-above OrderingType.string k j l =
      ground (arith, l, strnlen-le 24 (as_string k))
  write_ordering_key-above OrderingType.ulong k j l = write_ulong-frame buf p (as_u64 k) j (inr l)
  write_ordering_key-above OrderingType.double k j l = write_ulong-frame buf p (as_u64 k) j (inr l)

pub read_ordering_key-Agree :
    (a b : Buffer) (p : ℕ) (type : OrderingType)
    → Agree p (ordering_key_disk_size type) a b
    → read_ordering_key a p type ≡ read_ordering_key b p type
unfolding read_ordering_key ordering_key_disk_size
read_ordering_key-Agree a b p OrderingType.string h =
    ap (λ s. of_string (s ++ (0 ∷ []))) (slice-ext a b p p 24 h)
read_ordering_key-Agree a b p OrderingType.ulong h = ap of_ulong (read_ulong-Agree a b p h)
read_ordering_key-Agree a b p OrderingType.double h = ap of_double (read_ulong-Agree a b p h)
