-- ===== src/Storage/Page/Split/Gather.antt =====
-- Records of a page gathered one behind the other, as `SPSplit` leaves them in both pages.
use stripe_sql.Prelude.{
  ℕ, zero, suc, ◌+◌, ◌-◌, ◌*◌, ◌≤◌, ◌<◌, ◌≡◌, ◌⊎◌, inl, inr, refl, sym, ap, arith, Array, put, copy,
  ◌==◌, true, false, Bool-cases, ==_iff,
}
use stripe_sql.Storage.Ordering.{OrderingType}
use stripe_sql.Storage.Page.Data.{Entry, SpSlot, SlottedPage}
use stripe_sql.Storage.Page.Valid.{
  IsValid, IsOrdered, IsLaidOut, IsAccounted, total, total-same, used_bytes,
}

total_split : (f : ℕ → ℕ) (a b : ℕ) → total f (a + b) ≡ total f a + total (λ i. f (a + i)) b
unfolding total
total_split f a zero = let e : a + zero ≡ a = omega arith in rw e (omega arith)
total_split f a (suc b) =
    let e : a + suc b ≡ suc (a + b) = omega arith in rw e (omega (arith, total_split f a b))

pub total_next : (f : ℕ → ℕ) (n : ℕ) → total f (n + 1) ≡ total f n + f n
unfolding total
total_next f n = let e : n + 1 ≡ suc n = omega arith in rw e refl

pub total_up_to : (f : ℕ → ℕ) (i n : ℕ) → i < n → total f i + f i ≤ total f n
unfolding total
total_up_to f i zero h = absurd (omega (arith, h))
total_up_to f i (suc n) h = elim (Bool-cases (i == n)) [
  | inl same ↦ ground (arith, same)
  | inr other ↦ omega (arith, total_up_to f i n (ground (arith, h, other)))
]

pub total_monotone : (f : ℕ → ℕ) (a b n : ℕ) → a + b ≤ n → total (λ i. f (a + i)) b ≤ total f n
total_monotone f a b n h =
    let e : a + b + (n - (a + b)) ≡ n = omega (arith, h) in
    omega (arith, total_split f (a + b) (n - (a + b)), ap (total f) e, total_split f a b)

product_monotone : (a d k : ℕ) → a * k ≤ (a + d) * k
product_monotone a d k = omega arith

module _ (p : SlottedPage) (from : ℕ) where
  abbrev pub lens : ℕ → ℕ
  lens i = (p.slots (from + i)).len

  abbrev pub sizes : ℕ → ℕ
  sizes i = (p.slots (from + i)).size

  -- The first `count` of the slots are the page's from slot `from` on, with their entries one behind the other.
  pub record Gathered (count : ℕ) (slots : Array SpSlot) (entries : Array Entry) : Type 0 where
    pub slot : (j : ℕ) → j < count → slots j ≡ record (p.slots (from + j)) { ptr = total lens j }
    pub cell :
        (j : ℕ)
        → j < count
        → (c : ℕ) → c < lens j
        → entries (total lens j + c) ≡ p.entries ((p.slots (from + j)).ptr + c)

  pub next-Gathered :
      (count : ℕ) (slots : Array SpSlot) (entries : Array Entry)
      → Gathered count slots entries
      → Gathered
          (count + 1)
          (put slots count (record (p.slots (from + count)) { ptr = total lens count }))
          (copy entries (total lens count) p.entries (p.slots (from + count)).ptr (lens count))
  next-Gathered count slots entries g = record {
    slot = λ j h. slot j h (Bool-cases (j == count));
    cell = λ j h c l. cell j h c l (Bool-cases (j == count));
  }
    where
      slot :
          (j : ℕ)
          → j < count + 1
          → ((j == count) ≡ true) ⊎ ((j == count) ≡ false)
          → put slots count (record (p.slots (from + count)) { ptr = total lens count }) j
            ≡ record (p.slots (from + j)) { ptr = total lens j }
      slot j h (inl same) = let e : j ≡ count = (==_iff j count).0 same in rw (same, e) refl
      slot j h (inr other) = rw other (g.slot j (ground (arith, h, other)))

      cell :
          (j : ℕ)
          → j < count + 1
          → (c : ℕ) → c < lens j
          → ((j == count) ≡ true) ⊎ ((j == count) ≡ false)
          → copy entries
              (total lens count)
              p.entries
              (p.slots (from + count)).ptr
              (lens count)
              (total lens j + c)
            ≡ p.entries ((p.slots (from + j)).ptr + c)
      cell j h c l (inl same) = let e : j ≡ count = (==_iff j count).0 same in ground (arith, e, l)
      cell j h c l (inr other) = ground (
        arith,
        l,
        total_up_to lens j count (ground (arith, h, other)),
        g.cell j (ground (arith, h, other)) c l,
      )

  module _ (type : OrderingType) (v : IsValid type p) (count : ℕ)
      (within : from + count ≤ p.num_records) (slots : Array SpSlot) (entries : Array Entry)
      (g : Gathered count slots entries) where
    pub Gathered-IsOrdered : IsOrdered type slots count
    Gathered-IsOrdered = record {
      keys = λ i h. rw (g.slot i h) (v.ordered.keys (from + i) (omega (arith, h, within)));
      sorted = λ i j h l.
          rw (g.slot i (omega (arith, h, l)), g.slot j l)
            (v.ordered.sorted (from + i) (from + j) (omega (arith, h)) (omega (arith, l, within)));
    }

    pub Gathered-IsLaidOut : IsLaidOut slots count (total lens count)
    Gathered-IsLaidOut = record {
      inside = λ i h. rw (g.slot i h) (total_up_to lens i count h);
      apart =
          λ i j h l. rw (g.slot i (omega (arith, h, l)), g.slot j l) (inl (total_up_to lens i j h));
    }

    pub Gathered-IsAccounted : IsAccounted slots count (total lens count) (total sizes count)
    Gathered-IsAccounted = record {
      lengths = sym (
          total-same lens (λ i. (slots i).len) count
            (λ i h. ap (λ (s : SpSlot). s.len) (g.slot i h)));
      sizes = sym (
          total-same sizes (λ i. (slots i).size) count
            (λ i h. ap (λ (s : SpSlot). s.size) (g.slot i h)));
    }

  module _ (type : OrderingType) (v : IsValid type p) where
    pub lens_within : (count : ℕ) → from + count ≤ p.num_records → total lens count ≤ p.num_entries
    lens_within count h = omega (
      arith,
      v.accounted.lengths,
      total_monotone (λ i. (p.slots i).len) from count p.num_records h,
    )

    pub bytes_within :
        (count : ℕ)
        → from + count ≤ p.num_records
        → count * (p.key_size + 12) + 6 * total lens count + total sizes count ≤ used_bytes p
    bytes_within count h =
        let e : count + (p.num_records - count) ≡ p.num_records = omega (arith, h) in
        omega (
          arith,
          lens_within count h,
          v.accounted.sizes,
          total_monotone (λ i. (p.slots i).size) from count p.num_records h,
          product_monotone count (p.num_records - count) (p.key_size + 12),
          ap (λ n. n * (p.key_size + 12)) e,
        )
