-- ===== src/Storage/Page/Valid.antt =====
-- What holds of every slotted page between two operations.
use stripe_sql.Prelude.{
  ℕ, zero, suc, refl, ap, ◌∙◌, ◌+◌, ◌*◌, ◌^◌, ◌<◌, ◌≤◌, ◌≡◌, ◌⊎◌, ◌-◌, Array, ◌==◌, if◌then◌else◌,
  arith, subst, sym, Bool-cases, inl, inr,
}
use mathlib.Core.Path.{subst₂, subst₃, ap₂}
use stripe_sql.Storage.Ordering.{OrderingType, zero_key}
use stripe_sql.Storage.Ordering.Code.{KeyOf, key_code}
use stripe_sql.Storage.Page.Data.{SpSlot, SlottedPage, update_key_bounds}

-- The first `n` slots hold keys of type `t` in increasing order.
pub record IsOrdered (t : OrderingType) (slots : Array SpSlot) (n : ℕ) : Type 0 where
  pub keys : (i : ℕ) → i < n → KeyOf t (slots i).id
  pub sorted : (i j : ℕ) → i < j → j < n → key_code (slots i).id < key_code (slots j).id

-- Their records lie in the first `used` entries and share none.
pub record IsLaidOut (slots : Array SpSlot) (n used : ℕ) : Type 0 where
  pub inside : (i : ℕ) → i < n → (slots i).ptr + (slots i).len ≤ used
  pub apart :
      (i j : ℕ)
      → i < j
      → j < n
      → ((slots i).ptr + (slots i).len ≤ (slots j).ptr)
        ⊎ ((slots j).ptr + (slots j).len ≤ (slots i).ptr)

-- f 0 + ... + f (n - 1)
unfoldable pub total : (ℕ → ℕ) → ℕ → ℕ
total f zero = 0
total f (suc n) = total f n + f n

-- The counts of entries and of bytes are those of the first `n` slots.
pub record IsAccounted (slots : Array SpSlot) (n entries bytes : ℕ) : Type 0 where
  pub lengths : entries ≡ total (λ i. (slots i).len) n
  pub sizes : bytes ≡ total (λ i. (slots i).size) n

-- The bytes that a page's records take on disk, as a number that does not wrap.
abbrev pub used_bytes : SlottedPage → ℕ
used_bytes p = p.num_records * (p.key_size + 12) + 6 * p.num_entries + p.used_data

pub record IsValid (t : OrderingType) (p : SlottedPage) : Type 0 where
  pub slots_fit : p.num_records ≤ p.max_slots
  pub entries_fit : p.num_entries ≤ p.max_entries
  pub small : used_bytes p < 2 ^ 31
  pub ordered : IsOrdered t p.slots p.num_records
  pub laid_out : IsLaidOut p.slots p.num_records p.num_entries
  pub accounted : IsAccounted p.slots p.num_records p.num_entries p.used_data
  pub lowest : p.min_key ≡ (if p.num_records == 0 then zero_key else (p.slots 0).id)
  pub highest :
      p.max_key ≡ (if p.num_records == 0 then zero_key else (p.slots (p.num_records - 1)).id)

pub total-same : (f g : ℕ → ℕ) (n : ℕ) → ((i : ℕ) → i < n → g i ≡ f i) → total g n ≡ total f n
unfolding total
total-same f g zero h = refl
total-same f g (suc n) h =
    ap₂ ◌+◌ (total-same f g n (λ i lt. h i (omega arith))) (h n (omega arith))

-- Only the first `n` slots matter.
module _ (slots other : Array SpSlot) (n : ℕ) (same : (i : ℕ) → i < n → other i ≡ slots i) where
  pub IsOrdered-same : (t : OrderingType) → IsOrdered t slots n → IsOrdered t other n
  IsOrdered-same t o = record {
    keys = λ i h. rw (same i h) (o.keys i h);
    sorted = λ i j h lt. rw (same i (omega arith), same j lt) (o.sorted i j h lt);
  }

  pub IsLaidOut-same : (used : ℕ) → IsLaidOut slots n used → IsLaidOut other n used
  IsLaidOut-same used l = record {
    inside = λ i h. rw (same i h) (l.inside i h);
    apart = λ i j h lt. rw (same i (omega arith), same j lt) (l.apart i j h lt);
  }

  pub IsAccounted-same :
      (entries bytes : ℕ) → IsAccounted slots n entries bytes → IsAccounted other n entries bytes
  IsAccounted-same entries bytes a = record {
    lengths = a.lengths ∙ sym (total-same _ _ n (λ i h. ap (λ (s : SpSlot). s.len) (same i h)));
    sizes = a.sizes ∙ sym (total-same _ _ n (λ i h. ap (λ (s : SpSlot). s.size) (same i h)));
  }

-- `q` holds the records of `p` at the same places.
pub record SameRecords (p q : SlottedPage) : Type 0 where
  pub count : q.num_records ≡ p.num_records
  pub slots : (i : ℕ) → i < p.num_records → q.slots i ≡ p.slots i
  pub entries : (j : ℕ) → j < p.num_entries → q.entries j ≡ p.entries j

-- A page that keeps its records and its counts stays valid if its arrays are large enough.
pub IsValid-same :
    (t : OrderingType) (p q : SlottedPage)
    → IsValid t p
    → SameRecords p q
    → q.num_entries ≡ p.num_entries
    → q.used_data ≡ p.used_data
    → q.key_size ≡ p.key_size
    → q.num_records ≤ q.max_slots
    → q.num_entries ≤ q.max_entries
    → q.min_key ≡ p.min_key
    → q.max_key ≡ p.max_key
    → IsValid t q
IsValid-same t p q v s e u y a b lo hi = record {
  slots_fit = a;
  entries_fit = b;
  small = rw (s.count, e, u, y) v.small;
  ordered =
      subst (IsOrdered t q.slots) (sym s.count)
        (IsOrdered-same p.slots q.slots p.num_records s.slots t v.ordered);
  laid_out =
      subst₂ (IsLaidOut q.slots) (sym s.count) (sym e)
        (IsLaidOut-same p.slots q.slots p.num_records s.slots p.num_entries v.laid_out);
  accounted = subst₃ (IsAccounted q.slots) (sym s.count) (sym e) (sym u) (
      IsAccounted-same p.slots q.slots p.num_records s.slots p.num_entries p.used_data v.accounted);
  lowest = ground (arith, v.lowest, lo, s.count, s.slots 0);
  highest = ground (arith, v.highest, hi, s.count, s.slots (p.num_records - 1));
}

pub update_key_bounds-IsValid :
    (t : OrderingType) (p : SlottedPage)
    → p.num_records ≤ p.max_slots
    → p.num_entries ≤ p.max_entries
    → used_bytes p < 2 ^ 31
    → IsOrdered t p.slots p.num_records
    → IsLaidOut p.slots p.num_records p.num_entries
    → IsAccounted p.slots p.num_records p.num_entries p.used_data
    → IsValid t (update_key_bounds p)
unfolding update_key_bounds
update_key_bounds-IsValid t p a b c o l z = elim (Bool-cases (p.num_records == 0)) [
  | inl e ↦ rw e (record {
    slots_fit = a;
    entries_fit = b;
    small = c;
    ordered = o;
    laid_out = l;
    accounted = z;
    lowest = rw e;
    highest = rw e;
  })
  | inr e ↦ rw e (record {
    slots_fit = a;
    entries_fit = b;
    small = c;
    ordered = o;
    laid_out = l;
    accounted = z;
    lowest = rw e;
    highest = rw e;
  })
]
