-- ===== src/Storage/Page/Split/Records.antt =====
-- Which records a page holds that `SPSplit` has left, and that it is valid.
use stripe_sql.Prelude.{
  ℕ, ◌+◌, ◌-◌, ◌*◌, ◌≤◌, ◌<◌, ◌≡◌, refl, sym, ap, subst, arith, slice-ext, if-both, ◌==◌,
}
use mathlib.Core.Path.{subst₂}
use stripe_sql.Storage.Ordering.{OrderingType}
use stripe_sql.Storage.Page.Data.{SlottedPage, update_key_bounds}
use stripe_sql.Storage.Page.Valid.{
  IsValid, IsLaidOut, IsAccounted, total, update_key_bounds-IsValid,
}
use stripe_sql.Storage.Page.Found.{record_at}
use stripe_sql.Storage.Page.Split.Gather.{
  Gathered, lens, sizes, bytes_within, Gathered-IsOrdered, Gathered-IsLaidOut, Gathered-IsAccounted,
}

-- The record in slot `j` of `q` is that in slot `i` of `p`.
pub record IsRecord (p : SlottedPage) (i : ℕ) (q : SlottedPage) (j : ℕ) : Type 0 where
  pub id : (q.slots j).id ≡ (p.slots i).id
  pub size : (q.slots j).size ≡ (p.slots i).size
  pub entries : record_at q j ≡ record_at p i

-- The first `index` records of `p` are those of `lower`, and the rest those of `upper`, in their order.
pub record IsDivided (p : SlottedPage) (index : ℕ) (lower upper : SlottedPage) : Type 0 where
  pub lower_count : lower.num_records ≡ index
  pub upper_count : upper.num_records ≡ p.num_records - index
  pub lower_records : (i : ℕ) → i < index → IsRecord p i lower i
  pub upper_records : (i : ℕ) → i < p.num_records - index → IsRecord p (index + i) upper i

pub IsRecord-bounds :
    (p : SlottedPage) (i : ℕ) (q : SlottedPage) (j : ℕ)
    → IsRecord p i q j
    → IsRecord p i (update_key_bounds q) j
unfolding update_key_bounds
IsRecord-bounds p i q j r =
    if-both (λ x. IsRecord p i x j) (q.num_records == 0)
      (λ _. record { id = r.id; size = r.size; entries = r.entries })
      (λ _. record { id = r.id; size = r.size; entries = r.entries })

pub count-bounds : (q : SlottedPage) → (update_key_bounds q).num_records ≡ q.num_records
unfolding update_key_bounds
count-bounds q =
    if-both (λ (x : SlottedPage). x.num_records ≡ q.num_records) (q.num_records == 0) (λ _. refl)
      (λ _. refl)

pub Gathered-IsRecord :
    (p : SlottedPage) (from count : ℕ) (q : SlottedPage)
    → Gathered p from count q.slots q.entries
    → (j : ℕ) → j < count
    → IsRecord p (from + j) q j
Gathered-IsRecord p from count q g j h = record {
  id = rw (g.slot j h) refl;
  size = rw (g.slot j h) refl;
  entries = rw (g.slot j h) (
      slice-ext q.entries p.entries (total (lens p from) j) (p.slots (from + j)).ptr (lens p from j)
        (λ c l. g.cell j h c l));
}

-- A page whose slots and entries are gathered from a valid page is valid.
pub Gathered-IsValid :
    (type : OrderingType) (p : SlottedPage) (v : IsValid type p) (from : ℕ) (q : SlottedPage)
    → from + q.num_records ≤ p.num_records
    → Gathered p from q.num_records q.slots q.entries
    → q.num_entries ≡ total (lens p from) q.num_records
    → q.used_data ≡ total (sizes p from) q.num_records
    → q.key_size ≡ p.key_size
    → q.num_records ≤ q.max_slots
    → q.num_entries ≤ q.max_entries
    → IsValid type (update_key_bounds q)
Gathered-IsValid type p v from q h g e d k a b =
    update_key_bounds-IsValid type q a b
      (omega (
        arith,
        bytes_within p from type v q.num_records h,
        v.small,
        e,
        d,
        ap (λ x. q.num_records * (x + 12)) k,
      ))
      (Gathered-IsOrdered p from type v q.num_records h q.slots q.entries g)
      (subst (IsLaidOut q.slots q.num_records) (sym e)
        (Gathered-IsLaidOut p from type v q.num_records h q.slots q.entries g))
      (subst₂ (IsAccounted q.slots q.num_records) (sym e) (sym d)
        (Gathered-IsAccounted p from type v q.num_records h q.slots q.entries g))
