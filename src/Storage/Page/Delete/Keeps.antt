-- ===== src/Storage/Page/Delete/Keeps.antt =====
-- `SPDelete` keeps a page valid.
use stripe_sql.Prelude.{
  ℕ, suc, ◌+◌, ◌-◌, ◌*◌, ◌^◌, ◌<◌, ◌≤◌, ◌≡◌, refl, sym, subst, ◌∙◌, ap, arith, ltb, if◌then◌else◌,
  inl, inr,
}
use mathlib.Core.Path.{subst₂}
use stripe_sql.Storage.Ordering.{OrderingType, OrderingKey}
use stripe_sql.Storage.Ordering.Code.{KeyOf}
use stripe_sql.Storage.Page.Data.{SpSlot, SlottedPage}
use stripe_sql.Storage.Page.Delete.{without_record, remove_record, sp_delete}
use stripe_sql.Storage.Page.Valid.{
  IsOrdered, IsLaidOut, IsAccounted, total, IsOrdered-same, IsLaidOut-same, IsValid, used_bytes,
  update_key_bounds-IsValid,
}
use stripe_sql.Storage.Page.Found.{find_key, search-found, is_missing-found, is_missing-lacking}
use stripe_sql.Storage.Page.Delete.Cells.{
  removed, removed-cell, compacted-cell, apart_from, removed-IsOrdered, removed-IsLaidOut,
  total-removed, le-total,
}

module _ (t : OrderingType) (p : SlottedPage) (v : IsValid t p) (m index : ℕ)
    (count : p.num_records ≡ suc m) (here : index < suc m) where
  abbrev w : SlottedPage
  w = without_record p index

  ordered : IsOrdered t p.slots (suc m)
  ordered = rw count at v.ordered

  pub laid_out : IsLaidOut p.slots (suc m) p.num_entries
  laid_out = subst (λ n. IsLaidOut p.slots n p.num_entries) count v.laid_out

  pub count-without_record : w.num_records ≡ m
  unfolding without_record
  count-without_record = omega (arith, v.small, count)

  pub entries-without_record : w.num_entries ≡ p.num_entries - (p.slots index).len
  unfolding without_record
  entries-without_record = omega (arith, v.small, laid_out.inside index here)

  size-le : (p.slots index).size ≤ p.used_data
  size-le =
      omega (
        arith,
        v.accounted.sizes,
        le-total (λ i. (p.slots i).size) p.num_records index (omega arith),
      )

  bytes-without_record : w.used_data ≡ p.used_data - (p.slots index).size
  unfolding without_record
  bytes-without_record = omega (arith, v.small, size-le)

  -- The slots after the deletion, cell by cell.
  pub without_record-slot : (j : ℕ) → j < m → w.slots j ≡ removed p.slots index j
  unfolding without_record
  without_record-slot j h =
      removed-cell p.slots index p.num_records j (omega arith) (omega arith)
        (omega (arith, v.small, laid_out.inside j (omega arith)))
        (omega (arith, v.small, laid_out.inside (j + 1) (omega arith)))
        (λ lt q.
          ground (
            arith,
            apart_from t p.slots m index here p.num_entries laid_out j (omega arith),
            lt,
            q,
          ))
        (λ le q. ground (
          arith,
          apart_from t p.slots m index here p.num_entries laid_out (j + 1) (omega arith),
          le,
          q,
        ))

  pub without_record-entry :
      (j : ℕ)
      → j + (p.slots index).len < p.num_entries
      → w.entries j
        ≡ (if ltb j (p.slots index).ptr then p.entries j else p.entries (j + (p.slots index).len))
  unfolding without_record
  without_record-entry j h =
      compacted-cell p.entries (p.slots index).ptr (p.slots index).len p.num_entries j
        (laid_out.inside index here) (omega (arith, v.small)) h

  pub without_record-IsOrdered : IsOrdered t w.slots w.num_records
  without_record-IsOrdered = subst (IsOrdered t w.slots) (sym count-without_record) (
      IsOrdered-same _ _ m without_record-slot t (removed-IsOrdered t p.slots m index here ordered))

  without_record-IsLaidOut : IsLaidOut w.slots w.num_records w.num_entries
  without_record-IsLaidOut =
      subst₂ (IsLaidOut w.slots) (sym count-without_record) (sym entries-without_record) (
        IsLaidOut-same _ _ m without_record-slot (p.num_entries - (p.slots index).len)
          (removed-IsLaidOut t p.slots m index here p.num_entries laid_out))

  total-without_record :
      (f : SpSlot → ℕ)
      → ((i : ℕ)
          → f (removed p.slots index i)
            ≡ (if ltb i index then f (p.slots i) else f (p.slots (i + 1))))
      → total (λ i. f (w.slots i)) w.num_records + f (p.slots index)
        ≡ total (λ i. f (p.slots i)) p.num_records
  total-without_record f e =
      ap (λ n. total (λ i. f (w.slots i)) n + f (p.slots index)) count-without_record
      ∙ total-removed (λ i. f (p.slots i)) (λ i. f (w.slots i)) m index here
          (λ i h. ap f (without_record-slot i h) ∙ e i)
      ∙ ap (total (λ i. f (p.slots i))) (sym count)

  without_record-IsAccounted : IsAccounted w.slots w.num_records w.num_entries w.used_data
  without_record-IsAccounted = record {
    lengths = omega (
      arith,
      entries-without_record,
      v.accounted.lengths,
      laid_out.inside index here,
      total-without_record (λ (s : SpSlot). s.len) (λ i. ground arith),
    );
    sizes = omega (
      arith,
      bytes-without_record,
      v.accounted.sizes,
      size-le,
      total-without_record (λ (s : SpSlot). s.size) (λ i. ground arith),
    );
  }

  pub remove_record-IsValid : IsValid t (remove_record p index)
  unfolding remove_record
  remove_record-IsValid =
      update_key_bounds-IsValid t w slots_fit entries_fit used without_record-IsOrdered
        without_record-IsLaidOut without_record-IsAccounted
    where
      same_key_size : w.key_size ≡ p.key_size
      same_key_size = unfold without_record in refl

      used : used_bytes w < 2 ^ 31
      used =
          rw (count-without_record, entries-without_record, bytes-without_record, same_key_size)
            (omega (arith, v.small, ap (λ c. c * (p.key_size + 12)) count))

      slots_fit : w.num_records ≤ w.max_slots
      slots_fit = unfold without_record in omega (arith, v.slots_fit, v.small, count)

      entries_fit : w.num_entries ≤ w.max_entries
      entries_fit =
          unfold without_record in omega (arith, v.entries_fit, v.small, laid_out.inside index here)

-- Whether or not the page has the key, the page that `SPDelete` leaves is valid.
pub sp_delete-IsValid :
    (t : OrderingType) (p : SlottedPage) (key : OrderingKey)
    → IsValid t p
    → KeyOf t key
    → IsValid t (sp_delete p key).0
unfolding sp_delete
sp_delete-IsValid t p key v k = elim (find_key t p key v.ordered k) [
  | inr gone ↦ rw (is_missing-lacking t p key v.ordered k gone) v
  | inl (i, h, e) ↦
      rw (search-found t p key v.ordered k i h e, is_missing-found t p key v.ordered k i h e)
        (remove_record-IsValid t p v (p.num_records - 1) i (omega (arith, h)) (omega (arith, h)))
]
