-- ===== src/Storage/Page/Insert/Keeps.antt =====
-- `SPInsert` keeps a page valid.
use stripe_sql.Prelude.{
  ℕ, suc, ◌+◌, ◌-◌, ◌*◌, ◌^◌, ◌<◌, ◌≤◌, ◌≡◌, ◌≢◌, refl, sym, subst, ◌∙◌, ap, arith, ltb, leb, ◌&&◌,
  if◌then◌else◌, Bool-cases, inl, inr,
}
use mathlib.Core.Path.{subst₂}
use native.Mathlib.Numerals.{add-one}
use stripe_sql.Storage.Ordering.{OrderingType, OrderingKey}
use stripe_sql.Storage.Ordering.Code.{KeyOf, key_code}
use stripe_sql.Storage.Page.Data.{SpRecord, SpSlot, SlottedPage, sp_has_room}
use stripe_sql.Storage.Page.Search.{search_slot_array}
use stripe_sql.Storage.Page.Insert.{grow_slots, grow_entries, with_record, place_record, sp_insert}
use stripe_sql.Storage.Page.Valid.{
  IsOrdered, IsLaidOut, IsOrdered-same, IsLaidOut-same, IsValid, IsAccounted, total, total-same,
  used_bytes, SameRecords, update_key_bounds-IsValid,
}
use stripe_sql.Storage.Page.Found.{Splits, search_slot_array-Splits}
use stripe_sql.Storage.Page.Insert.Cells.{
  inserted, shifted-cell, append_loop-cell, inserted-IsOrdered, inserted-IsLaidOut, total-inserted,
}
use stripe_sql.Storage.Page.Insert.Grow.{IsReady, grow-IsReady}

-- The page has no record under `key`.
abbrev pub Lacks : SlottedPage → OrderingKey → Type 0
Lacks p key = (i : ℕ) → i < p.num_records → key_code (p.slots i).id ≢ key_code key

-- The bytes that a record takes in the page.
abbrev pub record_bytes : SlottedPage → SpRecord → ℕ
record_bytes p r = p.key_size + 12 + 6 * r.len + r.size

pub has_room-le :
    (p : SlottedPage) (r : SpRecord)
    → used_bytes p < 2 ^ 31
    → record_bytes p r < 2 ^ 31
    → sp_has_room p r.size r.len ≡ leb (used_bytes p + record_bytes p r) p.arr_cap
unfolding sp_has_room
has_room-le p r s f = ground arith

module _ (t : OrderingType) (p : SlottedPage) (key : OrderingKey) (r : SpRecord) (v : IsValid t p)
    (k : KeyOf t key) (fresh : Lacks p key) (small : used_bytes p + record_bytes p r < 2 ^ 31) where
  abbrev pub new_slot : SpSlot
  new_slot = record { id = key; ptr = p.num_entries; len = r.len; size = r.size }

  pub place-Splits : Splits p.slots key p.num_records (search_slot_array p key)
  place-Splits = search_slot_array-Splits t p key v.ordered k

  pub count-with_record : (with_record p key r).num_records ≡ p.num_records + 1
  unfolding with_record
  count-with_record = omega arith

  pub entries-with_record : (with_record p key r).num_entries ≡ p.num_entries + r.len
  unfolding with_record
  entries-with_record = omega arith

  -- The slots after the insertion, cell by cell.
  pub with_record-slot :
      (j : ℕ)
      → j < p.num_records + 1
      → (with_record p key r).slots j ≡ inserted p.slots (search_slot_array p key) new_slot j
  unfolding with_record
  with_record-slot j h =
      shifted-cell p.slots (search_slot_array p key) p.num_records new_slot j place-Splits.within
        (omega arith)

  pub with_record-entry :
      (j : ℕ)
      → (with_record p key r).entries j ≡ (
          if leb p.num_entries j && ltb j (p.num_entries + r.len)
          then r.entries (0 + (j - p.num_entries))
          else p.entries j)
  unfolding with_record
  with_record-entry j = append_loop-cell r.len r.entries 0 p.entries p.num_entries j

  pub with_record-IsOrdered :
      IsOrdered t (with_record p key r).slots (with_record p key r).num_records
  with_record-IsOrdered = subst (IsOrdered t (with_record p key r).slots) (sym count-with_record) (
      IsOrdered-same _ _ (p.num_records + 1) with_record-slot t (
        inserted-IsOrdered t p.slots p.num_records (search_slot_array p key) new_slot v.ordered k
          place-Splits fresh))

  with_record-IsLaidOut :
      IsLaidOut
        (with_record p key r).slots
        (with_record p key r).num_records
        (with_record p key r).num_entries
  with_record-IsLaidOut =
      subst₂ (IsLaidOut (with_record p key r).slots) (sym count-with_record)
        (sym entries-with_record)
        (IsLaidOut-same _ _ (p.num_records + 1) with_record-slot (p.num_entries + r.len) (
          inserted-IsLaidOut t p.slots p.num_records (search_slot_array p key) new_slot
            p.num_entries v.laid_out refl place-Splits.within))

  bytes-with_record : (with_record p key r).used_data ≡ p.used_data + r.size
  unfolding with_record
  bytes-with_record = omega arith

  total-with_record :
      (f : SpSlot → ℕ)
      → total (λ i. f ((with_record p key r).slots i)) (with_record p key r).num_records
        ≡ total (λ i. f (p.slots i)) p.num_records + f new_slot
  total-with_record f =
      ap (total (λ i. f ((with_record p key r).slots i)))
        (count-with_record ∙ add-one p.num_records)
      ∙ total-same _ _ (suc p.num_records) (λ i h. ap f (with_record-slot i (omega arith)))
      ∙ total-inserted f p.slots p.num_records (search_slot_array p key) new_slot
          place-Splits.within

  with_record-IsAccounted :
      IsAccounted
        (with_record p key r).slots
        (with_record p key r).num_records
        (with_record p key r).num_entries
        (with_record p key r).used_data
  with_record-IsAccounted = record {
    lengths = omega (
      arith,
      entries-with_record,
      v.accounted.lengths,
      total-with_record (λ (s : SpSlot). s.len),
    );
    sizes =
        omega
          (arith, bytes-with_record, v.accounted.sizes, total-with_record (λ (s : SpSlot). s.size));
  }

  pub place_record-IsValid :
      p.num_records < p.max_slots
      → p.num_entries + r.len ≤ p.max_entries
      → IsValid t (place_record p key r)
  unfolding place_record
  place_record-IsValid a b =
      update_key_bounds-IsValid t (with_record p key r) slots_fit entries_fit used
        with_record-IsOrdered with_record-IsLaidOut with_record-IsAccounted
    where
      same_key_size : (with_record p key r).key_size ≡ p.key_size
      same_key_size = unfold with_record in refl

      used : used_bytes (with_record p key r) < 2 ^ 31
      used = omega (
        arith,
        ap (λ c. c * ((with_record p key r).key_size + 12)) count-with_record,
        ap (λ c. (p.num_records + 1) * (c + 12)) same_key_size,
        entries-with_record,
        bytes-with_record,
        same_key_size,
      )

      slots_fit : (with_record p key r).num_records ≤ (with_record p key r).max_slots
      slots_fit = unfold with_record in omega arith

      entries_fit : (with_record p key r).num_entries ≤ (with_record p key r).max_entries
      entries_fit = unfold with_record in omega arith

-- A page of the same records lacks the same keys.
pub Lacks-same :
    (p q : SlottedPage) (key : OrderingKey) → SameRecords p q → Lacks p key → Lacks q key
Lacks-same p q key s l i h =
    rw (s.slots i (omega (arith, s.count, h))) (l i (omega (arith, s.count, h)))

-- Whether or not the record fits, the page that `SPInsert` leaves is valid, if the page was, the key
-- is one of its type that it does not have yet, and the bytes of the record and the capacity of the
-- page are below 2 ^ 31.
pub sp_insert-IsValid :
    (t : OrderingType) (p : SlottedPage) (key : OrderingKey) (r : SpRecord)
    → IsValid t p
    → KeyOf t key
    → Lacks p key
    → record_bytes p r < 2 ^ 31
    → p.arr_cap < 2 ^ 31
    → IsValid t (sp_insert p key r).0
sp_insert-IsValid t p key r v k fresh f c = elim (Bool-cases (sp_has_room p r.size r.len)) [
  | inr full ↦ unfold sp_insert in rw full v
  | inl room ↦
      let fits : used_bytes p + record_bytes p r ≤ p.arr_cap =
        ground (arith, has_room-le p r v.small f, room) in
      let q : SlottedPage = grow_entries (grow_slots p) r.len in
      let g : IsReady t p r.len q = grow-IsReady t p r.len v (omega (arith, v.small, f)) in
      unfold sp_insert in
      rw room (
        place_record-IsValid t q key r g.valid k (Lacks-same p q key g.same fresh)
          (omega (arith, g.same_bytes, g.same_key_size, fits, c)) g.slot_room g.entry_room)
]
