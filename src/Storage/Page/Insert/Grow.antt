-- ===== src/Storage/Page/Insert/Grow.antt =====
-- Growing the arrays of a page makes room and keeps its records.
use stripe_sql.Prelude.{
  ℕ, ◌+◌, ◌%◌, ◌^◌, ◌<◌, ◌≤◌, ◌≡◌, refl, ◌∙◌, arith, leb, ltb, Bool-cases, inl, inr,
}
use stripe_sql.Storage.Ordering.{OrderingType}
use stripe_sql.Storage.Page.Data.{SlottedPage}
use stripe_sql.Storage.Page.Insert.{grow_slots, grow_entries}
use stripe_sql.Storage.Page.Valid.{IsValid, IsValid-same, SameRecords, used_bytes}

module _ (t : OrderingType) (p : SlottedPage) (v : IsValid t p) where
  grow_slots-SameRecords : SameRecords p (grow_slots p)
  unfolding grow_slots
  grow_slots-SameRecords = elim (Bool-cases (leb p.max_slots p.num_records)) [
    | inl e ↦
        rw e (record {
          count = refl;
          slots = λ i h. ground (arith, v.slots_fit);
          entries = λ j h. refl;
        })
    | inr e ↦ rw e (record { count = refl; slots = λ i h. refl; entries = λ j h. refl })
  ]

  grow_slots-lt : (grow_slots p).num_records < (grow_slots p).max_slots
  unfolding grow_slots
  grow_slots-lt = ground (arith, v.slots_fit)

  grow_slots-IsValid : IsValid t (grow_slots p)
  grow_slots-IsValid =
      IsValid-same t p (grow_slots p) v grow_slots-SameRecords (unfold grow_slots in ground arith)
        (unfold grow_slots in ground arith) (unfold grow_slots in ground arith)
        (omega (arith, grow_slots-lt)) (unfold grow_slots in ground (arith, v.entries_fit))
        (unfold grow_slots in ground arith) (unfold grow_slots in ground arith)

module _ (t : OrderingType) (p : SlottedPage) (v : IsValid t p) (len : ℕ)
    (small : p.num_entries + len < 2 ^ 32) where
  grow_entries-SameRecords : SameRecords p (grow_entries p len)
  unfolding grow_entries
  grow_entries-SameRecords =
      elim (Bool-cases (ltb p.max_entries ((p.num_entries + len) % 2 ^ 32))) [
        | inl e ↦ rw e (record {
          count = refl;
          slots = λ i h. refl;
          entries = λ j h. ground (arith, v.entries_fit);
        })
        | inr e ↦ rw e (record { count = refl; slots = λ i h. refl; entries = λ j h. refl })
      ]

  grow_entries-le : (grow_entries p len).num_entries + len ≤ (grow_entries p len).max_entries
  unfolding grow_entries
  grow_entries-le = ground arith

  slots-grow_entries : (grow_entries p len).max_slots ≡ p.max_slots
  unfolding grow_entries
  slots-grow_entries = ground arith

  grow_entries-IsValid : IsValid t (grow_entries p len)
  grow_entries-IsValid =
      IsValid-same t p (grow_entries p len) v grow_entries-SameRecords
        (unfold grow_entries in ground arith) (unfold grow_entries in ground arith)
        (unfold grow_entries in ground arith) (unfold grow_entries in ground (arith, v.slots_fit))
        (omega (arith, grow_entries-le)) (unfold grow_entries in ground arith)
        (unfold grow_entries in ground arith)

-- The page with room for one more record of `len` entries, and its records where they were.
pub record IsReady (t : OrderingType) (p : SlottedPage) (len : ℕ) (q : SlottedPage) : Type 0 where
  pub valid : IsValid t q
  pub same : SameRecords p q
  pub same_bytes : used_bytes q ≡ used_bytes p
  pub same_key_size : q.key_size ≡ p.key_size
  pub slot_room : q.num_records < q.max_slots
  pub entry_room : q.num_entries + len ≤ q.max_entries

pub grow-IsReady :
    (t : OrderingType) (p : SlottedPage) (len : ℕ)
    → IsValid t p
    → p.num_entries + len < 2 ^ 32
    → IsReady t p len (grow_entries (grow_slots p) len)
grow-IsReady t p len v small = record {
  valid = grow_entries-IsValid t g w len small';
  same = record {
    count = after.count ∙ before.count;
    slots = λ i h. after.slots i (omega (arith, before.count, h)) ∙ before.slots i h;
    entries = λ j h. after.entries j (omega (arith, entries, h)) ∙ before.entries j h;
  };
  same_bytes = unfold grow_entries grow_slots in ground arith;
  same_key_size = unfold grow_entries grow_slots in ground arith;
  slot_room = omega (arith, after.count, slots-grow_entries t g w len small', grow_slots-lt t p v);
  entry_room = grow_entries-le t g w len small';
}
  where
    g : SlottedPage
    g = grow_slots p

    w : IsValid t g
    w = grow_slots-IsValid t p v

    entries : g.num_entries ≡ p.num_entries
    entries = unfold grow_slots in ground arith

    small' : g.num_entries + len < 2 ^ 32
    small' = omega (arith, entries, small)

    before : SameRecords p g
    before = grow_slots-SameRecords t p v

    after : SameRecords g (grow_entries g len)
    after = grow_entries-SameRecords t g w len small'
