-- ===== src/Storage/Page/Split/Divided.antt =====
-- `SPSplit` divides the records of a page at an index.
use stripe_sql.Prelude.{
  ℕ, zero, suc, ◌+◌, ◌-◌, ◌≤◌, ◌≡◌, refl, sym, ap, ◌∙◌, subst, arith, ltb, if◌then◌else◌,
}
use stripe_sql.Prelude.Word.{u32}
use stripe_sql.Storage.Ordering.{OrderingType}
use stripe_sql.Storage.Page.Data.{SlottedPage, blank_entry, update_key_bounds}
use stripe_sql.Storage.Page.Valid.{IsValid, total}
use stripe_sql.Storage.Page.Split.{Splitting, moved_entries, reserve, split_loop, sp_split}
use stripe_sql.Storage.Page.Split.Gather.{
  Gathered, lens, sizes, total_next, lens_within, bytes_within,
}
use stripe_sql.Storage.Page.Split.Rounds.{Moved, split_loop-Moved}
use stripe_sql.Storage.Page.Split.Records.{
  IsDivided, IsRecord, IsRecord-bounds, count-bounds, Gathered-IsRecord, Gathered-IsValid,
}

module _ (type : OrderingType) (p : SlottedPage) (v : IsValid type p) (upper : SlottedPage)
    (w : IsValid type upper) (fresh : upper.num_records ≡ 0) (keys : upper.key_size ≡ p.key_size)
    (at : ℕ) where
  -- The number of records that stay.
  abbrev index : ℕ
  index = if ltb p.num_records at then p.num_records else at

  index_le : index ≤ p.num_records
  index_le = ground arith

  moved_entries-total :
      (rounds i sum : ℕ)
      → index + i + rounds ≤ p.num_records
      → sum ≡ total (lens p index) i
      → moved_entries rounds p.slots (index + i) sum ≡ total (lens p index) (i + rounds)
  unfolding moved_entries
  moved_entries-total zero i sum h e = let z : i + 0 ≡ i = omega arith in rw z e
  moved_entries-total (suc rounds) i sum h e =
      let next : index + i + 1 ≡ index + (i + 1) = omega arith in
      let end : i + suc rounds ≡ i + 1 + rounds = omega arith in
      rw (next, end)
        (moved_entries-total rounds (i + 1) (u32 (sum + (p.slots (index + i)).len))
          (omega (arith, h))
          (omega (
            arith,
            e,
            total_next (lens p index) i,
            bytes_within p index type v (i + 1) (omega (arith, h)),
            v.small,
          )))

  -- The loop of the split, and what it has done at its end.
  abbrev moved : ℕ
  moved = moved_entries (p.num_records - index) p.slots index 0

  abbrev start : Splitting
  start = record {
    kept = λ _. blank_entry;
    kept_entries = 0;
    kept_data = 0;
    slots = p.slots;
    upper = reserve upper (p.num_records - index) moved;
  }

  abbrev done : Splitting
  done = split_loop p.num_records p.entries index 0 start

  done-Moved :
      Moved type p v index index_le
        (reserve upper (p.num_records - index) moved)
        (p.num_records - index)
        done
  unfolding reserve total
  done-Moved =
      split_loop-Moved type p v index index_le (reserve upper (p.num_records - index) moved) fresh
        (omega (arith, w.accounted.lengths, ap (total (λ i. (upper.slots i).len)) fresh))
        (omega (arith, w.accounted.sizes, ap (total (λ i. (upper.slots i).size)) fresh))
        p.num_records 0 start (omega arith) (omega arith)
        (record {
          kept_entries = refl;
          kept_data = refl;
          kept = record {
            slot = λ j h. absurd (omega (arith, h));
            cell = λ j h c l. absurd (omega (arith, h));
          };
          others = λ j l. refl;
          upper = refl;
        })

  moved-total : moved ≡ total (lens p index) (p.num_records - index)
  unfolding total
  moved-total =
      let here : index + 0 ≡ index = omega arith in
      let all : 0 + (p.num_records - index) ≡ p.num_records - index = omega arith in
      subst
        (λ n.
          moved_entries (p.num_records - index) p.slots n 0
          ≡ total (lens p index) (p.num_records - index))
        here
        (moved_entries-total (p.num_records - index) 0 0 (ground arith) refl
          ∙ ap (total (lens p index)) all)

  -- The two pages before their key bounds are set.
  abbrev low : SlottedPage
  low = record p {
    entries = done.kept;
    slots = done.slots;
    num_records = index;
    num_entries = done.kept_entries;
    used_data = done.kept_data;
  }

  abbrev high : SlottedPage
  high = done.upper

  high-Gathered : Gathered p index high.num_records high.slots high.entries
  high-Gathered =
      subst (λ n. Gathered p index n high.slots high.entries) (sym done-Moved.count)
        done-Moved.moved

  low-IsValid : IsValid type (update_key_bounds low)
  low-IsValid =
      Gathered-IsValid type p v 0 low (omega (arith, index_le)) done-Moved.kept
        done-Moved.kept_entries done-Moved.kept_data refl (omega (arith, index_le, v.slots_fit))
        (omega (
          arith,
          done-Moved.kept_entries,
          lens_within p 0 type v index (omega (arith, index_le)),
          v.entries_fit,
        ))

  slots_reserved : p.num_records - index ≤ (reserve upper (p.num_records - index) moved).max_slots
  unfolding reserve
  slots_reserved = ground arith

  entries_reserved : moved ≤ (reserve upper (p.num_records - index) moved).max_entries
  unfolding reserve
  entries_reserved = ground arith

  high-IsValid : IsValid type (update_key_bounds high)
  unfolding reserve
  high-IsValid =
      Gathered-IsValid type p v index high (omega (arith, done-Moved.count, index_le)) high-Gathered
        (done-Moved.num_entries ∙ ap (total (lens p index)) (sym done-Moved.count))
        (done-Moved.used_data ∙ ap (total (sizes p index)) (sym done-Moved.count))
        (done-Moved.key_size ∙ keys)
        (omega (arith, done-Moved.count, done-Moved.max_slots, slots_reserved))
        (omega
          (arith, done-Moved.num_entries, done-Moved.max_entries, moved-total, entries_reserved))

  -- Splitting a well-formed page into an empty one of the same key size leaves two well-formed pages: the
  -- first keeps the records before the index, which counts as the number of records where it is larger,
  -- and the second has the rest, each with its key and its entries, in the same order.
  pub sp_split-IsDivided :
      IsValid type (sp_split p upper at).0
      × IsValid type (sp_split p upper at).1
      × IsDivided p
          (if ltb p.num_records at then p.num_records else at)
          (sp_split p upper at).0
          (sp_split p upper at).1
  unfolding sp_split
  sp_split-IsDivided = (
    low-IsValid,
    high-IsValid,
    record {
      lower_count = count-bounds low;
      upper_count = count-bounds high ∙ done-Moved.count;
      lower_records = λ i h. IsRecord-bounds p i low i (
          subst (λ n. IsRecord p n low i) (omega arith)
            (Gathered-IsRecord p 0 index low done-Moved.kept i h));
      upper_records = λ i h.
          IsRecord-bounds p (index + i) high i
            (Gathered-IsRecord p index (p.num_records - index) high done-Moved.moved i h);
    },
  )
