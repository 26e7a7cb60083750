-- ===== src/Storage/Page/Update/Replace.antt =====
-- What `SPUpdate` leaves in a page.
use stripe_sql.Prelude.{
  ℕ, zero, suc, ◌+◌, ◌-◌, ◌^◌, ◌≤◌, ◌<◌, ◌≡◌, inl, inr, refl, sym, ◌∙◌, subst, arith, slice,
  slice-ext, ltb, leb, if◌then◌else◌, ◌&&◌, ◌==◌, Bool-cases, ==_iff, ◌≢◌,
}
use stripe_sql.Storage.Ordering.{OrderingType}
use stripe_sql.Storage.Page.Data.{SpRecord, SlottedPage}
use stripe_sql.Storage.Page.Valid.{IsValid, total, total-same, used_bytes}
use stripe_sql.Storage.Page.Found.{record_at}
use stripe_sql.Storage.Page.Split.Gather.{total_next, total_up_to}
use stripe_sql.Storage.Page.Update.{update_entry, update_loop}

module _ (p : SlottedPage) (index : ℕ) (r : SpRecord) where
  -- The sizes of the entries of the record in the slot, and of those that replace them.
  abbrev pub old_sizes : ℕ → ℕ
  old_sizes c = (p.entries ((p.slots index).ptr + c)).size

  abbrev pub new_sizes : ℕ → ℕ
  new_sizes c = (r.entries c).size

  -- The page after `i` rounds of the loop.
  pub record Replaced (i : ℕ) (q : SlottedPage) : Type 0 where
    pub entry :
        (j : ℕ)
        → q.entries j ≡ (
            if leb (p.slots index).ptr j && ltb j ((p.slots index).ptr + i)
            then r.entries (j - (p.slots index).ptr)
            else p.entries j)
    pub slot :
        (j : ℕ)
        → q.slots j ≡ (
            if j == index
            then record (p.slots index) { size = (q.slots index).size }
            else p.slots j)
    pub size : (q.slots index).size + total old_sizes i ≡ (p.slots index).size + total new_sizes i
    pub used : q.used_data + total old_sizes i ≡ p.used_data + total new_sizes i
    pub num_records : q.num_records ≡ p.num_records
    pub num_entries : q.num_entries ≡ p.num_entries
    pub key_size : q.key_size ≡ p.key_size
    pub max_slots : q.max_slots ≡ p.max_slots
    pub max_entries : q.max_entries ≡ p.max_entries
    pub min_key : q.min_key ≡ p.min_key
    pub max_key : q.max_key ≡ p.max_key

  module _ (fits : r.len ≤ (p.slots index).len)
      (sized : (p.slots index).size ≡ total old_sizes (p.slots index).len)
      (within : (p.slots index).size ≤ p.used_data)
      (small : p.used_data + total new_sizes r.len < 2 ^ 31) where
    update_entry-Replaced :
        (i : ℕ) (q : SlottedPage)
        → i < r.len
        → Replaced i q
        → Replaced (i + 1) (update_entry q index r i)
    unfolding update_entry
    update_entry-Replaced i q h s = record {
      entry = λ j. ground (arith, same, s.entry j);
      slot = λ j. ground (arith, s.slot j, s.slot index);
      size = ground (
        arith,
        s.size,
        old,
        total_next old_sizes i,
        total_next new_sizes i,
        old_within,
        new_within,
        sized,
        within,
        small,
      );
      used = ground (
        arith,
        s.used,
        old,
        total_next old_sizes i,
        total_next new_sizes i,
        old_within,
        new_within,
        sized,
        within,
        small,
      );
      num_records = s.num_records;
      num_entries = s.num_entries;
      key_size = s.key_size;
      max_slots = s.max_slots;
      max_entries = s.max_entries;
      min_key = s.min_key;
      max_key = s.max_key;
    }
      where
        same : (q.slots index).ptr ≡ (p.slots index).ptr
        same = ground (arith, s.slot index)

        old : (q.entries ((q.slots index).ptr + i)).size ≡ old_sizes i
        old = ground (arith, same, s.entry ((p.slots index).ptr + i))

        old_within : total old_sizes i + old_sizes i ≤ total old_sizes (p.slots index).len
        old_within = total_up_to old_sizes i (p.slots index).len (omega (arith, h, fits))

        new_within : total new_sizes i + new_sizes i ≤ total new_sizes r.len
        new_within = total_up_to new_sizes i r.len h

    rounds-Replaced :
        (rounds i : ℕ) (q : SlottedPage)
        → i + rounds ≡ r.len
        → Replaced i q
        → Replaced r.len (update_loop rounds q index r i)
    unfolding update_loop
    rounds-Replaced zero i q e s = subst (λ n. Replaced n q) (omega (arith, e)) s
    rounds-Replaced (suc rounds) i q e s =
        rounds-Replaced rounds (i + 1) (update_entry q index r i) (omega (arith, e))
          (update_entry-Replaced i q (omega (arith, e)) s)

    pub update_loop-Replaced : Replaced r.len (update_loop r.len p index r 0)
    unfolding total
    update_loop-Replaced = rounds-Replaced r.len 0 p (omega arith) (record {
      entry = λ j. ground arith;
      slot = λ j. ground arith;
      size = refl;
      used = refl;
      num_records = refl;
      num_entries = refl;
      key_size = refl;
      max_slots = refl;
      max_entries = refl;
      min_key = refl;
      max_key = refl;
    })

-- A sum in which one term has changed.
total_changed :
    (f g : ℕ → ℕ) (n k : ℕ)
    → k < n
    → ((j : ℕ) → j < n → j ≢ k → g j ≡ f j)
    → total g n + f k ≡ total f n + g k
unfolding total
total_changed f g zero k h e = absurd (omega (arith, h))
total_changed f g (suc n) k h e = elim (Bool-cases (k == n)) [
  | inl last ↦
      let same : k ≡ n = (==_iff k n).0 last in
      rw same (
        omega (
          arith,
          total-same f g n (λ j l. e j (omega (arith, l)) (λ x. omega (arith, x, same, l))),
        ))
  | inr other ↦ omega (
    arith,
    total_changed f g n k (ground (arith, h, other)) (λ j l. e j (omega (arith, l))),
    e n (omega arith) (λ x. ground (arith, x, other)),
  )
]

module _ (type : OrderingType) (p : SlottedPage) (v : IsValid type p) (index : ℕ)
    (here : index < p.num_records) (r : SpRecord) (q : SlottedPage)
    (s : Replaced p index r r.len q) where
  pub slot_id : (j : ℕ) → (q.slots j).id ≡ (p.slots j).id
  slot_id j = ground (arith, s.slot j)

  slot_ptr : (j : ℕ) → (q.slots j).ptr ≡ (p.slots j).ptr
  slot_ptr j = ground (arith, s.slot j)

  slot_len : (j : ℕ) → (q.slots j).len ≡ (p.slots j).len
  slot_len j = ground (arith, s.slot j)

  sizes_changed :
      total (λ j. (q.slots j).size) p.num_records + (p.slots index).size
      ≡ total (λ j. (p.slots j).size) p.num_records + (q.slots index).size
  sizes_changed =
      total_changed (λ j. (p.slots j).size) (λ j. (q.slots j).size) p.num_records index here
        (λ j h d. ground (arith, s.slot j, d))

  pub Replaced-IsValid : used_bytes p + total (new_sizes p index r) r.len < 2 ^ 31 → IsValid type q
  Replaced-IsValid small = record {
    slots_fit = omega (arith, v.slots_fit, s.num_records, s.max_slots);
    entries_fit = omega (arith, v.entries_fit, s.num_entries, s.max_entries);
    small = rw (s.num_records, s.key_size) (omega (arith, small, s.num_entries, s.used));
    ordered = rw s.num_records (record {
      keys = λ j h. rw (slot_id j) (v.ordered.keys j h);
      sorted = λ i j h l. rw (slot_id i, slot_id j) (v.ordered.sorted i j h l);
    });
    laid_out =
        rw (s.num_records, s.num_entries)
          (record {
            inside = λ j h. rw (slot_ptr j, slot_len j) (v.laid_out.inside j h);
            apart = λ i j h l.
                rw (slot_ptr i, slot_len i, slot_ptr j, slot_len j) (v.laid_out.apart i j h l);
          });
    accounted =
        rw (s.num_records, s.num_entries)
          (record {
            lengths =
                v.accounted.lengths
                ∙ sym (
                    total-same (λ j. (p.slots j).len) (λ j. (q.slots j).len) p.num_records
                      (λ j h. slot_len j));
            sizes = omega (arith, sizes_changed, v.accounted.sizes, s.size, s.used);
          });
    lowest = rw (s.num_records, s.min_key, slot_id 0) v.lowest;
    highest = rw (s.num_records, s.max_key, slot_id (p.num_records - 1)) v.highest;
  }

  -- The record in slot `j` is as it was, if it is another one.
  pub record_at-other :
      (j : ℕ)
      → j < p.num_records
      → j ≢ index
      → r.len ≤ (p.slots index).len
      → record_at q j ≡ record_at p j
  record_at-other j h d fits =
      rw (slot_ptr j, slot_len j)
        (slice-ext q.entries p.entries (p.slots j).ptr (p.slots j).ptr (p.slots j).len (λ c l.
          ground (
            arith,
            s.entry ((p.slots j).ptr + c),
            l,
            d,
            fits,
            h,
            here,
            v.laid_out.apart index j,
            v.laid_out.apart j index,
          )))

  pub record_at-index :
      record_at q index
      ≡ slice
          (λ c. if ltb c r.len then r.entries c else p.entries ((p.slots index).ptr + c))
          0
          (p.slots index).len
  record_at-index =
      rw (slot_ptr index, slot_len index)
        (slice-ext q.entries
          (λ c. if ltb c r.len then r.entries c else p.entries ((p.slots index).ptr + c))
          (p.slots index).ptr 0 (p.slots index).len
          (λ c l. ground (arith, s.entry ((p.slots index).ptr + c), l)))
