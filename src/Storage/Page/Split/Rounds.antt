-- ===== src/Storage/Page/Split/Rounds.antt =====
-- What the loop of `SPSplit` has done after some rounds.
use stripe_sql.Prelude.{
  ℕ, zero, suc, ◌+◌, ◌-◌, ◌*◌, ◌≤◌, ◌<◌, ◌≡◌, inl, inr, refl, sym, ap, ◌∙◌, subst, arith, put, copy,
  ltb, false, Bool-cases,
}
use stripe_sql.Storage.Ordering.{OrderingType}
use stripe_sql.Storage.Page.Data.{SlottedPage}
use stripe_sql.Storage.Page.Valid.{IsValid, total, used_bytes}
use stripe_sql.Storage.Page.Split.{Splitting, keep_record, move_record, split_loop}
use stripe_sql.Storage.Page.Split.Gather.{
  Gathered, lens, sizes, next-Gathered, total_next, bytes_within,
}

module _ (type : OrderingType) (p : SlottedPage) (v : IsValid type p) (index : ℕ)
    (split : index ≤ p.num_records) (start : SlottedPage) where
  -- After the rounds for the first `i` records, all of which stay.
  pub record Kept (i : ℕ) (s : Splitting) : Type 0 where
    pub kept_entries : s.kept_entries ≡ total (lens p 0) i
    pub kept_data : s.kept_data ≡ total (sizes p 0) i
    pub kept : Gathered p 0 i s.slots s.kept
    pub others : (j : ℕ) → i ≤ j → s.slots j ≡ p.slots j
    pub upper : s.upper ≡ start

  -- After the rounds for all that stay and `i` more.
  pub record Moved (i : ℕ) (s : Splitting) : Type 0 where
    pub kept_entries : s.kept_entries ≡ total (lens p 0) index
    pub kept_data : s.kept_data ≡ total (sizes p 0) index
    pub kept : Gathered p 0 index s.slots s.kept
    pub others : (j : ℕ) → index + i ≤ j → s.slots j ≡ p.slots j
    pub count : s.upper.num_records ≡ i
    pub num_entries : s.upper.num_entries ≡ total (lens p index) i
    pub used_data : s.upper.used_data ≡ total (sizes p index) i
    pub moved : Gathered p index i s.upper.slots s.upper.entries
    pub max_slots : s.upper.max_slots ≡ start.max_slots
    pub max_entries : s.upper.max_entries ≡ start.max_entries
    pub arr_cap : s.upper.arr_cap ≡ start.arr_cap
    pub key_size : s.upper.key_size ≡ start.key_size

  keep_record-Kept :
      (i : ℕ) (s : Splitting) → i < index → Kept i s → Kept (i + 1) (keep_record p.entries i s)
  unfolding keep_record
  keep_record-Kept i s h k = record {
    kept_entries = ground (arith, k.kept_entries, same, total_next (lens p 0) i, bytes, v.small);
    kept_data = ground (arith, k.kept_data, same, total_next (sizes p 0) i, bytes, v.small);
    kept = rw (k.others i (omega arith), k.kept_entries) grown;
    others = λ j l. ground (arith, l, k.others j (omega (arith, l)));
    upper = k.upper;
  }
    where
      zero_plus : 0 + i ≡ i
      zero_plus = omega arith

      same : s.slots i ≡ p.slots (0 + i)
      same = k.others i (omega arith) ∙ ap p.slots (sym zero_plus)

      bytes :
          (i + 1) * (p.key_size + 12) + 6 * total (lens p 0) (i + 1) + total (sizes p 0) (i + 1)
          ≤ used_bytes p
      bytes = bytes_within p 0 type v (i + 1) (omega (arith, h, split))

      grown :
          Gathered p 0
            (i + 1)
            (put s.slots i (record (p.slots i) { ptr = total (lens p 0) i }))
            (copy s.kept (total (lens p 0) i) p.entries (p.slots i).ptr (p.slots i).len)
      grown =
          subst
            (λ x.
              Gathered p 0 (i + 1) (put s.slots i (record (p.slots x) { ptr = total (lens p 0) i }))
                (copy s.kept (total (lens p 0) i) p.entries (p.slots x).ptr (p.slots x).len))
            zero_plus (next-Gathered p 0 i s.slots s.kept k.kept)

  move_record-Moved :
      (i : ℕ) (s : Splitting)
      → index + i < p.num_records
      → Moved i s
      → Moved (i + 1) (move_record p.entries (index + i) s)
  unfolding move_record
  move_record-Moved i s h m = record {
    kept_entries = m.kept_entries;
    kept_data = m.kept_data;
    kept = record { slot = λ j l. ground (arith, l, m.kept.slot j l); cell = m.kept.cell };
    others = λ j l. ground (arith, l, m.others j (omega (arith, l)));
    count = ground (arith, m.count, bytes, v.small);
    num_entries = ground (arith, m.num_entries, same, total_next (lens p index) i, bytes, v.small);
    used_data = ground (arith, m.used_data, same, total_next (sizes p index) i, bytes, v.small);
    moved =
        rw (same, m.count, m.num_entries)
          (next-Gathered p index i s.upper.slots s.upper.entries m.moved);
    max_slots = m.max_slots;
    max_entries = m.max_entries;
    arr_cap = m.arr_cap;
    key_size = m.key_size;
  }
    where
      same : s.slots (index + i) ≡ p.slots (index + i)
      same = m.others (index + i) (omega arith)

      bytes :
          (i + 1) * (p.key_size + 12)
            + 6 * total (lens p index) (i + 1)
            + total (sizes p index) (i + 1)
          ≤ used_bytes p
      bytes = bytes_within p index type v (i + 1) (omega (arith, h))

  module _ (no_records : start.num_records ≡ 0) (no_entries : start.num_entries ≡ 0)
      (no_data : start.used_data ≡ 0) where
    Kept-Moved : (s : Splitting) → Kept index s → Moved 0 s
    unfolding total
    Kept-Moved s k = record {
      kept_entries = k.kept_entries;
      kept_data = k.kept_data;
      kept = k.kept;
      others = λ j l. k.others j (omega (arith, l));
      count = rw k.upper no_records;
      num_entries = rw k.upper no_entries;
      used_data = rw k.upper no_data;
      moved = record {
        slot = λ j h. absurd (omega (arith, h));
        cell = λ j h c l. absurd (omega (arith, h));
      };
      max_slots = rw k.upper refl;
      max_entries = rw k.upper refl;
      arr_cap = rw k.upper refl;
      key_size = rw k.upper refl;
    }

    moves_rest :
        (rounds i : ℕ) (s : Splitting)
        → index + i + rounds ≡ p.num_records
        → Moved i s
        → Moved (p.num_records - index) (split_loop rounds p.entries index (index + i) s)
    unfolding split_loop
    moves_rest zero i s e m = subst (λ n. Moved n s) (omega (arith, e)) m
    moves_rest (suc rounds) i s e m =
        let moves : ltb (index + i) index ≡ false = ground arith in
        let next : index + i + 1 ≡ index + (i + 1) = omega arith in
        rw (moves, next)
          (moves_rest rounds (i + 1) (move_record p.entries (index + i) s) (omega (arith, e))
            (move_record-Moved i s (omega (arith, e)) m))

    pub split_loop-Moved :
        (rounds i : ℕ) (s : Splitting)
        → i + rounds ≡ p.num_records
        → i ≤ index
        → Kept i s
        → Moved (p.num_records - index) (split_loop rounds p.entries index i s)
    unfolding split_loop
    split_loop-Moved zero i s e l k =
        subst (λ n. Moved n s) (omega (arith, e, l, split))
          (Kept-Moved s (subst (λ n. Kept n s) (omega (arith, e, l, split)) k))
    split_loop-Moved (suc rounds) i s e l k = elim (Bool-cases (ltb i index)) [
      | inl stays ↦ rw stays (
          split_loop-Moved rounds (i + 1) (keep_record p.entries i s) (omega (arith, e))
            (ground (arith, stays)) (keep_record-Kept i s (ground (arith, stays)) k))
      | inr moves ↦
          let here : i ≡ index = ground (arith, moves, l) in
          subst (λ n. Moved (p.num_records - index) (split_loop (suc rounds) p.entries index n s))
            (omega (arith, here))
            (moves_rest (suc rounds) 0 s (omega (arith, e, here))
              (Kept-Moved s (subst (λ n. Kept n s) here k)))
    ]
