-- ===== src/Storage/Tree/Choose/Judge.antt =====
-- One round of the search for a split: it takes a split that is more even than what it has.
use stripe_sql.Prelude.{
  ℕ, ◌+◌, ◌-◌, ◌^◌, ◌<◌, ◌≤◌, ◌≡◌, refl, sym, ◌∙◌, arith, Bool, true, not, ◌&&◌, ◌||◌, ltb, leb,
  ◌==◌, if◌then◌else◌,
}
use stripe_sql.Prelude.Word.{u32, sub32}
use stripe_sql.Storage.Ordering.{OrderingType}
use stripe_sql.Storage.Page.Data.{SlottedPage, sp_used_bytes}
use stripe_sql.Storage.Page.Valid.{IsValid}
use stripe_sql.Storage.Tree.Choose.{Choice, try_split}
use stripe_sql.Storage.Tree.Choose.Room.{
  room, lower_bytes, upper_bytes, imbalance, IsSplit, room-whole, room-monotone,
}

module _ (p : SlottedPage) (has_record : Bool) (pos needed : ℕ) where
  -- The best of a choice and of one more split.
  abbrev pub better : ℕ → Bool → Choice → Choice
  better keep in_upper s =
      if ltb (imbalance p has_record needed keep in_upper) s.best
      then record {
        best = imbalance p has_record needed keep in_upper;
        keep = keep;
        in_upper = in_upper;
        found = true;
      }
      else s

  -- The conditions of a split, tested.
  abbrev pub admits : ℕ → Bool → Bool
  admits keep in_upper =
      not (not has_record && in_upper)
      && not (has_record && (if in_upper then ltb pos keep else ltb keep pos))
      && ltb 0 (lower_bytes p has_record needed keep in_upper)
      && ltb 0 (upper_bytes p has_record needed keep in_upper)
      && leb (lower_bytes p has_record needed keep in_upper) p.arr_cap
      && leb (upper_bytes p has_record needed keep in_upper) p.arr_cap

  -- The test of one split on the sizes of its halves.
  abbrev judge : ℕ → Bool → ℕ → ℕ → Choice → Choice
  judge keep in_upper lower upper s =
      if not has_record && in_upper
      then s
      else if has_record && (if in_upper then ltb pos keep else ltb keep pos)
      then s
      else if lower == 0 || upper == 0 || ltb p.arr_cap lower || ltb p.arr_cap upper
      then s
      else if ltb ((lower - upper) + (upper - lower)) s.best
      then record {
        best = (lower - upper) + (upper - lower);
        keep = keep;
        in_upper = in_upper;
        found = true;
      }
      else s

  judge-admits :
      (keep : ℕ) (in_upper : Bool) (l u : ℕ) (s : Choice)
      → l ≡ lower_bytes p has_record needed keep in_upper
      → u ≡ upper_bytes p has_record needed keep in_upper
      → judge keep in_upper l u s ≡ (if admits keep in_upper then better keep in_upper s else s)
  judge-admits keep in_upper l u s e f = rw (sym e, sym f) (ground arith)

  pub admits-IsSplit :
      (keep : ℕ) (in_upper : Bool)
      → keep ≤ p.num_records
      → admits keep in_upper ≡ true
      → IsSplit p has_record pos needed keep in_upper
  admits-IsSplit keep in_upper h a = record {
    within = h;
    placed = ground (arith, a);
    lower_filled = ground (arith, a);
    upper_filled = ground (arith, a);
    lower_fits = ground (arith, a);
    upper_fits = ground (arith, a);
  }

  pub IsSplit-admits :
      (keep : ℕ) (in_upper : Bool)
      → IsSplit p has_record pos needed keep in_upper
      → admits keep in_upper ≡ true
  IsSplit-admits keep in_upper g =
      ground (arith, g.placed, g.lower_filled, g.upper_filled, g.lower_fits, g.upper_fits)

  module _ (type : OrderingType) (v : IsValid type p) (bounded : needed < 2 ^ 31) where
    difference :
        (l u : ℕ)
        → l < 2 ^ 32
        → u < 2 ^ 32
        → (if ltb u l then sub32 l u else sub32 u l) ≡ (l - u) + (u - l)
    difference l u h k = ground (arith, h, k)

    try_split-judge :
        (keep : ℕ) (in_upper : Bool) (s : Choice)
        → keep ≤ p.num_records
        → try_split p has_record pos needed (room p keep) keep in_upper s
          ≡ judge keep in_upper
              (lower_bytes p has_record needed keep in_upper)
              (upper_bytes p has_record needed keep in_upper)
              s
    unfolding try_split sp_used_bytes
    try_split-judge keep in_upper s h =
        let small : room p keep ≤ room p p.num_records = room-monotone p keep p.num_records h in
        let lower : u32 (room p keep + (if in_upper then 0 else if has_record then needed else 0))
            ≡ lower_bytes p has_record needed keep in_upper =
          ground (arith, small, room-whole type p v, v.small, bounded) in
        let upper : u32 (
              sub32 (sp_used_bytes p) (room p keep)
              + (if in_upper then if has_record then needed else 0 else 0))
            ≡ upper_bytes p has_record needed keep in_upper =
          ground (arith, small, room-whole type p v, v.small, bounded) in
        rw
          (
            lower,
            upper,
            difference (lower_bytes p has_record needed keep in_upper)
                (upper_bytes p has_record needed keep in_upper)
                (ground (arith, small, room-whole type p v, v.small, bounded))
                (ground (arith, small, room-whole type p v, v.small, bounded)),
          )
          refl

    pub try_split-admits :
        (keep : ℕ) (in_upper : Bool) (s : Choice)
        → keep ≤ p.num_records
        → try_split p has_record pos needed (room p keep) keep in_upper s
          ≡ (if admits keep in_upper then better keep in_upper s else s)
    try_split-admits keep in_upper s h =
        try_split-judge keep in_upper s h
        ∙ judge-admits keep in_upper (lower_bytes p has_record needed keep in_upper)
            (upper_bytes p has_record needed keep in_upper) s refl refl
