-- ===== src/Storage/Tree/Choose/Best.antt =====
-- `chooseSplit` finds the most even split of a page if there is one.
use stripe_sql.Prelude.{
  ℕ, zero, suc, ◌+◌, ◌-◌, ◌*◌, ◌^◌, ◌<◌, ◌≤◌, ◌≡◌, inl, inr, refl, subst, arith, Bool, true, false,
  ltb, leb, if◌then◌else◌, Bool-cases, if-both, ltb→lt, ltb→le,
}
use mathlib.Core.Path.{subst₂}
use stripe_sql.Prelude.Word.{u32}
use stripe_sql.Storage.Ordering.{OrderingType}
use stripe_sql.Storage.Page.Data.{SlottedPage}
use stripe_sql.Storage.Page.Valid.{IsValid}
use stripe_sql.Storage.Tree.Choose.{Choice, try_split, keep_loop, choose_split}
use stripe_sql.Storage.Tree.Choose.Room.{
  room, imbalance, IsSplit, IsBest, room-whole, room-monotone, room-zero, room_next, few_records,
}
use stripe_sql.Storage.Tree.Choose.Judge.{
  admits, better, admits-IsSplit, IsSplit-admits, try_split-admits,
}

-- The place of a split in the order in which they are tried.
abbrev rank : ℕ → Bool → ℕ
rank keep in_upper = keep * 2 + (if in_upper then 1 else 0)

rank-injective : (k j : ℕ) (u v : Bool) → rank k u ≡ rank j v → (k ≡ j) × (u ≡ v)
rank-injective k j true true e = (omega (arith, e), refl)
rank-injective k j false false e = (omega (arith, e), refl)
rank-injective k j true false e = absurd (omega (arith, e))
rank-injective k j false true e = absurd (omega (arith, e))

module _ (type : OrderingType) (p : SlottedPage) (v : IsValid type p) (has_record : Bool)
    (pos needed : ℕ) (bounded : needed < 2 ^ 31) where
  -- What has been found among the first `n` splits.
  record Chosen (n : ℕ) (s : Choice) : Type 0 where
    fresh : s.found ≡ false → s.best ≡ 2 ^ 32 - 1
    real : s.found ≡ true → IsSplit p has_record pos needed s.keep s.in_upper
    measured : s.found ≡ true → s.best ≡ imbalance p has_record needed s.keep s.in_upper
    least :
        (keep : ℕ) (in_upper : Bool)
        → rank keep in_upper < n
        → IsSplit p has_record pos needed keep in_upper
        → (s.found ≡ true) × (s.best ≤ imbalance p has_record needed keep in_upper)

  same_imbalance :
      (k j : ℕ) (u w : Bool)
      → (k ≡ j) × (u ≡ w)
      → imbalance p has_record needed j w ≤ imbalance p has_record needed k u
  same_imbalance k j u w (e, f) = rw (e, f) (omega arith)

  -- A choice that one more split is not better than has found one.
  already_found :
      (keep : ℕ) (in_upper : Bool) (s : Choice)
      → keep ≤ p.num_records
      → ltb (imbalance p has_record needed keep in_upper) s.best ≡ false
      → Chosen (rank keep in_upper) s
      → s.found ≡ true
  already_found keep in_upper s h more c = elim (Bool-cases s.found) [
    | inl done ↦ done
    | inr never ↦ absurd (
        ground (
          arith,
          c.fresh never,
          more,
          room-monotone p keep p.num_records h,
          room-whole type p v,
          v.small,
          bounded,
        ))
  ]

  better-Chosen :
      (keep : ℕ) (in_upper : Bool) (s : Choice)
      → keep ≤ p.num_records
      → IsSplit p has_record pos needed keep in_upper
      → Chosen (rank keep in_upper) s
      → Chosen (rank keep in_upper + 1) (better p has_record pos needed keep in_upper s)
  better-Chosen keep in_upper s h g c =
      if-both (Chosen (rank keep in_upper + 1))
        (ltb (imbalance p has_record needed keep in_upper) s.best)
        (λ less. record {
          fresh = λ e. ground (arith, e);
          real = λ _. g;
          measured = λ _. refl;
          least = λ k u l other. (
            refl,
            elim (Bool-cases (ltb (rank k u) (rank keep in_upper))) [
              | inl before ↦
                  ground
                    (arith, less, c.least k u (ltb→lt (rank k u) (rank keep in_upper) before) other)
              | inr now ↦ same_imbalance k keep u in_upper (
                  rank-injective k keep u in_upper
                    (omega (arith, l, ltb→le (rank k u) (rank keep in_upper) now)))
            ],
          );
        })
        (λ more. record {
          fresh = c.fresh;
          real = c.real;
          measured = c.measured;
          least = λ k u l other. elim (Bool-cases (ltb (rank k u) (rank keep in_upper))) [
            | inl before ↦ c.least k u (ltb→lt (rank k u) (rank keep in_upper) before) other
            | inr now ↦ (
              already_found keep in_upper s h more c,
              omega (
                arith,
                ltb→le (imbalance p has_record needed keep in_upper) s.best more,
                same_imbalance k keep u in_upper (
                    rank-injective k keep u in_upper
                      (omega (arith, l, ltb→le (rank k u) (rank keep in_upper) now))),
              ),
            )
          ];
        })

  refused :
      (keep : ℕ) (in_upper : Bool) (k : ℕ) (u : Bool)
      → admits p has_record pos needed keep in_upper ≡ false
      → (k ≡ keep) × (u ≡ in_upper)
      → IsSplit p has_record pos needed k u
      → ⊥
  refused keep in_upper k u a (e, f) g = ground (
    arith,
    a,
    IsSplit-admits p has_record pos needed keep in_upper
        (subst₂ (IsSplit p has_record pos needed) e f g),
  )

  same-Chosen :
      (keep : ℕ) (in_upper : Bool) (s : Choice)
      → admits p has_record pos needed keep in_upper ≡ false
      → Chosen (rank keep in_upper) s
      → Chosen (rank keep in_upper + 1) s
  same-Chosen keep in_upper s a c = record {
    fresh = c.fresh;
    real = c.real;
    measured = c.measured;
    least = λ k u l other. elim (Bool-cases (ltb (rank k u) (rank keep in_upper))) [
      | inl before ↦ c.least k u (ltb→lt (rank k u) (rank keep in_upper) before) other
      | inr now ↦ absurd (
          refused keep in_upper k u a
            (rank-injective k keep u in_upper
              (omega (arith, l, ltb→le (rank k u) (rank keep in_upper) now)))
            other)
    ];
  }

  try_split-Chosen :
      (keep : ℕ) (in_upper : Bool) (s : Choice)
      → keep ≤ p.num_records
      → Chosen (rank keep in_upper) s
      → Chosen
          (rank keep in_upper + 1)
          (try_split p has_record pos needed (room p keep) keep in_upper s)
  try_split-Chosen keep in_upper s h c =
      rw (try_split-admits p has_record pos needed type v bounded keep in_upper s h) (
        if-both (Chosen (rank keep in_upper + 1)) (admits p has_record pos needed keep in_upper)
          (λ a.
            better-Chosen keep in_upper s h
              (admits-IsSplit p has_record pos needed keep in_upper h a) c)
          (λ a. same-Chosen keep in_upper s a c))

  abbrev both : ℕ → Choice → Choice
  both keep s =
      try_split p has_record pos needed (room p keep) keep true
        (try_split p has_record pos needed (room p keep) keep false s)

  both-Chosen :
      (keep : ℕ) (s : Choice)
      → keep ≤ p.num_records
      → Chosen (keep * 2) s
      → Chosen (keep * 2 + 2) (both keep s)
  both-Chosen keep s h c =
      subst (λ n. Chosen n (both keep s)) (omega arith)
        (try_split-Chosen keep true (try_split p has_record pos needed (room p keep) keep false s) h
          (subst (λ n. Chosen n (try_split p has_record pos needed (room p keep) keep false s))
            (omega arith)
            (try_split-Chosen keep false s h (subst (λ n. Chosen n s) (omega arith) c))))

  keep_loop-Chosen :
      (fuel keep : ℕ) (s : Choice)
      → keep + fuel ≡ p.num_records + 1
      → Chosen (keep * 2) s
      → Chosen (p.num_records * 2 + 2) (keep_loop fuel p has_record pos needed (room p keep) keep s)
  unfolding keep_loop
  keep_loop-Chosen zero keep s e c = subst (λ n. Chosen n s) (omega (arith, e)) c
  keep_loop-Chosen (suc zero) keep s e c =
      let last : leb keep p.num_records ≡ true = ground (arith, e) in
      rw last (
        subst (λ n. Chosen n (both keep s)) (omega (arith, e))
          (both-Chosen keep s (omega (arith, e)) c))
  keep_loop-Chosen (suc (suc fuel)) keep s e c =
      let more : leb keep p.num_records ≡ true = ground (arith, e) in
      let less : ltb keep p.num_records ≡ true = ground (arith, e) in
      let next : u32 (keep + 1) ≡ keep + 1 = omega (arith, e, few_records type p v) in
      rw (more, less, room_next type p v keep (omega (arith, e)), next)
        (keep_loop-Chosen (suc fuel) (keep + 1) (both keep s) (omega (arith, e)) (
          subst (λ n. Chosen n (both keep s)) (omega arith)
            (both-Chosen keep s (omega (arith, e)) c)))

  Chosen-IsBest : (s : Choice) → Chosen (p.num_records * 2 + 2) s → IsBest p has_record pos needed s
  Chosen-IsBest s c = record {
    real = c.real;
    least = λ k u g.
        let (e, l) = c.least k u (ground (arith, g.within)) g in
        (e, omega (arith, l, c.measured e));
  }

  -- `choose_split` on a well-formed page finds a split that leaves neither page empty and both within the
  -- capacity, the record in the page where its index is, if there is one, and no such split is more even.
  pub choose_split-IsBest :
      (keep_out : ℕ) (upper_out : Bool)
      → IsBest p has_record pos needed (choose_split p has_record pos needed keep_out upper_out)
  unfolding choose_split
  choose_split-IsBest keep_out upper_out =
      let start : Choice = record {
        best = 2 ^ 32 - 1;
        keep = keep_out;
        in_upper = upper_out;
        found = false;
      } in
      subst
        (λ b.
          IsBest p has_record pos needed
            (keep_loop (p.num_records + 1) p has_record pos needed b 0 start))
        (room-zero p)
        (Chosen-IsBest (keep_loop (p.num_records + 1) p has_record pos needed (room p 0) 0 start) (
          keep_loop-Chosen (p.num_records + 1) 0 start (omega arith) (record {
            fresh = λ _. refl;
            real = λ e. ground (arith, e);
            measured = λ e. ground (arith, e);
            least = λ k u l g. absurd (omega (arith, l));
          })))
