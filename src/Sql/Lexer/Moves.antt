-- ===== src/Sql/Lexer/Moves.antt =====
-- How the scanning functions move the lexer: forward, within the source, and counting its lines.
use stripe_sql.Prelude.{
  ℕ, zero, suc, ◌+◌, ◌<◌, ◌≤◌, ◌≡◌, ◌≢◌, refl, sym, ap, ◌∙◌, Bool, true, false, ◌==◌, if◌then◌else◌,
  arith, Bool-cases, ==_iff, subst, inl, inr,
}
use stripe_sql.Storage.Bytes.{Buffer}
use stripe_sql.Sql.Lexer.{Lexer, advance, peek, peek_next, is_at_end}
use stripe_sql.Sql.Lexer.Grammar.{IsString, newlines, Span}
use stripe_sql.Sql.Lexer.Scan.{advance_line, run_while}

module _ (text : Buffer) (len : ℕ) where
  pub record IsPlace (lex : Lexer) : Type 0 where
    pub reads : lex.text ≡ text
    pub within : lex.current ≤ len
    pub counts : lex.line ≡ 1 + newlines text lex.current

  -- `b` is a place of the source behind `a`, in the same token.
  pub record Moves (a b : Lexer) : Type 0 where
    pub at : IsPlace b
    pub forward : a.current ≤ b.current
    pub same_start : b.start ≡ a.start

  abbrev pub Advances : Lexer → Lexer → Type 0
  Advances a b = Moves a b × (a.current < b.current)

  pub Moves-refl : (a : Lexer) → IsPlace a → Moves a a
  Moves-refl a h = record { at = h; forward = omega arith; same_start = refl }

  pub Moves-trans : (a b c : Lexer) → Moves a b → Moves b c → Moves a c
  Moves-trans a b c h k = record {
    at = k.at;
    forward = omega (arith, h.forward, k.forward);
    same_start = k.same_start ∙ h.same_start;
  }

  module _ (string : IsString text len) where
    pub peek-IsPlace : (a : Lexer) → IsPlace a → peek a ≡ text a.current
    unfolding peek
    peek-IsPlace a h = ap (λ t. t a.current) h.reads

    pub not_at_end : (a : Lexer) → IsPlace a → peek a ≢ 0 → a.current < len
    not_at_end a h n =
        ground
          (arith, h.within, n, peek-IsPlace a h, string.ends, λ (e : a.current ≡ len). ap text e)

    pub at_end : (a : Lexer) → IsPlace a → is_at_end a ≡ true → a.current ≡ len
    unfolding is_at_end
    at_end a h e = ground (arith, h.within, e, peek-IsPlace a h, string.goes_on a.current)

    pub advance-Moves : (a : Lexer) → IsPlace a → peek a ≢ 0 → peek a ≢ b'\n' → Moves a (advance a)
    unfolding advance
    advance-Moves a h n l = record {
      at = record {
        reads = h.reads;
        within = omega (arith, not_at_end a h n);
        counts = ground (arith, h.counts, peek-IsPlace a h, l);
      };
      forward = omega arith;
      same_start = refl;
    }

    pub advance_line-Moves : (a : Lexer) → IsPlace a → peek a ≢ 0 → Moves a (advance_line a)
    unfolding advance_line advance
    advance_line-Moves a h n = elim (Bool-cases (peek a == b'\n')) [
      | inl x ↦ rw x (record {
        at = record {
          reads = h.reads;
          within = omega (arith, not_at_end a h n);
          counts = ground (arith, h.counts, peek-IsPlace a h, x);
        };
        forward = omega arith;
        same_start = refl;
      })
      | inr x ↦ rw x (record {
        at = record {
          reads = h.reads;
          within = omega (arith, not_at_end a h n);
          counts = ground (arith, h.counts, peek-IsPlace a h, x);
        };
        forward = omega arith;
        same_start = refl;
      })
    ]

    pub peek-advance : (a : Lexer) → peek a ≢ 0 → peek (advance a) ≡ peek_next a
    unfolding peek advance peek_next is_at_end
    peek-advance a h = ground (arith, h)

    pub peek_next-IsPlace :
        (a : Lexer) → IsPlace a → peek a ≢ 0 → peek_next a ≡ text (a.current + 1)
    unfolding peek_next is_at_end peek
    peek_next-IsPlace a h n = ground (arith, n, ap (λ t. t (a.current + 1)) h.reads)

    pub advance_two-Moves :
        (a : Lexer)
        → IsPlace a
        → peek a ≢ 0
        → peek a ≢ b'\n'
        → peek_next a ≢ 0
        → peek_next a ≢ b'\n'
        → Moves a (advance (advance a))
    advance_two-Moves a h n l m k =
        let one = advance-Moves a h n l in
        Moves-trans a (advance a) (advance (advance a)) one (
          advance-Moves (advance a) one.at (λ e. m (sym (peek-advance a n) ∙ e))
            (λ e. k (sym (peek-advance a n) ∙ e)))

    -- A round that moves the lexer on wherever the test of the loop holds.
    abbrev pub GoesOn : (Lexer → Bool) → (Lexer → Lexer) → Type 0
    GoesOn test body = (a : Lexer) → IsPlace a → test a ≡ true → Advances a (body a)

    module _ (test : Lexer → Bool) (body : Lexer → Lexer) (goes_on : GoesOn test body) where
      pub run_while-Moves :
          (fuel : ℕ) (a : Lexer) → IsPlace a → Moves a (run_while test body fuel a)
      unfolding run_while
      run_while-Moves zero a h = Moves-refl a h
      run_while-Moves (suc fuel) a h = elim (Bool-cases (test a)) [
        | inl x ↦ rw x (further (run_while-Moves fuel) (goes_on a h x).0)
        | inr x ↦ rw x (Moves-refl a h)
      ]
        where
          further :
              ((b : Lexer) → IsPlace b → Moves b (run_while test body fuel b))
              → Moves a (body a)
              → Moves a (run_while test body fuel (body a))
          further again m =
              Moves-trans a (body a) (run_while test body fuel (body a)) m (again (body a) m.at)

      pub run_while-stops :
          (fuel : ℕ) (a : Lexer)
          → IsPlace a
          → len ≤ fuel + a.current
          → test (run_while test body fuel a) ≡ false
      unfolding run_while
      run_while-stops zero a h f = elim (Bool-cases (test a)) [
        | inl x ↦ let (m, l) = goes_on a h x in absurd (omega (arith, m.at.within, l, f))
        | inr x ↦ x
      ]
      run_while-stops (suc fuel) a h f = elim (Bool-cases (test a)) [
        | inl x ↦
            let (m, l) = goes_on a h x in
            rw x (run_while-stops fuel (body a) m.at (omega (arith, f, l)))
        | inr x ↦ rw x x
      ]

      pub run_while-forward :
          (fuel : ℕ) (a : Lexer)
          → IsPlace a
          → test a ≡ true
          → len ≤ fuel + a.current
          → a.current < (run_while test body fuel a).current
      unfolding run_while
      run_while-forward zero a h x f =
          let (m, l) = goes_on a h x in absurd (omega (arith, m.at.within, l, f))
      run_while-forward (suc fuel) a h x f =
          let (m, l) = goes_on a h x in
          rw x (omega (arith, l, (run_while-Moves fuel (body a) m.at).forward))

      -- What the test tells of the byte read holds of each byte passed.
      pub run_while-Span :
          (p : ℕ → Bool)
          → ((a : Lexer) → IsPlace a → test a ≡ true → p a.current ≡ true)
          → ((a : Lexer) → (body a).current ≡ a.current + 1)
          → (fuel : ℕ) (a : Lexer) → IsPlace a
          → Span p a.current (run_while test body fuel a).current
      unfolding run_while
      run_while-Span p tested one zero a h k l u = absurd (omega (arith, l, u))
      run_while-Span p tested one (suc fuel) a h k l u = elim (Bool-cases (test a)) [
        | inl x ↦ elim (Bool-cases (k == a.current)) [
          | inl y ↦ subst (λ i. p i ≡ true) (sym ((==_iff k a.current).0 y)) (tested a h x)
          | inr y ↦
              run_while-Span p tested one fuel (body a) (goes_on a h x).0.at k
                (ground (arith, one a, l, y)) (opened x u)
        ]
        | inr x ↦ absurd (omega (arith, l, shut x u))
      ]
        where
          opened :
              test a ≡ true
              → k < (run_while test body (suc fuel) a).current
              → k < (run_while test body fuel (body a)).current
          opened x =
              subst
                (λ b.
                  k < (if b then run_while test body fuel (body a) else a).current
                  → k < (run_while test body fuel (body a)).current)
                (sym x) (λ l. l)

          shut : test a ≡ false → k < (run_while test body (suc fuel) a).current → k < a.current
          shut x =
              subst
                (λ b.
                  k < (if b then run_while test body fuel (body a) else a).current → k < a.current)
                (sym x) (λ l. l)

    pub advance-GoesOn :
        (test : Lexer → Bool)
        → ((a : Lexer) → test a ≡ true → (peek a ≢ 0) × (peek a ≢ b'\n'))
        → GoesOn test advance
    unfolding advance
    advance-GoesOn test good a h x = let (n, l) = good a x in (advance-Moves a h n l, omega arith)

    pub advance_line-current : (a : Lexer) → (advance_line a).current ≡ a.current + 1
    unfolding advance advance_line
    advance_line-current a = elim (Bool-cases (peek a == b'\n')) [
      | inl y ↦ rw y refl
      | inr y ↦ rw y refl
    ]

    pub advance_line-GoesOn :
        (test : Lexer → Bool)
        → ((a : Lexer) → test a ≡ true → peek a ≢ 0)
        → GoesOn test advance_line
    advance_line-GoesOn test good a h x =
        (advance_line-Moves a h (good a x), omega (arith, advance_line-current a))
