-- ===== src/Sql/Lexer/Gaps.antt =====
-- What `skipWhitespace` passes is white space and comments.
use stripe_sql.Prelude.{
  if-both, ℕ, zero, suc, ◌+◌, ◌<◌, ◌≤◌, ◌≡◌, ◌≢◌, ◌⊎◌, refl, sym, ◌∙◌, true, false, not, ◌==◌,
  arith, Bool-cases, inl, inr, ◌&&◌, ◌||◌, Option, none, some, Option-cases, subst,
}
use stripe_sql.Storage.Bytes.{Buffer}
use stripe_sql.Sql.Lexer.{Lexer, advance, peek, peek_next, is_at_end}
use stripe_sql.Sql.Lexer.Scan.{
  advance_line, run_while, in_line, in_comment, close_comment, skip_one, skip_whitespace,
}
use stripe_sql.Sql.Lexer.Grammar.{IsString, Span, IsPiece, IsGap, closes, opens_gap}
use stripe_sql.Sql.Lexer.Moves.{
  IsPlace, Advances, advance_two-Moves, run_while-Moves, run_while-stops, run_while-Span,
  peek-IsPlace, at_end, peek_next-IsPlace, advance_line-current,
}
use stripe_sql.Sql.Lexer.Skip.{
  in_line-GoesOn, in_comment-GoesOn, line_comment, skip_one-Skips, Skips,
}

module _ (text : Buffer) (len : ℕ) (string : IsString text len) where
  line_span :
      (a : Lexer) → IsPlace text len a → in_line a ≡ true → not (text a.current == b'\n') ≡ true
  unfolding in_line
  line_span a h x = ground (arith, x, peek-IsPlace text len string a h)

  line_end :
      (a : Lexer)
      → IsPlace text len a
      → in_line a ≡ false
      → (text a.current ≡ b'\n') ⊎ (a.current ≡ len)
  unfolding in_line
  line_end a h x = elim (Bool-cases (is_at_end a)) [
    | inl y ↦ inr (at_end text len string a h y)
    | inr y ↦ inl (ground (arith, x, y, peek-IsPlace text len string a h))
  ]

  line_comment-IsPiece :
      (fuel : ℕ) (a : Lexer)
      → len ≤ fuel + a.current
      → IsPlace text len a
      → peek a ≡ b'-'
      → peek_next a ≡ b'-'
      → IsPiece text len a.current (run_while in_line advance fuel a).current
  unfolding advance
  line_comment-IsPiece fuel a f h e n =
      IsPiece.line_comment (sym (peek-IsPlace text len string a h) ∙ e)
        (sym (peek_next-IsPlace text len string a h (ground (arith, e))) ∙ n)
        (run_while-Span text len string in_line advance (in_line-GoesOn text len string)
          (λ k. not (text k == b'\n')) line_span (λ b. refl) fuel a h)
        (line_end (run_while in_line advance fuel a)
          (line_comment text len string fuel a f h e).0.at
          (run_while-stops text len string in_line advance (in_line-GoesOn text len string) fuel a h
            f))

  comment_span :
      (a : Lexer) → IsPlace text len a → in_comment a ≡ true → not (closes text a.current) ≡ true
  unfolding in_comment is_at_end peek
  comment_span a h x = ground (
    arith,
    x,
    peek-IsPlace text len string a h,
    peek_next-IsPlace text len string a h (λ e. ground (arith, x, e)),
  )

  close_comment-IsPiece :
      (n : ℕ) (a : Lexer)
      → IsPlace text len a
      → in_comment a ≡ false
      → text n ≡ b'/'
      → text (n + 1) ≡ b'*'
      → Span (λ k. not (closes text k)) (n + 2) a.current
      → IsPiece text len n (close_comment a).current
  unfolding in_comment close_comment advance
  close_comment-IsPiece n a h x e m span = elim (Bool-cases (is_at_end a)) [
    | inl y ↦ rw y (
        subst (IsPiece text len n) (sym (at_end text len string a h y)) (
          IsPiece.open_comment e m
            (λ k l u. span k l (subst (λ i. k < i) (sym (at_end text len string a h y)) u))))
    | inr y ↦ rw y (
        subst (IsPiece text len n) (omega arith)
          (IsPiece.block_comment {m = a.current} e m span (closed y)))
  ]
    where
      closed : is_at_end a ≡ false → closes text a.current ≡ true
      closed y = ground (
        arith,
        x,
        y,
        peek-IsPlace text len string a h,
        peek_next-IsPlace text len string a h (λ z. ground (arith, x, y, z)),
      )

  block_comment-IsPiece :
      (fuel : ℕ) (a : Lexer)
      → len ≤ fuel + a.current
      → IsPlace text len a
      → peek a ≡ b'/'
      → peek_next a ≡ b'*'
      → IsPiece text len a.current
          (close_comment (run_while in_comment advance_line fuel (advance (advance a)))).current
  unfolding advance
  block_comment-IsPiece fuel a f h e n =
      let two =
        advance_two-Moves text len string a h (ground (arith, e)) (ground (arith, e))
          (ground (arith, n)) (ground (arith, n)) in
      let c = advance (advance a) in
      let d = run_while in_comment advance_line fuel c in
      let inside =
        run_while-Moves text len string in_comment advance_line (in_comment-GoesOn text len string)
          fuel c two.at in
      let stop =
        run_while-stops text len string in_comment advance_line (in_comment-GoesOn text len string)
          fuel c two.at (omega (arith, f)) in
      let span =
        run_while-Span text len string in_comment advance_line (in_comment-GoesOn text len string)
          (λ k. not (closes text k)) comment_span (advance_line-current text len string) fuel c
          two.at in
      close_comment-IsPiece a.current d inside.at stop (sym (peek-IsPlace text len string a h) ∙ e)
        (sym (peek_next-IsPlace text len string a h (ground (arith, e))) ∙ n)
        (λ k l u. span k (omega (arith, l)) u)

  abbrev IsNext : Lexer → Option Lexer → Type 0
  IsNext a none = Unit
  IsNext a (some b) = IsPiece text len a.current b.current

  skip_one-IsNext :
      (fuel : ℕ) (a : Lexer)
      → len ≤ fuel + a.current
      → IsPlace text len a
      → IsNext a (skip_one fuel a)
  unfolding skip_one advance
  skip_one-IsNext fuel a f h =
      if-both (IsNext a) (peek a == b' ' || peek a == b'\r' || peek a == b'\t')
        (λ x. IsPiece.blank (ground (arith, x, peek-IsPlace text len string a h)))
        (λ x.
          if-both (IsNext a) (peek a == b'\n')
            (λ y. IsPiece.blank (ground (arith, y, peek-IsPlace text len string a h)))
            (λ y.
              if-both (IsNext a) (peek a == b'-' && peek_next a == b'-')
                (λ z. line_comment-IsPiece fuel a f h (ground (arith, z)) (ground (arith, z)))
                (λ z.
                  if-both (IsNext a) (peek a == b'/' && peek_next a == b'*')
                    (λ w. block_comment-IsPiece fuel a f h (ground (arith, w)) (ground (arith, w)))
                    (λ w. tt))))

  pub skip_whitespace-IsGap :
      (inner fuel : ℕ) (a : Lexer)
      → len ≤ inner + a.current
      → IsPlace text len a
      → IsGap text len a.current (skip_whitespace inner fuel a).current
  unfolding skip_whitespace
  skip_whitespace-IsGap inner zero a f h = IsGap.done
  skip_whitespace-IsGap inner (suc fuel) a f h = elim (Option-cases (skip_one inner a)) [
    | inl x ↦ rw (x, skip_whitespace) IsGap.done
    | inr (b, x) ↦
        rw (x, skip_whitespace)
          (IsGap.more (subst (IsNext a) x (skip_one-IsNext inner a f h)) (
            rest b (subst (Skips text len string a) x (skip_one-Skips text len string inner a f h))
              (skip_whitespace-IsGap inner fuel b)))
  ]
    where
      rest :
          (b : Lexer)
          → Advances text len a b
          → (len ≤ inner + b.current
              → IsPlace text len b
              → IsGap text len b.current (skip_whitespace inner fuel b).current)
          → IsGap text len b.current (skip_whitespace inner fuel b).current
      rest b (m, l) again = again (omega (arith, f, l)) m.at

  -- Where it stops, no white space and no comment begins.
  pub skip_one-closed :
      (fuel : ℕ) (a : Lexer)
      → IsPlace text len a
      → skip_one fuel a ≡ none
      → opens_gap text a.current ≡ false
  unfolding skip_one
  skip_one-closed fuel a h x = elim (Bool-cases (peek a == 0)) [
    | inl z ↦ ground (arith, z, peek-IsPlace text len string a h)
    | inr z ↦ ground (
      arith,
      x,
      peek-IsPlace text len string a h,
      peek_next-IsPlace text len string a h (λ e. ground (arith, z, e)),
    )
  ]

  -- Where it stops, no blank or newline is next.
  pub skip_one-none : (fuel : ℕ) (a : Lexer) → skip_one fuel a ≡ none → peek a ≢ b'\n'
  unfolding skip_one
  skip_one-none fuel a h = ground (arith, h)
