-- ===== src/Sql/Lexer/Skip.antt =====
-- `skipWhitespace`: it stays within the source, counts the lines, and ends where no blank, newline or
-- comment begins.
use stripe_sql.Prelude.{
  if-both, ℕ, zero, suc, ◌+◌, ◌≤◌, ◌≡◌, refl, true, false, ◌==◌, arith, Bool-cases, inl, inr, ◌&&◌,
  ◌||◌, Option, none, some, Option-cases, subst,
}
use stripe_sql.Storage.Bytes.{Buffer}
use stripe_sql.Sql.Lexer.{Lexer, advance, peek, peek_next, is_at_end}
use stripe_sql.Sql.Lexer.Scan.{
  advance_line, run_while, in_line, in_comment, close_comment, skip_one, skip_whitespace,
}
use stripe_sql.Sql.Lexer.Grammar.{IsString}
use stripe_sql.Sql.Lexer.Moves.{
  IsPlace, Moves, Moves-trans, Moves-refl, Advances, advance_line-Moves, run_while-forward,
  advance-Moves, advance_two-Moves, advance-GoesOn, advance_line-GoesOn, run_while-Moves,
  run_while-stops, GoesOn,
}

module _ (text : Buffer) (len : ℕ) (string : IsString text len) where
  pub in_line-GoesOn : GoesOn text len string in_line advance
  unfolding in_line is_at_end peek
  in_line-GoesOn =
      advance-GoesOn text len string in_line
        (λ a x. (λ n. ground (arith, n, x), λ n. ground (arith, n, x)))

  pub in_comment-GoesOn : GoesOn text len string in_comment advance_line
  unfolding in_comment is_at_end peek
  in_comment-GoesOn = advance_line-GoesOn text len string in_comment (λ a x n. ground (arith, n, x))

  close_comment-Moves :
      (a : Lexer) → IsPlace text len a → in_comment a ≡ false → Moves text len a (close_comment a)
  unfolding close_comment in_comment
  close_comment-Moves a h x = elim (Bool-cases (is_at_end a)) [
    | inl y ↦ rw y (Moves-refl text len a h)
    | inr y ↦ rw y (
        advance_two-Moves text len string a h (ground (arith, x, y)) (ground (arith, x, y))
          (ground (arith, x, y)) (ground (arith, x, y)))
  ]

  abbrev pub Skips : Lexer → Option Lexer → Type 0
  Skips a none = Unit
  Skips a (some b) = Advances text len a b

  newline-Moves :
      (a : Lexer)
      → IsPlace text len a
      → peek a == b'\n' ≡ true
      → Moves text len a (advance (record a { line = a.line + 1 }))
  unfolding advance_line advance
  newline-Moves a h x =
      subst (Moves text len a) (same x) (advance_line-Moves text len string a h (ground (arith, x)))
    where
      same : peek a == b'\n' ≡ true → advance_line a ≡ advance (record a { line = a.line + 1 })
      same x = rw x refl

  pub line_comment :
      (fuel : ℕ) (a : Lexer)
      → len ≤ fuel + a.current
      → IsPlace text len a
      → peek a ≡ b'-'
      → Advances text len a (run_while in_line advance fuel a)
  unfolding in_line is_at_end peek
  line_comment fuel a f h e = (
    run_while-Moves text len string in_line advance in_line-GoesOn fuel a h,
    run_while-forward text len string in_line advance in_line-GoesOn fuel a h (ground (arith, e)) f,
  )

  pub block_comment :
      (fuel : ℕ) (a : Lexer)
      → len ≤ fuel + a.current
      → IsPlace text len a
      → peek a ≡ b'/'
      → peek_next a ≡ b'*'
      → Advances text len a
          (close_comment (run_while in_comment advance_line fuel (advance (advance a))))
  unfolding advance
  block_comment fuel a f h e n =
      let two =
        advance_two-Moves text len string a h (ground (arith, e)) (ground (arith, e))
          (ground (arith, n)) (ground (arith, n)) in
      let c = advance (advance a) in
      let d = run_while in_comment advance_line fuel c in
      let inside =
        run_while-Moves text len string in_comment advance_line in_comment-GoesOn fuel c two.at in
      let stop =
        run_while-stops text len string in_comment advance_line in_comment-GoesOn fuel c two.at
          (omega (arith, f)) in
      let rest = close_comment-Moves d inside.at stop in
      (
        Moves-trans text len a c (close_comment d) two
            (Moves-trans text len c d (close_comment d) inside rest),
        omega (arith, inside.forward, rest.forward),
      )

  pub skip_one-Skips :
      (fuel : ℕ) (a : Lexer)
      → len ≤ fuel + a.current
      → IsPlace text len a
      → Skips a (skip_one fuel a)
  unfolding skip_one advance
  skip_one-Skips fuel a f h =
      if-both (Skips a) (peek a == b' ' || peek a == b'\r' || peek a == b'\t')
        (λ x.
          (advance-Moves text len string a h (ground (arith, x)) (ground (arith, x)), omega arith))
        (λ x.
          if-both (Skips a) (peek a == b'\n') (λ y. (newline-Moves a h y, omega arith))
            (λ y.
              if-both (Skips a) (peek a == b'-' && peek_next a == b'-')
                (λ z. line_comment fuel a f h (ground (arith, z)))
                (λ z.
                  if-both (Skips a) (peek a == b'/' && peek_next a == b'*')
                    (λ w. block_comment fuel a f h (ground (arith, w)) (ground (arith, w)))
                    (λ w. tt))))

  pub skip_whitespace-Moves :
      (inner fuel : ℕ) (a : Lexer)
      → len ≤ inner + a.current
      → IsPlace text len a
      → Moves text len a (skip_whitespace inner fuel a)
  unfolding skip_whitespace
  skip_whitespace-Moves inner zero a f h = Moves-refl text len a h
  skip_whitespace-Moves inner (suc fuel) a f h = elim (Option-cases (skip_one inner a)) [
    | inl x ↦ rw (x, skip_whitespace) (Moves-refl text len a h)
    | inr (b, x) ↦
        rw (x, skip_whitespace)
          (further b (subst (Skips a) x (skip_one-Skips inner a f h))
            (skip_whitespace-Moves inner fuel b))
  ]
    where
      further :
          (b : Lexer)
          → Advances text len a b
          → (len ≤ inner + b.current
              → IsPlace text len b
              → Moves text len b (skip_whitespace inner fuel b))
          → Moves text len a (skip_whitespace inner fuel b)
      further b (m, l) again =
          Moves-trans text len a b (skip_whitespace inner fuel b) m
            (again (omega (arith, f, l)) m.at)

  pub skip_whitespace-stops :
      (inner fuel : ℕ) (a : Lexer)
      → len ≤ inner + a.current
      → len ≤ fuel + a.current
      → IsPlace text len a
      → skip_one inner (skip_whitespace inner fuel a) ≡ none
  unfolding skip_whitespace
  skip_whitespace-stops inner zero a f g h = elim (Option-cases (skip_one inner a)) [
    | inl x ↦ x
    | inr (b, x) ↦
        let (m, l) = subst (Skips a) x (skip_one-Skips inner a f h) in
        absurd (omega (arith, m.at.within, l, g))
  ]
  skip_whitespace-stops inner (suc fuel) a f g h = elim (Option-cases (skip_one inner a)) [
    | inl x ↦ rw (x, skip_whitespace) x
    | inr (b, x) ↦
        let (m, l) = subst (Skips a) x (skip_one-Skips inner a f h) in
        rw (x, skip_whitespace)
          (skip_whitespace-stops inner fuel b (omega (arith, f, l)) (omega (arith, g, l)) m.at)
  ]
