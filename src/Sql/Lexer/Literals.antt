-- ===== src/Sql/Lexer/Literals.antt =====
-- Numbers and strings are read whole.
use stripe_sql.Prelude.{
  if-both, ℕ, ◌+◌, ◌≤◌, ◌≡◌, refl, sym, ap, ◌∙◌, true, false, not, ◌==◌, arith, Bool-cases, inl,
  inr, ◌&&◌, subst, ==_iff,
}
use stripe_sql.Storage.Bytes.{Buffer}
use stripe_sql.Sql.Token.{TokenType, codes}
use stripe_sql.Sql.Lexer.{Lexer, advance, peek, peek_next, is_at_end, error_token, is_digit}
use stripe_sql.Sql.Lexer.Scan.{
  advance_line, run_while, in_digits, in_string, made, number, fraction, string,
}
use stripe_sql.Sql.Lexer.Query.{is_error, is_eof}
use stripe_sql.Sql.Lexer.Grammar.{IsString, Span, IsLexeme, IsFault}
use stripe_sql.Sql.Lexer.Tokens.{Scans, made-Scans, Outcome}
use stripe_sql.Sql.Lexer.Moves.{
  IsPlace, Moves, GoesOn, advance-Moves, advance-GoesOn, advance_line-GoesOn, run_while-Moves,
  run_while-stops, run_while-forward, run_while-Span, peek-IsPlace, at_end, peek_next-IsPlace,
  advance_line-current,
}

module _ (text : Buffer) (len : ℕ) (closed : IsString text len) where
  in_digits-GoesOn : GoesOn text len closed in_digits advance
  unfolding in_digits is_digit
  in_digits-GoesOn =
      advance-GoesOn text len closed in_digits
        (λ a x. (λ n. ground (arith, n, x), λ n. ground (arith, n, x)))

  in_string-GoesOn : GoesOn text len closed in_string advance_line
  unfolding in_string is_at_end peek
  in_string-GoesOn = advance_line-GoesOn text len closed in_string (λ a x n. ground (arith, n, x))

  in_digits_here : (a : Lexer) → IsPlace text len a → in_digits a ≡ is_digit (text a.current)
  unfolding in_digits
  in_digits_here a h = ap is_digit (peek-IsPlace text len closed a h)

  -- The digits from where the lexer is.
  record Digits (a b : Lexer) : Type 0 where
    moves : Moves text len a b
    all : Span (λ k. is_digit (text k)) a.current b.current
    stop : is_digit (text b.current) ≡ false

  run_while-Digits :
      (fuel : ℕ) (a : Lexer)
      → len ≤ fuel + a.current
      → IsPlace text len a
      → Digits a (run_while in_digits advance fuel a)
  unfolding advance
  run_while-Digits fuel a f h = record {
    moves = m;
    all =
        run_while-Span text len closed in_digits advance in_digits-GoesOn (λ k. is_digit (text k))
          (λ c i x. sym (in_digits_here c i) ∙ x) (λ c. refl) fuel a h;
    stop =
        sym (in_digits_here (run_while in_digits advance fuel a) m.at)
        ∙ run_while-stops text len closed in_digits advance in_digits-GoesOn fuel a h f;
  }
    where
      m : Moves text len a (run_while in_digits advance fuel a)
      m = run_while-Moves text len closed in_digits advance in_digits-GoesOn fuel a h

  pub number-Scans :
      (fuel : ℕ) (a : Lexer)
      → len ≤ fuel + a.current
      → IsPlace text len a
      → a.current ≡ a.start + 1
      → is_digit (text a.start) ≡ true
      → Scans text len a.start (number fuel a)
  unfolding number fraction advance is_error is_eof
  number-Scans fuel a f h one first =
      if-both (λ c. Scans text len a.start (made c TokenType.number))
        (peek b == b'.' && is_digit (peek_next b)) decimal whole
    where
      b : Lexer
      b = run_while in_digits advance fuel a

      d : Digits a b
      d = run_while-Digits fuel a f h

      all : Span (λ k. is_digit (text k)) a.start b.current
      all k l u = elim (Bool-cases (k == a.start)) [
        | inl x ↦ subst (λ i. is_digit (text i) ≡ true) (sym ((==_iff k a.start).0 x)) first
        | inr x ↦ d.all k (ground (arith, x, l, one)) u
      ]

      no_fraction :
          (peek b == b'.' && is_digit (peek_next b)) ≡ false
          → (text b.current == b'.' && is_digit (text (b.current + 1))) ≡ false
      no_fraction x = elim (Bool-cases (peek b == b'.')) [
        | inl y ↦ ground (
          arith,
          x,
          y,
          sym (ap is_digit (peek_next-IsPlace text len closed b d.moves.at (ground (arith, y)))),
        )
        | inr y ↦ ground (arith, y, peek-IsPlace text len closed b d.moves.at)
      ]

      whole :
          (peek b == b'.' && is_digit (peek_next b)) ≡ false
          → Scans text len a.start (made b TokenType.number)
      whole x =
          made-Scans text len a.start b TokenType.number d.moves.at d.moves.same_start
            (omega (arith, one, d.moves.forward))
            (IsLexeme.whole_number (omega (arith, one, d.moves.forward)) all d.stop (no_fraction x))
            refl

      behind :
          (peek b == b'.' && is_digit (peek_next b)) ≡ true
          → IsPlace text len (advance b)
          → in_digits (advance b) ≡ true
      behind x i =
          in_digits_here (advance b) i
          ∙ (sym (ap is_digit (peek_next-IsPlace text len closed b d.moves.at (ground (arith, x))))
              ∙ ground (arith, x))

      decimal :
          (peek b == b'.' && is_digit (peek_next b)) ≡ true
          → Scans text len a.start
              (made (run_while in_digits advance fuel (advance b)) TokenType.number)
      decimal x =
          let m =
            advance-Moves text len closed b d.moves.at (ground (arith, x)) (ground (arith, x)) in
          let c = run_while in_digits advance fuel (advance b) in
          let e = run_while-Digits fuel (advance b) (omega (arith, f, d.moves.forward)) m.at in
          made-Scans text len a.start c TokenType.number e.moves.at
            (e.moves.same_start ∙ d.moves.same_start)
            (omega (arith, one, d.moves.forward, e.moves.forward))
            (IsLexeme.decimal_number (omega (arith, one, d.moves.forward))
              (run_while-forward text len closed in_digits advance in_digits-GoesOn fuel (advance b)
                m.at (behind x m.at) (omega (arith, f, d.moves.forward)))
              all (sym (peek-IsPlace text len closed b d.moves.at) ∙ ground (arith, x)) e.all
              e.stop)
            refl

  in_string_here :
      (a : Lexer) → IsPlace text len a → in_string a ≡ true → not (text a.current == b'\'') ≡ true
  unfolding in_string
  in_string_here a h x = ground (arith, x, peek-IsPlace text len closed a h)

  at_quote : (a : Lexer) → is_at_end a ≡ false → in_string a ≡ false → peek a ≡ b'\''
  unfolding in_string
  at_quote a x y = ground (arith, x, y)

  pub string-Scans :
      (fuel : ℕ) (a : Lexer)
      → len ≤ fuel + a.current
      → IsPlace text len a
      → a.current ≡ a.start + 1
      → text a.start ≡ b'\''
      → Scans text len a.start (string fuel a)
  unfolding string is_error is_eof error_token advance
  string-Scans fuel a f h one first = if-both (Scans text len a.start) (is_at_end b) unclosed ended
    where
      b : Lexer
      b = run_while in_string advance_line fuel a

      m : Moves text len a b
      m = run_while-Moves text len closed in_string advance_line in_string-GoesOn fuel a h

      stop : in_string b ≡ false
      stop = run_while-stops text len closed in_string advance_line in_string-GoesOn fuel a h f

      span : Span (λ k. not (text k == b'\'')) (a.start + 1) b.current
      span k l u =
          run_while-Span text len closed in_string advance_line in_string-GoesOn
            (λ k. not (text k == b'\'')) in_string_here (advance_line-current text len closed) fuel
            a h k (omega (arith, l, one)) u

      unclosed :
          is_at_end b ≡ true
          → Scans text len a.start
              (record { token = error_token b (codes "Unterminated string."); after = b })
      unclosed x =
          let e = at_end text len closed b m.at x in
          record {
            at = m.at;
            outcome =
                Outcome.wrong (omega (arith, one, m.forward))
                  (subst (IsFault text len a.start) (sym e)
                    (IsFault.unterminated first (λ k l u. span k l (omega (arith, u, e)))))
                  refl;
          }

      ended : is_at_end b ≡ false → Scans text len a.start (made (advance b) TokenType.string)
      ended x =
          let q = at_quote b x stop in
          let n = advance-Moves text len closed b m.at (ground (arith, q)) (ground (arith, q)) in
          made-Scans text len a.start (advance b) TokenType.string n.at
            (n.same_start ∙ m.same_start) (omega (arith, one, m.forward, n.forward))
            (IsLexeme.quoted (omega (arith, one, m.forward)) first span
              (sym (peek-IsPlace text len closed b m.at) ∙ q))
            refl
