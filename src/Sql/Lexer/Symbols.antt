-- ===== src/Sql/Lexer/Symbols.antt =====
-- Symbols, and what one call of `scanToken` comes to.
use stripe_sql.Prelude.{
  if-both, ℕ, ◌+◌, ◌<◌, ◌≤◌, ◌≡◌, ◌≢◌, refl, sym, ap, ◌∙◌, true, false, ◌==◌, arith, Bool-cases,
  inl, inr, none, some, subst,
}
use stripe_sql.Storage.Bytes.{Buffer}
use stripe_sql.Sql.Token.{TokenType, Start}
use stripe_sql.Sql.Lexer.{
  Lexer, advance, peek, is_at_end, make_token, error_token, is_alpha, is_digit, match,
}
use stripe_sql.Sql.Lexer.Scan.{
  made, Scanned, with_equal, symbol, scan_here, scan_token, skip_whitespace,
}
use stripe_sql.Sql.Lexer.Query.{is_error, is_eof}
use stripe_sql.Sql.Lexer.Grammar.{
  IsString, is_word, IsLexeme, IsSymbol, IsComparison, IsFault, newlines,
}
use stripe_sql.Sql.Lexer.Tokens.{Scans, made-Scans, Outcome, identifier-Scans, is_plain}
use stripe_sql.Sql.Lexer.Switch.{
  symbol-cases, unexpected_symbol, IsSymbol-plain, IsComparison-plain,
}
use stripe_sql.Sql.Lexer.Literals.{number-Scans, string-Scans}
use stripe_sql.Sql.Lexer.Skip.{skip_whitespace-Moves, skip_whitespace-stops}
use stripe_sql.Sql.Lexer.Gaps.{skip_one-none}
use stripe_sql.Sql.Lexer.Moves.{IsPlace, advance-Moves, peek-IsPlace, at_end}

module _ (text : Buffer) (len : ℕ) (closed : IsString text len) where
  -- The lexer has passed the first byte of a token.
  record Behind (a : Lexer) : Type 0 where
    at : IsPlace text len a
    one : a.current ≡ a.start + 1

  symbol_made :
      (a : Lexer) (type : TokenType)
      → Behind a
      → IsSymbol (text a.start) type
      → is_plain type ≡ true
      → Scans text len a.start (made a type)
  symbol_made a type h x p =
      made-Scans text len a.start a type h.at refl (omega (arith, h.one))
        (subst (λ k. IsLexeme text a.start k type) (sym h.one) (IsLexeme.symbol x)) p

  match-hit : (a : Lexer) (c : ℕ) → 0 < c → (peek a == c) ≡ true → match a c ≡ some (advance a)
  unfolding match is_at_end peek
  match-hit a c p x = ground (arith, p, x)

  match-miss : (a : Lexer) (c : ℕ) → (peek a == c) ≡ false → match a c ≡ none
  unfolding match
  match-miss a c x = ground (arith, x)

  behind : (a : Lexer) → Behind a → peek a ≡ text (a.start + 1)
  behind a h = peek-IsPlace text len closed a h.at ∙ ap text h.one

  with_equal-Scans :
      (a : Lexer) (type longer : TokenType)
      → Behind a
      → IsComparison (text a.start) type longer
      → is_plain type ≡ true
      → is_plain longer ≡ true
      → Scans text len a.start (with_equal a longer type)
  unfolding with_equal advance
  with_equal-Scans a type longer h x p q = elim (Bool-cases (peek a == b'=')) [
    | inl y ↦
        let n = advance-Moves text len closed a h.at (ground (arith, y)) (ground (arith, y)) in
        rw (match-hit a b'=' (omega arith) y, with_equal)
          (made-Scans text len a.start (advance a) longer n.at refl (omega (arith, h.one))
            (subst (λ k. IsLexeme text a.start k longer) (place h.one)
              (IsLexeme.with_equal x (sym (behind a h) ∙ ground (arith, y))))
            q)
    | inr y ↦
        rw (match-miss a b'=' y, with_equal)
          (made-Scans text len a.start a type h.at refl (omega (arith, h.one))
            (subst (λ k. IsLexeme text a.start k type) (sym h.one)
              (IsLexeme.comparison x (λ e. ground (arith, y, behind a h, e))))
            p)
  ]
    where
      place : a.current ≡ a.start + 1 → a.start + 2 ≡ a.current + 1
      place e = omega (arith, e)

  unexpected_byte :
      (a : Lexer)
      → Behind a
      → is_word (text a.start) ≡ false
      → ((type : TokenType) → ¬ IsSymbol (text a.start) type)
      → ((type longer : TokenType) → ¬ IsComparison (text a.start) type longer)
      → (text a.start == b'\'') ≡ false
      → Scans text len a.start (unexpected_symbol a)
  unfolding error_token is_error
  unexpected_byte a h w l c q = record {
    at = h.at;
    outcome =
        Outcome.wrong (omega (arith, h.one))
          (subst (IsFault text len a.start) (sym h.one)
            (IsFault.unexpected w l c (λ e. ground (arith, q, e))))
          refl;
  }

  symbol-Scans :
      (fuel : ℕ) (a : Lexer)
      → len ≤ fuel + a.current
      → Behind a
      → is_word (text a.start) ≡ false
      → Scans text len a.start (symbol fuel a (text a.start))
  symbol-Scans fuel a f h w =
      symbol-cases (Scans text len a.start) fuel a (text a.start)
        (λ type s. symbol_made a type h s (IsSymbol-plain s))
        (λ type longer s.
          let (p, q) = IsComparison-plain s in with_equal-Scans a type longer h s p q)
        (λ e. string-Scans text len closed fuel a f h.at h.one e)
        (λ l c q. unexpected_byte a h w l c q)

  -- Where the token begins.
  record Ready (a : Lexer) : Type 0 where
    at : IsPlace text len a
    here : a.start ≡ a.current

  past_first : (a : Lexer) → Ready a → peek a ≢ 0 → peek a ≢ b'\n' → Behind (advance a)
  unfolding advance
  past_first a h n l = record {
    at = (advance-Moves text len closed a h.at n l).at;
    one = omega (arith, h.here);
  }

  not_end : (a : Lexer) → is_at_end a ≡ false → peek a ≢ 0
  unfolding is_at_end peek
  not_end a x e = ground (arith, x, e)

  first_byte : (a : Lexer) → Ready a → peek a ≡ text a.start
  first_byte a h = peek-IsPlace text len closed a h.at ∙ ap text (sym h.here)

  scan_here-Scans :
      (fuel : ℕ) (a : Lexer)
      → len ≤ fuel + a.current
      → Ready a
      → peek a ≢ b'\n'
      → Scans text len a.start (scan_here fuel a)
  unfolding scan_here advance is_eof is_error made make_token
  scan_here-Scans fuel a f h n = if-both P (is_at_end a) finish (λ x.
      if-both P (is_alpha (peek a))
        (λ y.
          identifier-Scans text len closed fuel (advance a) more (next x).at (next x).one
            (sym (ap is_alpha (first_byte a h)) ∙ y))
        (λ y.
          if-both P (is_digit (peek a))
            (λ z.
              number-Scans text len closed fuel (advance a) more (next x).at (next x).one
                (sym (ap is_digit (first_byte a h)) ∙ z))
            (λ z.
              subst (λ c. P (symbol fuel (advance a) c)) (sym (first_byte a h))
                (symbol-Scans fuel (advance a) more (next x)
                  (sym (ap is_word (first_byte a h)) ∙ ground (arith, y, z))))))
    where
      P : Scanned → Type 0
      P = Scans text len a.start

      more : len ≤ fuel + (a.current + 1)
      more = omega (arith, f)

      next : is_at_end a ≡ false → Behind (advance a)
      next x = past_first a h (not_end a x) n

      finish : is_at_end a ≡ true → Scans text len a.start (made a TokenType.eof)
      finish x =
          let e = at_end text len closed a h.at x in
          record {
            at = h.at;
            outcome =
                Outcome.finished (h.here ∙ e)
                  (record {
                    lexeme = IsLexeme.end_of_source closed.ends;
                    from = ap Start.source (h.here ∙ e);
                    size = omega (arith, h.here, e);
                    line = h.at.counts ∙ ap (λ k. 1 + newlines text k) e;
                  })
                  refl;
          }

  pub scan_token-Scans :
      (fuel : ℕ) (a : Lexer)
      → len ≤ fuel + a.current
      → IsPlace text len a
      → Scans text len (skip_whitespace fuel fuel a).current (scan_token fuel a)
  unfolding scan_token peek
  scan_token-Scans fuel a f h =
      let b = skip_whitespace fuel fuel a in
      let m = skip_whitespace-Moves text len closed fuel fuel a f h in
      scan_here-Scans fuel (record b { start = b.current }) (omega (arith, f, m.forward))
        (record {
          at = record { reads = m.at.reads; within = m.at.within; counts = m.at.counts };
          here = refl;
        })
        (skip_one-none text len closed fuel b
          (skip_whitespace-stops text len closed fuel fuel a f f h))
