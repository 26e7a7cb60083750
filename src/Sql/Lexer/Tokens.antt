-- ===== src/Sql/Lexer/Tokens.antt =====
-- What one call of `scanToken` reads from where a token begins.
use stripe_sql.Prelude.{
  if-both, ℕ, ◌+◌, ◌-◌, ◌<◌, ◌≤◌, ◌≡◌, refl, sym, ap, ◌∙◌, Bool, true, false, not, arith, ◌&&◌,
  subst, List, [], ◌∷◌,
}
use stripe_sql.Storage.Bytes.{Buffer}
use stripe_sql.Sql.Token.{TokenType, Start}
use stripe_sql.Sql.Lexer.{Lexer, advance, make_token, is_alpha, is_digit}
use stripe_sql.Sql.Lexer.Keywords.{identifier_type}
use stripe_sql.Sql.Lexer.Words.{look_up, keywords, Keyword, spells}
use stripe_sql.Sql.Lexer.Table.{identifier_type-look_up}
use stripe_sql.Sql.Lexer.Scan.{run_while, in_word, made, Scanned, identifier}
use stripe_sql.Sql.Lexer.Query.{is_error, is_eof}
use stripe_sql.Sql.Lexer.Grammar.{IsString, Span, is_word, IsLexeme, IsFault, IsToken}
use stripe_sql.Sql.Lexer.Moves.{
  IsPlace, Moves, GoesOn, advance-GoesOn, run_while-Moves, run_while-stops, run_while-Span,
  peek-IsPlace,
}

abbrev pub is_plain : TokenType → Bool
is_plain t = not (is_error t) && not (is_eof t)

abbrev all_plain : List Keyword → Bool
all_plain [] = true
all_plain (k ∷ ks) = is_plain k.type && all_plain ks

look_up-plain :
    (lex : Lexer) (ks : List Keyword) → all_plain ks ≡ true → is_plain (look_up lex ks) ≡ true
unfolding is_error is_eof
look_up-plain lex [] h = refl
look_up-plain lex (k ∷ ks) h =
    if-both (λ t. is_plain t ≡ true) (spells lex k.word) (λ x. ground (arith, h))
      (λ x. look_up-plain lex ks (ground (arith, h)))

module _ (text : Buffer) (len : ℕ) where
  -- What a scan from `n` can come to.
  pub data Outcome (n : ℕ) (s : Scanned) : Type 0 where
    finished : n ≡ len → IsToken text len len s.token → s.token.type ≡ TokenType.eof → Outcome n s
    read :
        n < s.after.current
        → IsToken text n s.after.current s.token
        → is_plain s.token.type ≡ true
        → Outcome n s
    wrong :
        n < s.after.current
        → IsFault text len n s.after.current
        → is_error s.token.type ≡ true
        → Outcome n s

  pub record Scans (n : ℕ) (s : Scanned) : Type 0 where
    pub at : IsPlace text len s.after
    pub outcome : Outcome n s

  -- A token up to where the lexer is.
  pub made-Scans :
      (n : ℕ) (lex : Lexer) (type : TokenType)
      → IsPlace text len lex
      → lex.start ≡ n
      → n < lex.current
      → IsLexeme text n lex.current type
      → is_plain type ≡ true
      → Scans n (made lex type)
  unfolding made make_token
  made-Scans n lex type h s l x p = record {
    at = h;
    outcome =
        read l
          (record {
            lexeme = x;
            from = ap Start.source s;
            size = ap (λ k. lex.current - k) s;
            line = h.counts;
          })
          p;
  }

  module _ (closed : IsString text len) where
    in_word-GoesOn : GoesOn text len closed in_word advance
    unfolding in_word is_alpha is_digit
    in_word-GoesOn =
        advance-GoesOn text len closed in_word
          (λ a x. (λ n. ground (arith, n, x), λ n. ground (arith, n, x)))

    in_word_here : (a : Lexer) → IsPlace text len a → in_word a ≡ is_word (text a.current)
    unfolding in_word
    in_word_here a h = ap is_word (peek-IsPlace text len closed a h)

    pub identifier-Scans :
        (fuel : ℕ) (a : Lexer)
        → len ≤ fuel + a.current
        → IsPlace text len a
        → a.current ≡ a.start + 1
        → is_alpha (text a.start) ≡ true
        → Scans a.start (identifier fuel a)
    unfolding identifier is_error is_eof advance
    identifier-Scans fuel a f h one first =
        made-Scans a.start b (identifier_type b) m.at m.same_start later
          (subst (λ k. IsLexeme text k b.current (identifier_type b)) m.same_start lexeme)
          (subst (λ t. is_plain t ≡ true) (sym type) (look_up-plain b keywords refl))
      where
        b : Lexer
        b = run_while in_word advance fuel a

        m : Moves text len a b
        m = run_while-Moves text len closed in_word advance in_word-GoesOn fuel a h

        stop : is_word (text b.current) ≡ false
        stop =
            sym (in_word_here b m.at)
            ∙ run_while-stops text len closed in_word advance in_word-GoesOn fuel a h f

        span : Span (λ k. is_word (text k)) (b.start + 1) b.current
        span k l u =
            run_while-Span text len closed in_word advance in_word-GoesOn (λ k. is_word (text k))
              (λ c i x. sym (in_word_here c i) ∙ x) (λ c. refl) fuel a h k
              (omega (arith, l, one, m.same_start)) u

        later : a.start < b.current
        later = omega (arith, one, m.forward)

        type : identifier_type b ≡ look_up b keywords
        type =
            identifier_type-look_up b (omega (arith, later, m.same_start))
              (ap (λ t. is_alpha (t b.current)) m.at.reads ∙ ground (arith, stop))

        lexeme : IsLexeme text b.start b.current (identifier_type b)
        lexeme =
            IsLexeme.word b m.at.reads (ap (λ k. is_alpha (text k)) m.same_start ∙ first) span stop
              type
