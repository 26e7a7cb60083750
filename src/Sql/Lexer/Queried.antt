-- ===== src/Sql/Lexer/Queried.antt =====
-- `lexQuery` as a whole: the tokens it stores are those of the source, in a table that has room.
use mathlib.Core.List.{append_assoc}
use stripe_sql.Prelude.{slice-put}
use stripe_sql.Prelude.{
  ℕ, zero, suc, ◌+◌, ◌<◌, ◌≤◌, ◌≡◌, refl, sym, ap, ◌∙◌, true, false, arith, subst, List, [], ◌∷◌,
  ◌++◌, Array, slice,
}
use stripe_sql.Storage.Bytes.{Buffer}
use stripe_sql.Sql.Token.{TokenType, Token}
use stripe_sql.Sql.Lexer.{Lexer, init_lexer}
use stripe_sql.Sql.Lexer.Scan.{Scanned, scan_token, skip_whitespace}
use stripe_sql.Sql.Lexer.Query.{
  Tokenized, init_tokenized, grow_capacity, add_token, keep_token, is_error, is_eof, lex_loop,
  lex_query,
}
use stripe_sql.Sql.Lexer.Grammar.{IsString, AreTokens, IsGap, IsToken, IsFault, opens_gap}
use stripe_sql.Sql.Lexer.Moves.{IsPlace}
use stripe_sql.Sql.Lexer.Skip.{skip_whitespace-Moves, skip_whitespace-stops}
use stripe_sql.Sql.Lexer.Gaps.{skip_whitespace-IsGap, skip_one-closed}
use stripe_sql.Sql.Lexer.Tokens.{Scans, Outcome}
use stripe_sql.Sql.Lexer.Symbols.{scan_token-Scans}

abbrev pub token_list : Tokenized → List Token
token_list t = slice t.tokens 0 t.count

abbrev pub HasRoom : Tokenized → Type 0
HasRoom t = t.count ≤ t.capacity

add_token-HasRoom : (t : Tokenized) (tok : Token) → HasRoom t → HasRoom (add_token t tok)
unfolding add_token grow_capacity
add_token-HasRoom t tok h = ground (arith, h)

-- Adding a token grows the table where it is full, so that the token is written within it, and appends the token to those that are there.
pub add_token-appends :
    (t : Tokenized) (tok : Token)
    → HasRoom t
    → (t.count < (add_token t tok).capacity)
      × (token_list (add_token t tok) ≡ token_list t ++ (tok ∷ []))
unfolding add_token
add_token-appends t tok h =
    (omega (arith, add_token-HasRoom t tok h), slice-put t.tokens t.count tok)

lex_loop-last :
    (inner fuel : ℕ) (a : Lexer) (t : Tokenized)
    → is_eof (scan_token inner a).token.type ≡ true
    → lex_loop inner (suc fuel) a t ≡ keep_token t (scan_token inner a).token
unfolding lex_loop
lex_loop-last inner fuel a t x = rw x refl

lex_loop-on :
    (inner fuel : ℕ) (a : Lexer) (t : Tokenized)
    → is_eof (scan_token inner a).token.type ≡ false
    → lex_loop inner (suc fuel) a t
      ≡ lex_loop inner fuel (scan_token inner a).after (keep_token t (scan_token inner a).token)
unfolding lex_loop
lex_loop-on inner fuel a t x = rw x refl

keep_token-kept :
    (t : Tokenized) (tok : Token) → is_error tok.type ≡ false → keep_token t tok ≡ add_token t tok
unfolding keep_token
keep_token-kept t tok x = rw x refl

keep_token-dropped : (t : Tokenized) (tok : Token) → is_error tok.type ≡ true → keep_token t tok ≡ t
unfolding keep_token
keep_token-dropped t tok x = rw x refl

error_not_eof : (type : TokenType) → is_error type ≡ true → is_eof type ≡ false
unfolding is_error is_eof
error_not_eof TokenType.eof h = ground (arith, h)
error_not_eof _ h = refl

eof_is : {type : TokenType} → type ≡ TokenType.eof → is_eof type ≡ true
unfolding is_eof
eof_is e = ap is_eof e

eof_kept : {type : TokenType} → type ≡ TokenType.eof → is_error type ≡ false
unfolding is_error
eof_kept e = ap is_error e

module _ (text : Buffer) (len : ℕ) where
  -- The loop adds the tokens of the rest of the source.
  abbrev Adds : Tokenized → Tokenized → ℕ → Type 0
  Adds t u n =
      HasRoom u × (ts : List Token) × (token_list u ≡ token_list t ++ ts) × AreTokens text len n ts

  Adds-token :
      {n k m : ℕ} (t u : Tokenized) (tok : Token)
      → HasRoom t
      → IsGap text len n k
      → opens_gap text k ≡ false
      → k < m
      → IsToken text k m tok
      → Adds (add_token t tok) u m
      → Adds t u n
  Adds-token t u tok r g o l k (room, ts, e, as_read) = (
    room,
    tok ∷ ts,
    e
        ∙ (ap (λ l. l ++ ts) (add_token-appends t tok r).1
            ∙ append_assoc (token_list t) (tok ∷ []) ts),
    AreTokens.token g o l k as_read,
  )

  skips_fault :
      {n k m : ℕ} (t u : Tokenized)
      → IsGap text len n k
      → opens_gap text k ≡ false
      → k < m
      → IsFault text len k m
      → Adds t u m
      → Adds t u n
  skips_fault t u g o l k (room, ts, e, as_read) = (room, ts, e, AreTokens.fault g o l k as_read)

  Adds-last :
      {n : ℕ} (t : Tokenized) (tok : Token)
      → HasRoom t
      → IsGap text len n len
      → IsToken text len len tok
      → tok.type ≡ TokenType.eof
      → Adds t (add_token t tok) n
  Adds-last t tok r g k e =
      (add_token-HasRoom t tok r, tok ∷ [], (add_token-appends t tok r).1, AreTokens.last g k e)

  module _ (closed : IsString text len) where
    lex_loop-Adds :
        (inner fuel : ℕ) (a : Lexer) (t : Tokenized)
        → len ≤ inner + a.current
        → len < fuel + a.current
        → IsPlace text len a
        → HasRoom t
        → Adds t (lex_loop inner fuel a t) a.current
    lex_loop-Adds inner zero a t f g h r = absurd (omega (arith, g, h.within))
    lex_loop-Adds inner (suc fuel) a t f g h r =
        by_outcome here.outcome (lex_loop-Adds inner fuel s.after)
      where
        s : Scanned
        s = scan_token inner a

        n : ℕ
        n = (skip_whitespace inner inner a).current

        here : Scans text len n s
        here = scan_token-Scans text len closed inner a f h

        gap : IsGap text len a.current n
        gap = skip_whitespace-IsGap text len closed inner inner a f h

        closed_here : opens_gap text n ≡ false
        closed_here =
            skip_one-closed text len closed inner (skip_whitespace inner inner a)
              (skip_whitespace-Moves text len closed inner inner a f h).at
              (skip_whitespace-stops text len closed inner inner a f f h)

        forward : a.current ≤ n
        forward = (skip_whitespace-Moves text len closed inner inner a f h).forward

        Again : Type 0
        Again =
            (u : Tokenized)
            → len ≤ inner + s.after.current
            → len < fuel + s.after.current
            → IsPlace text len s.after
            → HasRoom u
            → Adds u (lex_loop inner fuel s.after u) s.after.current

        by_outcome : Outcome text len n s → Again → Adds t (lex_loop inner (suc fuel) a t) a.current
        by_outcome (Outcome.finished e k i) again =
            subst (λ u. Adds t u a.current)
              (sym
                (lex_loop-last inner fuel a t (eof_is i) ∙ keep_token-kept t s.token (eof_kept i)))
              (Adds-last t s.token r (subst (IsGap text len a.current) e gap) k i)
        by_outcome (Outcome.read l k p) again =
            subst (λ u. Adds t u a.current)
              (sym (
                lex_loop-on inner fuel a t (ground (arith, p))
                ∙ ap (lex_loop inner fuel s.after) (keep_token-kept t s.token (ground (arith, p)))))
              (Adds-token t (lex_loop inner fuel s.after (add_token t s.token)) s.token r gap
                closed_here l k
                (again (add_token t s.token) (omega (arith, f, forward, l))
                  (omega (arith, g, forward, l)) here.at (add_token-HasRoom t s.token r)))
        by_outcome (Outcome.wrong l k p) again =
            subst (λ u. Adds t u a.current)
              (sym (
                lex_loop-on inner fuel a t (error_not_eof s.token.type p)
                ∙ ap (lex_loop inner fuel s.after) (keep_token-dropped t s.token p)))
              (skips_fault t (lex_loop inner fuel s.after t) gap closed_here l k
                (again t (omega (arith, f, forward, l)) (omega (arith, g, forward, l)) here.at r))

-- lexQuery splits a source of `len` bytes into white space, comments, tokens and faults, up to its
-- end, where a token or a fault begins only where no white space and no comment does, and stores the
-- tokens in their order, the last of them TOKEN_EOF: each has the type of its bytes, their place and
-- the line in which it ends. The stored tokens are within the capacity of their table. More fuel than
-- bytes is enough.
pub lex_query-AreTokens :
    (fuel len : ℕ) (memory : Array Token) (source : Buffer)
    → IsString source len
    → len < fuel
    → HasRoom (lex_query fuel memory source)
      × AreTokens source len 0 (token_list (lex_query fuel memory source))
unfolding lex_query init_lexer init_tokenized
lex_query-AreTokens fuel len memory source closed f =
    let (room, ts, e, tokens) =
      lex_loop-Adds source len closed fuel fuel (init_lexer source) (init_tokenized memory)
        (omega (arith, f)) (omega (arith, f))
        (record { reads = refl; within = omega arith; counts = refl }) (omega arith) in
    (room, subst (AreTokens source len 0) (sym e) tokens)
