-- ===== src/Tests/LexerTests.antt =====
-- The lexer of src/SQL_interpreter/lexer.c on concrete queries.
use stripe_sql.Prelude.{
  ℕ, zero, suc, ◌<◌, ◌≡◌, ◌≢◌, refl, Bool, true, not, ◌&&◌, ◌==◌, arith, List, [], ◌∷◌, length,
  get_or, Array, ◌++◌,
}
use stripe_sql.Storage.Bytes.{Buffer}
use stripe_sql.Sql.Token.{TokenType, Token, Start, codes}
use stripe_sql.Sql.Lexer.{
  Lexer, is_alpha, is_digit, letter, to_lower, is_at_end, peek, peek_next, advance, match,
  make_token, error_token, init_lexer, check_keyword, strncasecmp,
}
use stripe_sql.Sql.Lexer.Keywords.{identifier_type, after_s}
use stripe_sql.Sql.Lexer.Scan.{
  scan_token, scan_here, skip_whitespace, skip_one, identifier, made, run_while, in_word, in_digits,
  fraction, number, symbol, with_equal, advance_line,
}
use stripe_sql.Sql.Lexer.Words.{look_up, keywords}
use stripe_sql.Sql.Lexer.Table.{identifier_type-look_up}
use stripe_sql.Sql.Lexer.Grammar.{IsString, AreTokens}
use stripe_sql.Sql.Lexer.Query.{
  lex_query, lex_loop, is_eof, is_error, keep_token, grow_capacity, Tokenized, add_token,
  init_tokenized,
}
use stripe_sql.Sql.Lexer.Queried.{token_list, HasRoom, lex_query-AreTokens, add_token-appends}

abbrev buffer_of : List ℕ → Buffer
buffer_of s k = get_or s k 0

abbrev no_nul : List ℕ → Bool
no_nul [] = true
no_nul (c ∷ s) = not (c == 0) && no_nul s

buffer_of-ends : (s : List ℕ) → buffer_of s (length s) ≡ 0
buffer_of-ends [] = refl
buffer_of-ends (c ∷ s) = buffer_of-ends s

buffer_of-goes_on : (s : List ℕ) → no_nul s ≡ true → (k : ℕ) → k < length s → buffer_of s k ≢ 0
buffer_of-goes_on [] h k l e = absurd (omega (arith, l))
buffer_of-goes_on (c ∷ s) h zero l e = ground (arith, h, e)
buffer_of-goes_on (c ∷ s) h (suc k) l e =
    buffer_of-goes_on s (ground (arith, h)) k (omega (arith, l)) e

buffer_of-IsString : (s : List ℕ) → no_nul s ≡ true → IsString (buffer_of s) (length s)
buffer_of-IsString s h = record { ends = buffer_of-ends s; goes_on = buffer_of-goes_on s h }

abbrev query : List ℕ
query = codes "SELECT a -- x" ++ (10 ∷ codes "<= 1.5 'b' /* c */ ?;")

abbrev blank_token : Token
blank_token = record { type = TokenType.empty; start = Start.message []; length = 0; line = 0 }

abbrev memory : Array Token
memory i = blank_token

abbrev types : List Token → List TokenType
types [] = []
types (t ∷ ts) = t.type ∷ types ts

abbrev short_query : List ℕ
short_query = codes "Set?<=1"

short_query-types :
    types (token_list (lex_query 9 memory (buffer_of short_query)))
    ≡ TokenType.set ∷ TokenType.less_equal ∷ TokenType.number ∷ TokenType.eof ∷ []
unfolding lex_query lex_loop is_eof is_error keep_token grow_capacity add_token init_tokenized
    is_alpha is_digit letter to_lower is_at_end peek peek_next advance match make_token error_token
    init_lexer check_keyword strncasecmp identifier_type after_s scan_token scan_here
    skip_whitespace skip_one identifier made run_while in_word in_digits fraction number symbol
    with_equal advance_line
short_query-types = refl

lex_query-AreTokens_example :
    HasRoom (lex_query 40 memory (buffer_of query))
    × AreTokens
        (buffer_of query)
        (length query)
        0
        (token_list (lex_query 40 memory (buffer_of query)))
lex_query-AreTokens_example =
    lex_query-AreTokens 40 (length query) memory (buffer_of query) (buffer_of-IsString query refl)
      (omega arith)

abbrev at_word : Lexer
at_word = record { text = buffer_of (codes "SeT x"); start = 0; current = 3; line = 1 }

identifier_type-look_up_example : identifier_type at_word ≡ look_up at_word keywords
unfolding is_alpha
identifier_type-look_up_example = identifier_type-look_up at_word (omega arith) refl

at_word-type : look_up at_word keywords ≡ TokenType.set
unfolding letter to_lower
at_word-type = refl

abbrev full : Tokenized
full = record { tokens = memory; capacity = 2; count = 2 }

add_token-appends_example :
    (2 < (add_token full blank_token).capacity)
    × (token_list (add_token full blank_token) ≡ token_list full ++ (blank_token ∷ []))
add_token-appends_example = add_token-appends full blank_token (omega arith)
