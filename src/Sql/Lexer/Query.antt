-- ===== src/Sql/Lexer/Query.antt =====
-- The array of tokens and `lexQuery` of src/SQL_interpreter/lexer.c. What a call of malloc or
-- realloc leaves in cells that were not written is an argument.
use stripe_sql.Prelude.{ℕ, zero, suc, ◌+◌, ◌*◌, Bool, true, false, Array, put, ltb, if◌then◌else◌}
use stripe_sql.Storage.Bytes.{Buffer}
use stripe_sql.Sql.Token.{TokenType, Token}
use stripe_sql.Sql.Lexer.{Lexer, init_lexer}
use stripe_sql.Sql.Lexer.Scan.{scan_token}

pub record Tokenized : Type 0 where
  pub tokens : Array Token
  pub capacity : ℕ
  pub count : ℕ

abbrev pub initial_token_count : ℕ
initial_token_count = 128

unfoldable pub init_tokenized : Array Token → Tokenized
init_tokenized memory = record { tokens = memory; capacity = initial_token_count; count = 0 }

unfoldable pub grow_capacity : ℕ → ℕ
grow_capacity c = if ltb c 8 then 8 else c * 2

unfoldable pub add_token : Tokenized → Token → Tokenized
add_token t tok = record {
  tokens = put t.tokens t.count tok;
  capacity = if ltb t.capacity (t.count + 1) then grow_capacity t.capacity else t.capacity;
  count = t.count + 1;
}

unfoldable pub is_error : TokenType → Bool
is_error TokenType.error = true
is_error _ = false

unfoldable pub is_eof : TokenType → Bool
is_eof TokenType.eof = true
is_eof _ = false

-- The body of the loop: an error is printed, any other token kept.
unfoldable pub keep_token : Tokenized → Token → Tokenized
keep_token t tok = if is_error tok.type then t else add_token t tok

unfoldable pub lex_loop : ℕ → ℕ → Lexer → Tokenized → Tokenized
lex_loop inner zero lex t = t
lex_loop inner (suc fuel) lex t =
    let s = scan_token inner lex in
    let kept = keep_token t s.token in
    let rest = lex_loop inner fuel s.after kept in if is_eof s.token.type then kept else rest

unfoldable pub lex_query : ℕ → Array Token → Buffer → Tokenized
lex_query fuel memory source = lex_loop fuel fuel (init_lexer source) (init_tokenized memory)
