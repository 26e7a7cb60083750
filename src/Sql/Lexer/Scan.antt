-- ===== src/Sql/Lexer/Scan.antt =====
-- The scanning functions of src/SQL_interpreter/lexer.c: white space and comments, words, numbers
-- and strings. Every loop runs on fuel, of which the length of the source is enough.
use stripe_sql.Prelude.{
  ℕ, zero, suc, ◌+◌, Bool, not, ◌&&◌, ◌||◌, [], ◌==◌, if◌then◌else◌, Option, none, some,
}
use stripe_sql.Sql.Token.{TokenType, Token, codes}
use stripe_sql.Sql.Lexer.{
  Lexer, is_alpha, is_digit, peek, peek_next, is_at_end, advance, match, make_token, error_token,
}
use stripe_sql.Sql.Lexer.Keywords.{identifier_type}

unfoldable pub run_while : (Lexer → Bool) → (Lexer → Lexer) → ℕ → Lexer → Lexer
run_while test body zero lex = lex
run_while test body (suc fuel) lex =
    let rest = run_while test body fuel (body lex) in if test lex then rest else lex

-- `if (peek() == '\n') lex.line++; advance();`
unfoldable pub advance_line : Lexer → Lexer
advance_line lex = advance (if peek lex == b'\n' then record lex { line = lex.line + 1 } else lex)

unfoldable pub in_line : Lexer → Bool
in_line lex = not (peek lex == b'\n') && not (is_at_end lex)

unfoldable pub in_comment : Lexer → Bool
in_comment lex = not (is_at_end lex) && not (peek lex == b'*' && peek_next lex == b'/')

unfoldable pub in_word : Lexer → Bool
in_word lex = is_alpha (peek lex) || is_digit (peek lex)

unfoldable pub in_digits : Lexer → Bool
in_digits lex = is_digit (peek lex)

unfoldable pub in_string : Lexer → Bool
in_string lex = not (peek lex == b'\'') && not (is_at_end lex)

-- Past the `*/`, or at the end of the input.
unfoldable pub close_comment : Lexer → Lexer
close_comment lex = if is_at_end lex then lex else advance (advance lex)

-- One round of the loop of `skipWhitespace`; `none` is its `return`.
unfoldable pub skip_one : ℕ → Lexer → Option Lexer
skip_one fuel lex =
    if peek lex == b' ' || peek lex == b'\r' || peek lex == b'\t'
    then some (advance lex)
    else if peek lex == b'\n'
    then some (advance (record lex { line = lex.line + 1 }))
    else if peek lex == b'-' && peek_next lex == b'-'
    then some (run_while in_line advance fuel lex)
    else if peek lex == b'/' && peek_next lex == b'*'
    then some (close_comment (run_while in_comment advance_line fuel (advance (advance lex))))
    else none

-- `inner` is the fuel of the loops within a round.
unfoldable pub skip_whitespace : ℕ → ℕ → Lexer → Lexer
skip_whitespace inner zero lex = lex
skip_whitespace inner (suc fuel) lex = elim (skip_one inner lex) [
  | none ↦ lex
  | some next ↦ skip_whitespace inner fuel next
]

-- A token and the lexer after it.
pub record Scanned : Type 0 where
  pub token : Token
  pub after : Lexer

unfoldable pub made : Lexer → TokenType → Scanned
made lex type = record { token = make_token lex type; after = lex }

unfoldable pub identifier : ℕ → Lexer → Scanned
identifier fuel lex =
    let after = run_while in_word advance fuel lex in made after (identifier_type after)

-- `.` and the digits behind it, if there are both.
unfoldable pub fraction : ℕ → Lexer → Lexer
fraction fuel lex =
    if peek lex == b'.' && is_digit (peek_next lex)
    then run_while in_digits advance fuel (advance lex)
    else lex

unfoldable pub number : ℕ → Lexer → Scanned
number fuel lex = made (fraction fuel (run_while in_digits advance fuel lex)) TokenType.number

unfoldable pub string : ℕ → Lexer → Scanned
string fuel lex =
    let after = run_while in_string advance_line fuel lex in
    if is_at_end after
    then record { token = error_token after (codes "Unterminated string."); after = after }
    else made (advance after) TokenType.string

unfoldable pub with_equal : Lexer → TokenType → TokenType → Scanned
with_equal lex longer shorter = elim (match lex b'=') [
  | none ↦ made lex shorter
  | some next ↦ made next longer
]

-- The `switch` of `scanToken`; `c` is the byte before `current`.
unfoldable pub symbol : ℕ → Lexer → ℕ → Scanned
symbol fuel lex c =
    if c == b'('
    then made lex TokenType.left_paren
    else if c == b')'
    then made lex TokenType.right_paren
    else if c == b'{'
    then made lex TokenType.left_brace
    else if c == b'}'
    then made lex TokenType.right_brace
    else if c == b';'
    then made lex TokenType.semicolon
    else if c == b','
    then made lex TokenType.comma
    else if c == b'.'
    then made lex TokenType.dot
    else if c == b'-'
    then made lex TokenType.minus
    else if c == b'+'
    then made lex TokenType.plus
    else if c == b'/'
    then made lex TokenType.slash
    else if c == b'*'
    then made lex TokenType.star
    else if c == b'!'
    then with_equal lex TokenType.bang_equal TokenType.bang
    else if c == b'='
    then with_equal lex TokenType.equal_equal TokenType.equal
    else if c == b'<'
    then with_equal lex TokenType.less_equal TokenType.less
    else if c == b'>'
    then with_equal lex TokenType.greater_equal TokenType.greater
    else if c == b'\''
    then string fuel lex
    else record { token = error_token lex []; after = lex }

-- scanToken from where white space has been passed and `start` set.
unfoldable pub scan_here : ℕ → Lexer → Scanned
scan_here fuel lex =
    if is_at_end lex
    then made lex TokenType.eof
    else if is_alpha (peek lex)
    then identifier fuel (advance lex)
    else if is_digit (peek lex)
    then number fuel (advance lex)
    else symbol fuel (advance lex) (peek lex)

unfoldable pub scan_token : ℕ → Lexer → Scanned
scan_token fuel lex =
    let past = skip_whitespace fuel fuel lex in
    scan_here fuel (record past { start = past.current })
