-- ===== src/Sql/Lexer.antt =====
-- The state of the lexer of src/SQL_interpreter/lexer.c and the functions that move it. The source
-- is an array of bytes that a NUL ends; `start` and `current` are indices into it.
pub mod Keywords
pub mod Words
pub mod Letters
pub mod Table
pub mod Scan
pub mod Query
pub mod Moves
pub mod Skip
pub mod Switch
pub mod Queried
pub mod Symbols
pub mod Literals
pub mod Tokens
pub mod Gaps
pub mod Grammar
use stripe_sql.Prelude.{
  ℕ, zero, suc, ◌+◌, ◌-◌, Bool, true, false, not, ◌&&◌, ◌||◌, List, [], ◌∷◌, leb, ◌==◌,
  if◌then◌else◌, length, Option, none, some,
}
use stripe_sql.Storage.Bytes.{Buffer}
use stripe_sql.Sql.Token.{TokenType, Start, Token}

pub record Lexer : Type 0 where
  pub text : Buffer
  pub start : ℕ
  pub current : ℕ
  pub line : ℕ

unfoldable pub init_lexer : Buffer → Lexer
init_lexer text = record { text = text; start = 0; current = 0; line = 1 }

unfoldable pub is_alpha : ℕ → Bool
is_alpha c = leb b'a' c && leb c b'z' || leb b'A' c && leb c b'Z' || c == b'_'

unfoldable pub is_digit : ℕ → Bool
is_digit c = leb b'0' c && leb c b'9'

unfoldable pub peek : Lexer → ℕ
peek lex = lex.text lex.current

unfoldable pub is_at_end : Lexer → Bool
is_at_end lex = lex.text lex.current == 0

unfoldable pub peek_next : Lexer → ℕ
unfolding is_at_end
peek_next lex = if is_at_end lex then 0 else lex.text (lex.current + 1)

-- `advance` without the byte it returns: the one that was at `current`.
unfoldable pub advance : Lexer → Lexer
advance lex = record lex { current = lex.current + 1 }

unfoldable pub make_token : Lexer → TokenType → Token
make_token lex type = record {
  type = type;
  start = Start.source lex.start;
  length = lex.current - lex.start;
  line = lex.line;
}

unfoldable pub error_token : Lexer → List ℕ → Token
error_token lex message = record {
  type = TokenType.error;
  start = Start.message message;
  length = length message;
  line = lex.line;
}

-- tolower, on bytes
unfoldable pub to_lower : ℕ → ℕ
to_lower c = if leb b'A' c && leb c b'Z' then c + 32 else c

-- tolower((unsigned char)lex.start[k])
unfoldable pub letter : Lexer → ℕ → ℕ
letter lex k = to_lower (lex.text (lex.start + k))

-- strncasecmp(lex.start + k, rest, n) == 0
unfoldable pub strncasecmp : Lexer → ℕ → List ℕ → ℕ → Bool
strncasecmp lex k rest zero = true
strncasecmp lex k [] (suc n) = letter lex k == 0
strncasecmp lex k (c ∷ rest) (suc n) =
    letter lex k == to_lower c && (c == 0 || strncasecmp lex (k + 1) rest n)

unfoldable pub check_keyword : Lexer → ℕ → ℕ → List ℕ → TokenType → TokenType
check_keyword lex start length rest type =
    if lex.current - lex.start == start + length && strncasecmp lex start rest length
    then type
    else TokenType.identifier

-- match: where the byte is the expected one, the lexer that has passed it.
unfoldable pub match : Lexer → ℕ → Option Lexer
unfolding is_at_end peek advance
match lex expected =
    if is_at_end lex then none else if peek lex == expected then some (advance lex) else none
