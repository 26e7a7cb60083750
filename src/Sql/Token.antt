-- ===== src/Sql/Token.antt =====
-- The tokens of src/SQL_interpreter/lexer.h.
use Prim.Native.Char.{code}
use Prim.Native.String.{String}
use stripe_sql.Prelude.{ℕ, List, [], ◌∷◌}

pub data TokenType : Type 0 where
  -- Single-character tokens
  left_paren right_paren left_brace right_brace comma dot minus plus semicolon slash star :
      TokenType
  -- One or two character tokens
  bang bang_equal equal equal_equal greater greater_equal less less_equal : TokenType
  -- Literals
  identifier string number : TokenType
  -- Keywords
  add all alter and any as_ asc backup begin between by : TokenType
  case check collect column commit constraint create : TokenType
  database default delete desc discard distinct drop exec exists : TokenType
  foreign from full group having in_ index inner insert into is join key left like limit : TokenType
  not null on or order outer primary procedure replace right rownum : TokenType
  select set table top transaction truncate union unique update values view where_ : TokenType
  -- Signals
  error eof empty : TokenType

-- What a token points at: an index into the source, or a message.
pub data Start : Type 0 where
  source : ℕ → Start
  message : List ℕ → Start

pub record Token : Type 0 where
  pub type : TokenType
  pub start : Start
  pub length : ℕ
  pub line : ℕ

-- The bytes of an ASCII literal.
abbrev pub codes : String → List ℕ
codes String.[] = []
codes (String.◌∷◌ c s) = code c ∷ codes s
