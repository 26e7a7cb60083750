-- ===== src/Sql/Lexer/Grammar.antt =====
-- What src/SQL_interpreter/lexer.c reads, written down apart from the code: white space, lexemes and
-- the list of tokens of a source.
use stripe_sql.Prelude.{
  ℕ, zero, suc, ◌+◌, ◌-◌, ◌<◌, ◌≤◌, ◌≡◌, ◌≢◌, ◌⊎◌, Bool, true, false, not, ◌||◌, ◌&&◌, List, [],
  ◌∷◌, ◌==◌, if◌then◌else◌,
}
use stripe_sql.Storage.Bytes.{Buffer}
use stripe_sql.Sql.Token.{TokenType, Start, Token}
use stripe_sql.Sql.Lexer.{Lexer, is_alpha, is_digit}
use stripe_sql.Sql.Lexer.Words.{look_up, keywords}

-- A C string of `len` bytes.
pub record IsString (text : Buffer) (len : ℕ) : Type 0 where
  pub ends : text len ≡ 0
  pub goes_on : (k : ℕ) → k < len → text k ≢ 0

-- The newlines among the first `n` bytes.
abbrev pub newlines : Buffer → ℕ → ℕ
newlines text zero = 0
newlines text (suc n) = (if text n == b'\n' then 1 else 0) + newlines text n

-- The test holds at each index from `n` on and below `m`.
abbrev pub Span : (ℕ → Bool) → ℕ → ℕ → Type 0
Span p n m = (k : ℕ) → n ≤ k → k < m → p k ≡ true

abbrev pub is_word : ℕ → Bool
is_word c = is_alpha c || is_digit c

abbrev pub is_blank : ℕ → Bool
is_blank c = c == b' ' || c == b'\r' || c == b'\t' || c == b'\n'

abbrev pub closes : Buffer → ℕ → Bool
closes text k = text k == b'*' && text (k + 1) == b'/'

-- One blank, newline or comment from `n` up to `m`.
pub data IsPiece (text : Buffer) (len : ℕ) : ℕ → ℕ → Type 0 where
  blank : {n : ℕ} → is_blank (text n) ≡ true → IsPiece text len n (n + 1)
  line_comment :
      {n m : ℕ}
      → text n ≡ b'-'
      → text (n + 1) ≡ b'-'
      → Span (λ k. not (text k == b'\n')) n m
      → (text m ≡ b'\n') ⊎ (m ≡ len)
      → IsPiece text len n m
  block_comment :
      {n m : ℕ}
      → text n ≡ b'/'
      → text (n + 1) ≡ b'*'
      → Span (λ k. not (closes text k)) (n + 2) m
      → closes text m ≡ true
      → IsPiece text len n (m + 2)
  open_comment :
      {n : ℕ}
      → text n ≡ b'/'
      → text (n + 1) ≡ b'*'
      → Span (λ k. not (closes text k)) (n + 2) len
      → IsPiece text len n len

pub data IsGap (text : Buffer) (len : ℕ) : ℕ → ℕ → Type 0 where
  done : {n : ℕ} → IsGap text len n n
  more : {n k m : ℕ} → IsPiece text len n k → IsGap text len k m → IsGap text len n m

-- The tokens of one byte, and those that a `=` behind them makes longer.
pub data IsSymbol : ℕ → TokenType → Type 0 where
  left_paren : IsSymbol b'(' TokenType.left_paren
  right_paren : IsSymbol b')' TokenType.right_paren
  left_brace : IsSymbol b'{' TokenType.left_brace
  right_brace : IsSymbol b'}' TokenType.right_brace
  semicolon : IsSymbol b';' TokenType.semicolon
  comma : IsSymbol b',' TokenType.comma
  dot : IsSymbol b'.' TokenType.dot
  minus : IsSymbol b'-' TokenType.minus
  plus : IsSymbol b'+' TokenType.plus
  slash : IsSymbol b'/' TokenType.slash
  star : IsSymbol b'*' TokenType.star

pub data IsComparison : ℕ → TokenType → TokenType → Type 0 where
  bang : IsComparison b'!' TokenType.bang TokenType.bang_equal
  equal : IsComparison b'=' TokenType.equal TokenType.equal_equal
  less : IsComparison b'<' TokenType.less TokenType.less_equal
  greater : IsComparison b'>' TokenType.greater TokenType.greater_equal

-- The bytes from `n` up to `m` are a token of the type.
pub data IsLexeme (text : Buffer) : ℕ → ℕ → TokenType → Type 0 where
  end_of_source : {n : ℕ} → text n ≡ 0 → IsLexeme text n n TokenType.eof
  word :
      {type : TokenType} (lex : Lexer)
      → lex.text ≡ text
      → is_alpha (text lex.start) ≡ true
      → Span (λ k. is_word (text k)) (lex.start + 1) lex.current
      → is_word (text lex.current) ≡ false
      → type ≡ look_up lex keywords
      → IsLexeme text lex.start lex.current type
  whole_number :
      {n m : ℕ}
      → n < m
      → Span (λ k. is_digit (text k)) n m
      → is_digit (text m) ≡ false
      → (text m == b'.' && is_digit (text (m + 1))) ≡ false
      → IsLexeme text n m TokenType.number
  decimal_number :
      {n k m : ℕ}
      → n < k
      → k + 1 < m
      → Span (λ k. is_digit (text k)) n k
      → text k ≡ b'.'
      → Span (λ k. is_digit (text k)) (k + 1) m
      → is_digit (text m) ≡ false
      → IsLexeme text n m TokenType.number
  quoted :
      {n m : ℕ}
      → n < m
      → text n ≡ b'\''
      → Span (λ k. not (text k == b'\'')) (n + 1) m
      → text m ≡ b'\''
      → IsLexeme text n (m + 1) TokenType.string
  symbol : {n : ℕ} {type : TokenType} → IsSymbol (text n) type → IsLexeme text n (n + 1) type
  comparison :
      {n : ℕ} {type longer : TokenType}
      → IsComparison (text n) type longer
      → text (n + 1) ≢ b'='
      → IsLexeme text n (n + 1) type
  with_equal :
      {n : ℕ} {type longer : TokenType}
      → IsComparison (text n) type longer
      → text (n + 1) ≡ b'='
      → IsLexeme text n (n + 2) longer

-- What is reported and left out: a byte that begins no token, and a string that is not closed.
pub data IsFault (text : Buffer) (len : ℕ) : ℕ → ℕ → Type 0 where
  unexpected :
      {n : ℕ}
      → is_word (text n) ≡ false
      → ((type : TokenType) → ¬ IsSymbol (text n) type)
      → ((type longer : TokenType) → ¬ IsComparison (text n) type longer)
      → text n ≢ b'\''
      → IsFault text len n (n + 1)
  unterminated :
      {n : ℕ}
      → text n ≡ b'\''
      → Span (λ k. not (text k == b'\'')) (n + 1) len
      → IsFault text len n len

-- The token is the bytes from `n` up to `m`, and has the line in which it ends.
pub record IsToken (text : Buffer) (n m : ℕ) (t : Token) : Type 0 where
  pub lexeme : IsLexeme text n m t.type
  pub from : t.start ≡ Start.source n
  pub size : t.length ≡ m - n
  pub line : t.line ≡ 1 + newlines text m

-- White space or a comment begins at `n`.
abbrev pub opens_gap : Buffer → ℕ → Bool
opens_gap text n =
    is_blank (text n)
    || (text n == b'-' && text (n + 1) == b'-')
    || (text n == b'/' && text (n + 1) == b'*')

-- The tokens of the source from `n` to its end. A token or a fault begins only where no white space and
-- no comment does.
pub data AreTokens (text : Buffer) (len : ℕ) : ℕ → List Token → Type 0 where
  last :
      {n : ℕ} {t : Token}
      → IsGap text len n len
      → IsToken text len len t
      → t.type ≡ TokenType.eof
      → AreTokens text len n (t ∷ [])
  token :
      {n k m : ℕ} {t : Token} {ts : List Token}
      → IsGap text len n k
      → opens_gap text k ≡ false
      → k < m
      → IsToken text k m t
      → AreTokens text len m ts
      → AreTokens text len n (t ∷ ts)
  fault :
      {n k m : ℕ} {ts : List Token}
      → IsGap text len n k
      → opens_gap text k ≡ false
      → k < m
      → IsFault text len k m
      → AreTokens text len m ts
      → AreTokens text len n ts
