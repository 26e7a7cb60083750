-- ===== src/Sql/Lexer/Switch.antt =====
-- The cases of the `switch` of `scanToken`.
use stripe_sql.Prelude.{
  ℕ, ◌≡◌, ◌⊎◌, inl, inr, refl, sym, subst, arith, Bool, true, false, ◌||◌, ◌==◌, ==_iff, List, [],
  ◌∷◌, Bool-cases,
}
use stripe_sql.Sql.Token.{TokenType}
use stripe_sql.Sql.Lexer.{Lexer, error_token}
use stripe_sql.Sql.Lexer.Scan.{Scanned, made, string, with_equal, symbol}
use stripe_sql.Sql.Lexer.Grammar.{IsSymbol, IsComparison}
use stripe_sql.Sql.Lexer.Query.{is_error, is_eof}
use stripe_sql.Sql.Lexer.Tokens.{is_plain}

-- A byte that the predicate holds of.
record Known (P : ℕ → Type 0) : Type 0 where
  byte : ℕ
  known : P byte

abbrev one_of : {P : ℕ → Type 0} → List (Known P) → ℕ → Bool
one_of [] c = false
one_of (k ∷ ks) c = c == k.byte || one_of ks c

find : {P : ℕ → Type 0} (ks : List (Known P)) (c : ℕ) → P c ⊎ (one_of ks c ≡ false)
find [] c = inr refl
find {P} (k ∷ ks) c = elim (Bool-cases (c == k.byte)) [
  | inl x ↦ inl (subst P (sym ((==_iff c k.byte).0 x)) k.known)
  | inr x ↦ elim (find ks c) [ inl p ↦ inl p | inr y ↦ inr (ground (arith, x, y)) ]
]

abbrev pub Symbol : ℕ → Type 0
Symbol c = (type : TokenType) × IsSymbol c type

abbrev pub Comparison : ℕ → Type 0
Comparison c = (type : TokenType) × (longer : TokenType) × IsComparison c type longer

abbrev symbols : List (Known Symbol)
symbols =
    record { byte = b'('; known = (TokenType.left_paren, IsSymbol.left_paren) }
    ∷ record { byte = b')'; known = (TokenType.right_paren, IsSymbol.right_paren) }
    ∷ record { byte = b'{'; known = (TokenType.left_brace, IsSymbol.left_brace) }
    ∷ record { byte = b'}'; known = (TokenType.right_brace, IsSymbol.right_brace) }
    ∷ record { byte = b';'; known = (TokenType.semicolon, IsSymbol.semicolon) }
    ∷ record { byte = b','; known = (TokenType.comma, IsSymbol.comma) }
    ∷ record { byte = b'.'; known = (TokenType.dot, IsSymbol.dot) }
    ∷ record { byte = b'-'; known = (TokenType.minus, IsSymbol.minus) }
    ∷ record { byte = b'+'; known = (TokenType.plus, IsSymbol.plus) }
    ∷ record { byte = b'/'; known = (TokenType.slash, IsSymbol.slash) }
    ∷ record { byte = b'*'; known = (TokenType.star, IsSymbol.star) }
    ∷ []

abbrev comparisons : List (Known Comparison)
comparisons =
    record { byte = b'!'; known = (TokenType.bang, TokenType.bang_equal, IsComparison.bang) }
    ∷ record { byte = b'='; known = (TokenType.equal, TokenType.equal_equal, IsComparison.equal) }
    ∷ record { byte = b'<'; known = (TokenType.less, TokenType.less_equal, IsComparison.less) }
    ∷ record {
      byte = b'>';
      known = (TokenType.greater, TokenType.greater_equal, IsComparison.greater);
    }
    ∷ []

IsSymbol-one_of : {c : ℕ} {type : TokenType} → IsSymbol c type → one_of symbols c ≡ true
IsSymbol-one_of IsSymbol.left_paren = refl
IsSymbol-one_of IsSymbol.right_paren = refl
IsSymbol-one_of IsSymbol.left_brace = refl
IsSymbol-one_of IsSymbol.right_brace = refl
IsSymbol-one_of IsSymbol.semicolon = refl
IsSymbol-one_of IsSymbol.comma = refl
IsSymbol-one_of IsSymbol.dot = refl
IsSymbol-one_of IsSymbol.minus = refl
IsSymbol-one_of IsSymbol.plus = refl
IsSymbol-one_of IsSymbol.slash = refl
IsSymbol-one_of IsSymbol.star = refl

IsComparison-one_of :
    {c : ℕ} {type longer : TokenType} → IsComparison c type longer → one_of comparisons c ≡ true
IsComparison-one_of IsComparison.bang = refl
IsComparison-one_of IsComparison.equal = refl
IsComparison-one_of IsComparison.less = refl
IsComparison-one_of IsComparison.greater = refl

pub IsSymbol-plain : {c : ℕ} {type : TokenType} → IsSymbol c type → is_plain type ≡ true
unfolding is_error is_eof
IsSymbol-plain IsSymbol.left_paren = refl
IsSymbol-plain IsSymbol.right_paren = refl
IsSymbol-plain IsSymbol.left_brace = refl
IsSymbol-plain IsSymbol.right_brace = refl
IsSymbol-plain IsSymbol.semicolon = refl
IsSymbol-plain IsSymbol.comma = refl
IsSymbol-plain IsSymbol.dot = refl
IsSymbol-plain IsSymbol.minus = refl
IsSymbol-plain IsSymbol.plus = refl
IsSymbol-plain IsSymbol.slash = refl
IsSymbol-plain IsSymbol.star = refl

pub IsComparison-plain :
    {c : ℕ} {type longer : TokenType}
    → IsComparison c type longer
    → (is_plain type ≡ true) × (is_plain longer ≡ true)
unfolding is_error is_eof
IsComparison-plain IsComparison.bang = (refl, refl)
IsComparison-plain IsComparison.equal = (refl, refl)
IsComparison-plain IsComparison.less = (refl, refl)
IsComparison-plain IsComparison.greater = (refl, refl)

symbol-made :
    (fuel : ℕ) (lex : Lexer) {c : ℕ} {type : TokenType}
    → IsSymbol c type
    → symbol fuel lex c ≡ made lex type
unfolding symbol
symbol-made fuel lex IsSymbol.left_paren = refl
symbol-made fuel lex IsSymbol.right_paren = refl
symbol-made fuel lex IsSymbol.left_brace = refl
symbol-made fuel lex IsSymbol.right_brace = refl
symbol-made fuel lex IsSymbol.semicolon = refl
symbol-made fuel lex IsSymbol.comma = refl
symbol-made fuel lex IsSymbol.dot = refl
symbol-made fuel lex IsSymbol.minus = refl
symbol-made fuel lex IsSymbol.plus = refl
symbol-made fuel lex IsSymbol.slash = refl
symbol-made fuel lex IsSymbol.star = refl

symbol-with_equal :
    (fuel : ℕ) (lex : Lexer) {c : ℕ} {type longer : TokenType}
    → IsComparison c type longer
    → symbol fuel lex c ≡ with_equal lex longer type
unfolding symbol
symbol-with_equal fuel lex IsComparison.bang = refl
symbol-with_equal fuel lex IsComparison.equal = refl
symbol-with_equal fuel lex IsComparison.less = refl
symbol-with_equal fuel lex IsComparison.greater = refl

symbol-quote : (fuel : ℕ) (lex : Lexer) → symbol fuel lex b'\'' ≡ string fuel lex
unfolding symbol
symbol-quote fuel lex = refl

abbrev pub unexpected_symbol : Lexer → Scanned
unexpected_symbol lex = record { token = error_token lex []; after = lex }

symbol-unexpected :
    (fuel : ℕ) (lex : Lexer) (c : ℕ)
    → one_of symbols c ≡ false
    → one_of comparisons c ≡ false
    → (c == b'\'') ≡ false
    → symbol fuel lex c ≡ unexpected_symbol lex
unfolding symbol
symbol-unexpected fuel lex c x y z = ground (arith, x, y, z)

-- What holds of the result in each case of the `switch` holds of the result.
pub symbol-cases :
    (P : Scanned → Type 0) (fuel : ℕ) (lex : Lexer) (c : ℕ)
    → ((type : TokenType) → IsSymbol c type → P (made lex type))
    → ((type longer : TokenType) → IsComparison c type longer → P (with_equal lex longer type))
    → (c ≡ b'\'' → P (string fuel lex))
    → (((type : TokenType) → ¬ IsSymbol c type)
        → ((type longer : TokenType) → ¬ IsComparison c type longer)
        → (c == b'\'') ≡ false
        → P (unexpected_symbol lex))
    → P (symbol fuel lex c)
symbol-cases P fuel lex c on_symbol on_comparison on_quote otherwise = elim (find symbols c) [
  | inl (type, s) ↦ subst P (sym (symbol-made fuel lex s)) (on_symbol type s)
  | inr x ↦ elim (find comparisons c) [
    | inl (type, longer, s) ↦
        subst P (sym (symbol-with_equal fuel lex s)) (on_comparison type longer s)
    | inr y ↦ elim (Bool-cases (c == b'\'')) [
      | inl z ↦ quote ((==_iff c b'\'').0 z)
      | inr z ↦ subst P (sym (symbol-unexpected fuel lex c x y z)) (
          otherwise (λ type s. ground (arith, x, IsSymbol-one_of s))
            (λ type longer s. ground (arith, y, IsComparison-one_of s)) z)
    ]
  ]
]
  where
    quote : c ≡ b'\'' → P (symbol fuel lex c)
    quote e =
        subst (λ k. P (symbol fuel lex k)) (sym e)
          (subst P (sym (symbol-quote fuel lex)) (on_quote e))
