-- ===== src/Sql/Lexer/Words.antt =====
-- The keywords of the language as a table, and the lookup of the word that the lexer stands at.
use stripe_sql.Prelude.{
  ℕ, ◌+◌, ◌-◌, Bool, true, ◌&&◌, List, [], ◌∷◌, ◌++◌, ◌==◌, if◌then◌else◌, length,
}
use stripe_sql.Sql.Token.{TokenType, codes}
use stripe_sql.Sql.Lexer.{Lexer, letter}

pub record Keyword : Type 0 where
  pub word : List ℕ
  pub type : TokenType

abbrev pub keyword : List ℕ → TokenType → Keyword
keyword word type = record { word = word; type = type }

abbrev pub same_letters : Lexer → ℕ → List ℕ → Bool
same_letters lex k [] = true
same_letters lex k (c ∷ cs) = letter lex k == c && same_letters lex (k + 1) cs

-- The text from `start` to `current` is the word, up to the case of its letters.
abbrev pub spells : Lexer → List ℕ → Bool
spells lex word = lex.current - lex.start == length word && same_letters lex 0 word

abbrev pub look_up : Lexer → List Keyword → TokenType
look_up lex [] = TokenType.identifier
look_up lex (k ∷ ks) = if spells lex k.word then k.type else look_up lex ks

abbrev pub a_words : List Keyword
a_words =
    keyword (codes "add") TokenType.add
    ∷ keyword (codes "all") TokenType.all
    ∷ keyword (codes "alter") TokenType.alter
    ∷ keyword (codes "and") TokenType.and
    ∷ keyword (codes "any") TokenType.any
    ∷ keyword (codes "asc") TokenType.asc
    ∷ keyword (codes "as") TokenType.as_
    ∷ []

abbrev pub b_words : List Keyword
b_words =
    keyword (codes "backup") TokenType.backup
    ∷ keyword (codes "begin") TokenType.begin
    ∷ keyword (codes "between") TokenType.between
    ∷ keyword (codes "by") TokenType.by
    ∷ []

abbrev pub c_words : List Keyword
c_words =
    keyword (codes "case") TokenType.case
    ∷ keyword (codes "check") TokenType.check
    ∷ keyword (codes "collect") TokenType.collect
    ∷ keyword (codes "column") TokenType.column
    ∷ keyword (codes "commit") TokenType.commit
    ∷ keyword (codes "constraint") TokenType.constraint
    ∷ keyword (codes "create") TokenType.create
    ∷ []

abbrev pub d_words : List Keyword
d_words =
    keyword (codes "database") TokenType.database
    ∷ keyword (codes "default") TokenType.default
    ∷ keyword (codes "delete") TokenType.delete
    ∷ keyword (codes "desc") TokenType.desc
    ∷ keyword (codes "discard") TokenType.discard
    ∷ keyword (codes "distinct") TokenType.distinct
    ∷ keyword (codes "drop") TokenType.drop
    ∷ []

abbrev pub e_words : List Keyword
e_words = keyword (codes "exec") TokenType.exec ∷ keyword (codes "exists") TokenType.exists ∷ []

abbrev pub f_words : List Keyword
f_words =
    keyword (codes "foreign") TokenType.foreign
    ∷ keyword (codes "from") TokenType.from
    ∷ keyword (codes "full") TokenType.full
    ∷ []

abbrev pub g_words : List Keyword
g_words = keyword (codes "group") TokenType.group ∷ []

abbrev pub h_words : List Keyword
h_words = keyword (codes "having") TokenType.having ∷ []

abbrev pub i_words : List Keyword
i_words =
    keyword (codes "index") TokenType.index
    ∷ keyword (codes "inner") TokenType.inner
    ∷ keyword (codes "insert") TokenType.insert
    ∷ keyword (codes "into") TokenType.into
    ∷ keyword (codes "in") TokenType.in_
    ∷ keyword (codes "is") TokenType.is
    ∷ []

abbrev pub j_words : List Keyword
j_words = keyword (codes "join") TokenType.join ∷ []

abbrev pub k_words : List Keyword
k_words = keyword (codes "key") TokenType.key ∷ []

abbrev pub l_words : List Keyword
l_words =
    keyword (codes "left") TokenType.left
    ∷ keyword (codes "like") TokenType.like
    ∷ keyword (codes "limit") TokenType.limit
    ∷ []

abbrev pub n_words : List Keyword
n_words = keyword (codes "not") TokenType.not ∷ keyword (codes "null") TokenType.null ∷ []

abbrev pub o_words : List Keyword
o_words =
    keyword (codes "on") TokenType.on
    ∷ keyword (codes "order") TokenType.order
    ∷ keyword (codes "or") TokenType.or
    ∷ keyword (codes "outer") TokenType.outer
    ∷ []

abbrev pub p_words : List Keyword
p_words =
    keyword (codes "primary") TokenType.primary
    ∷ keyword (codes "procedure") TokenType.procedure
    ∷ []

abbrev pub r_words : List Keyword
r_words =
    keyword (codes "replace") TokenType.replace
    ∷ keyword (codes "right") TokenType.right
    ∷ keyword (codes "rownum") TokenType.rownum
    ∷ []

abbrev pub s_words : List Keyword
s_words = keyword (codes "select") TokenType.select ∷ keyword (codes "set") TokenType.set ∷ []

abbrev pub t_words : List Keyword
t_words =
    keyword (codes "table") TokenType.table
    ∷ keyword (codes "top") TokenType.top
    ∷ keyword (codes "transaction") TokenType.transaction
    ∷ keyword (codes "truncate") TokenType.truncate
    ∷ []

abbrev pub u_words : List Keyword
u_words =
    keyword (codes "union") TokenType.union
    ∷ keyword (codes "unique") TokenType.unique
    ∷ keyword (codes "update") TokenType.update
    ∷ []

abbrev pub v_words : List Keyword
v_words = keyword (codes "values") TokenType.values ∷ keyword (codes "view") TokenType.view ∷ []

abbrev pub w_words : List Keyword
w_words = keyword (codes "where") TokenType.where_ ∷ []

abbrev pub from_w : List Keyword
from_w = w_words ++ []

abbrev pub from_v : List Keyword
from_v = v_words ++ from_w

abbrev pub from_u : List Keyword
from_u = u_words ++ from_v

abbrev pub from_t : List Keyword
from_t = t_words ++ from_u

abbrev pub from_s : List Keyword
from_s = s_words ++ from_t

abbrev pub from_r : List Keyword
from_r = r_words ++ from_s

abbrev pub from_p : List Keyword
from_p = p_words ++ from_r

abbrev pub from_o : List Keyword
from_o = o_words ++ from_p

abbrev pub from_n : List Keyword
from_n = n_words ++ from_o

abbrev pub from_l : List Keyword
from_l = l_words ++ from_n

abbrev pub from_k : List Keyword
from_k = k_words ++ from_l

abbrev pub from_j : List Keyword
from_j = j_words ++ from_k

abbrev pub from_i : List Keyword
from_i = i_words ++ from_j

abbrev pub from_h : List Keyword
from_h = h_words ++ from_i

abbrev pub from_g : List Keyword
from_g = g_words ++ from_h

abbrev pub from_f : List Keyword
from_f = f_words ++ from_g

abbrev pub from_e : List Keyword
from_e = e_words ++ from_f

abbrev pub from_d : List Keyword
from_d = d_words ++ from_e

abbrev pub from_c : List Keyword
from_c = c_words ++ from_d

abbrev pub from_b : List Keyword
from_b = b_words ++ from_c

-- Every keyword of the language, in the order of the letters.
abbrev pub keywords : List Keyword
keywords = a_words ++ from_b
