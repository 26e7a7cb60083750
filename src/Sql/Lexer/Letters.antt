-- ===== src/Sql/Lexer/Letters.antt =====
-- Each letter's part of `identifierType` looks the word up among the keywords of that letter.
use stripe_sql.Prelude.{ℕ, ◌-◌, ◌≡◌, ◌≢◌, arith}
use stripe_sql.Sql.Token.{TokenType, codes}
use stripe_sql.Sql.Lexer.{Lexer, letter, check_keyword, strncasecmp, to_lower}
use stripe_sql.Sql.Lexer.Keywords.{
  after_a, after_b, after_c, after_d, after_e, after_f, after_i, after_l, after_n, after_o, after_p,
  after_r, after_s, after_t, after_u, after_v,
}
use stripe_sql.Sql.Lexer.Words.{
  look_up, a_words, b_words, c_words, d_words, e_words, f_words, g_words, h_words, i_words, j_words,
  k_words, l_words, n_words, o_words, p_words, r_words, s_words, t_words, u_words, v_words, w_words,
}

-- A word of two letters is not followed by the letter, up to its case.
abbrev pub EndsBefore : Lexer → ℕ → Type 0
EndsBefore lex c = lex.current - lex.start ≡ 2 → letter lex 2 ≢ c

pub after_a_lem :
    (lex : Lexer) → letter lex 0 ≡ b'a' → EndsBefore lex b'c' → after_a lex ≡ look_up lex a_words
unfolding after_a check_keyword strncasecmp to_lower
after_a_lem lex h e0 = ground (arith, h, e0)

pub after_b_lem : (lex : Lexer) → letter lex 0 ≡ b'b' → after_b lex ≡ look_up lex b_words
unfolding after_b check_keyword strncasecmp to_lower
after_b_lem lex h = ground (arith, h)

pub after_c_lem : (lex : Lexer) → letter lex 0 ≡ b'c' → after_c lex ≡ look_up lex c_words
unfolding after_c check_keyword strncasecmp to_lower
after_c_lem lex h = ground (arith, h)

pub after_d_lem : (lex : Lexer) → letter lex 0 ≡ b'd' → after_d lex ≡ look_up lex d_words
unfolding after_d check_keyword strncasecmp to_lower
after_d_lem lex h = ground (arith, h)

pub after_e_lem : (lex : Lexer) → letter lex 0 ≡ b'e' → after_e lex ≡ look_up lex e_words
unfolding after_e check_keyword strncasecmp to_lower
after_e_lem lex h = ground (arith, h)

pub after_f_lem : (lex : Lexer) → letter lex 0 ≡ b'f' → after_f lex ≡ look_up lex f_words
unfolding after_f check_keyword strncasecmp to_lower
after_f_lem lex h = ground (arith, h)

pub after_i_lem :
    (lex : Lexer)
    → letter lex 0 ≡ b'i'
    → EndsBefore lex b'd'
    → EndsBefore lex b'n'
    → EndsBefore lex b's'
    → EndsBefore lex b't'
    → after_i lex ≡ look_up lex i_words
unfolding after_i check_keyword strncasecmp to_lower
after_i_lem lex h e0 e1 e2 e3 = ground (arith, h, e0, e1, e2, e3)

pub after_l_lem : (lex : Lexer) → letter lex 0 ≡ b'l' → after_l lex ≡ look_up lex l_words
unfolding after_l check_keyword strncasecmp to_lower
after_l_lem lex h = ground (arith, h)

pub after_n_lem : (lex : Lexer) → letter lex 0 ≡ b'n' → after_n lex ≡ look_up lex n_words
unfolding after_n check_keyword strncasecmp to_lower
after_n_lem lex h = ground (arith, h)

pub after_o_lem :
    (lex : Lexer) → letter lex 0 ≡ b'o' → EndsBefore lex b'd' → after_o lex ≡ look_up lex o_words
unfolding after_o check_keyword strncasecmp to_lower
after_o_lem lex h e0 = ground (arith, h, e0)

pub after_p_lem : (lex : Lexer) → letter lex 0 ≡ b'p' → after_p lex ≡ look_up lex p_words
unfolding after_p check_keyword strncasecmp to_lower
after_p_lem lex h = ground (arith, h)

pub after_r_lem : (lex : Lexer) → letter lex 0 ≡ b'r' → after_r lex ≡ look_up lex r_words
unfolding after_r check_keyword strncasecmp to_lower
after_r_lem lex h = ground (arith, h)

pub after_s_lem : (lex : Lexer) → letter lex 0 ≡ b's' → after_s lex ≡ look_up lex s_words
unfolding after_s check_keyword strncasecmp to_lower
after_s_lem lex h = ground (arith, h)

pub after_t_lem : (lex : Lexer) → letter lex 0 ≡ b't' → after_t lex ≡ look_up lex t_words
unfolding after_t check_keyword strncasecmp to_lower
after_t_lem lex h = ground (arith, h)

pub after_u_lem : (lex : Lexer) → letter lex 0 ≡ b'u' → after_u lex ≡ look_up lex u_words
unfolding after_u check_keyword strncasecmp to_lower
after_u_lem lex h = ground (arith, h)

pub after_v_lem : (lex : Lexer) → letter lex 0 ≡ b'v' → after_v lex ≡ look_up lex v_words
unfolding after_v check_keyword strncasecmp to_lower
after_v_lem lex h = ground (arith, h)

pub g_word_lem :
    (lex : Lexer)
    → letter lex 0 ≡ b'g'
    → check_keyword lex 1 4 (codes "roup") TokenType.group ≡ look_up lex g_words
unfolding check_keyword strncasecmp to_lower
g_word_lem lex h = ground (arith, h)

pub h_word_lem :
    (lex : Lexer)
    → letter lex 0 ≡ b'h'
    → check_keyword lex 1 5 (codes "aving") TokenType.having ≡ look_up lex h_words
unfolding check_keyword strncasecmp to_lower
h_word_lem lex h = ground (arith, h)

pub j_word_lem :
    (lex : Lexer)
    → letter lex 0 ≡ b'j'
    → check_keyword lex 1 3 (codes "oin") TokenType.join ≡ look_up lex j_words
unfolding check_keyword strncasecmp to_lower
j_word_lem lex h = ground (arith, h)

pub k_word_lem :
    (lex : Lexer)
    → letter lex 0 ≡ b'k'
    → check_keyword lex 1 2 (codes "ey") TokenType.key ≡ look_up lex k_words
unfolding check_keyword strncasecmp to_lower
k_word_lem lex h = ground (arith, h)

pub w_word_lem :
    (lex : Lexer)
    → letter lex 0 ≡ b'w'
    → check_keyword lex 1 4 (codes "here") TokenType.where_ ≡ look_up lex w_words
unfolding check_keyword strncasecmp to_lower
w_word_lem lex h = ground (arith, h)
