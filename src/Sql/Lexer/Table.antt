-- ===== src/Sql/Lexer/Table.antt =====
-- `identifierType` looks a word up in the table of keywords, whatever the case of its letters.
use stripe_sql.Prelude.{
  ℕ, ◌<◌, ◌≤◌, inl, inr, sym, ap, ◌∙◌, ==_iff, ◌||◌, ◌+◌, ◌≡◌, ◌≢◌, refl, Bool, true, false, ◌&&◌,
  List, [], ◌∷◌, ◌++◌, ◌==◌, if◌then◌else◌, arith, Bool-cases,
}
use stripe_sql.Sql.Token.{TokenType}
use stripe_sql.Sql.Lexer.{Lexer, letter, to_lower, is_alpha}
use stripe_sql.Sql.Lexer.Keywords.{identifier_type}
use stripe_sql.Sql.Lexer.Words.{
  Keyword, spells, look_up, keywords, a_words, b_words, c_words, d_words, e_words, f_words, g_words,
  h_words, i_words, j_words, k_words, l_words, n_words, o_words, p_words, r_words, s_words, t_words,
  u_words, v_words, w_words, from_b, from_c, from_d, from_e, from_f, from_g, from_h, from_i, from_j,
  from_k, from_l, from_n, from_o, from_p, from_r, from_s, from_t, from_u, from_v, from_w,
}
use stripe_sql.Sql.Lexer.Letters.{
  EndsBefore, after_a_lem, after_b_lem, after_c_lem, after_d_lem, after_e_lem, after_f_lem,
  after_i_lem, after_l_lem, after_n_lem, after_o_lem, after_p_lem, after_r_lem, after_s_lem,
  after_t_lem, after_u_lem, after_v_lem, g_word_lem, h_word_lem, j_word_lem, k_word_lem, w_word_lem,
}

-- Whether some word, or each word, of the list starts with `c`.
abbrev starts : ℕ → List ℕ → Bool
starts c [] = false
starts c (x ∷ xs) = x == c

abbrev some_starts : ℕ → List Keyword → Bool
some_starts c [] = false
some_starts c (k ∷ ks) = starts c k.word || some_starts c ks

abbrev all_start : ℕ → List Keyword → Bool
all_start c [] = true
all_start c (k ∷ ks) = starts c k.word && all_start c ks

module _ (lex : Lexer) where
  differs :
      (c : ℕ) (word : List ℕ) → starts c word ≡ true → letter lex 0 ≢ c → spells lex word ≡ false
  differs c [] s h = ground (arith, s)
  differs c (x ∷ xs) s h = ground (arith, s, h)

  other :
      (c : ℕ) (word : List ℕ)
      → starts c word ≡ false
      → lex.start < lex.current
      → letter lex 0 ≡ c
      → spells lex word ≡ false
  other c [] s l h = ground (arith, l)
  other c (x ∷ xs) s l h = ground (arith, s, h)

  look_up-none :
      (c : ℕ) (ks : List Keyword)
      → some_starts c ks ≡ false
      → lex.start < lex.current
      → letter lex 0 ≡ c
      → look_up lex ks ≡ TokenType.identifier
  look_up-none c [] s l h = refl
  look_up-none c (k ∷ ks) s l h =
      rw (other c k.word (ground (arith, s)) l h) (look_up-none c ks (ground (arith, s)) l h)

  look_up-left :
      (c : ℕ) (ks rest : List Keyword)
      → some_starts c rest ≡ false
      → lex.start < lex.current
      → letter lex 0 ≡ c
      → look_up lex (ks ++ rest) ≡ look_up lex ks
  look_up-left c [] rest s l h = look_up-none c rest s l h
  look_up-left c (k ∷ ks) rest s l h =
      ap (λ t. if spells lex k.word then k.type else t) (look_up-left c ks rest s l h)

  look_up-right :
      (c : ℕ) (ks rest : List Keyword)
      → all_start c ks ≡ true
      → letter lex 0 ≢ c
      → look_up lex (ks ++ rest) ≡ look_up lex rest
  look_up-right c [] rest s h = refl
  look_up-right c (k ∷ ks) rest s h =
      rw (differs c k.word (ground (arith, s)) h) (look_up-right c ks rest (ground (arith, s)) h)

  -- One `case` of the outer `switch`, against its words and those after them.
  group :
      (c : ℕ) (ks rest : List Keyword) {x y : TokenType}
      → lex.start < lex.current
      → all_start c ks ≡ true
      → some_starts c rest ≡ false
      → (letter lex 0 ≡ c → x ≡ look_up lex ks)
      → y ≡ look_up lex rest
      → (if letter lex 0 == c then x else y) ≡ look_up lex (ks ++ rest)
  group c ks rest {x} {y} l a n p q = elim (Bool-cases (letter lex 0 == c)) [
    | inl e ↦
        let h = (==_iff (letter lex 0) c).0 e in rw e (p h ∙ sym (look_up-left c ks rest n l h))
    | inr e ↦ rw e (q ∙ sym (look_up-right c ks rest a (λ h. ground (arith, e, h))))
  ]

ends :
    (lex : Lexer) (c : ℕ)
    → is_alpha c ≡ true
    → (to_lower c ≡ c)
    → lex.start ≤ lex.current
    → is_alpha (lex.text lex.current) ≡ false
    → EndsBefore lex c
unfolding letter is_alpha to_lower
ends lex c a t l n e h = ground (arith, a, t, n, ap (λ i. to_lower (lex.text i)) place ∙ h)
  where
    place : lex.current ≡ lex.start + 2
    place = omega (arith, l, e)

-- identifierType gives a word the type the table of keywords has for it, up to the case of its letters, and every other word is an identifier, provided that the word has a letter and ends before a byte that is no letter.
pub identifier_type-look_up :
    (lex : Lexer)
    → lex.start < lex.current
    → is_alpha (lex.text lex.current) ≡ false
    → identifier_type lex ≡ look_up lex keywords
unfolding identifier_type is_alpha to_lower
identifier_type-look_up lex l n =
    group lex b'a' a_words from_b l refl refl (λ h. after_a_lem lex h (before b'c' refl refl))
      (group lex b'b' b_words from_c l refl refl (λ h. after_b_lem lex h)
        (group lex b'c' c_words from_d l refl refl (λ h. after_c_lem lex h)
          (group lex b'd' d_words from_e l refl refl (λ h. after_d_lem lex h)
            (group lex b'e' e_words from_f l refl refl (λ h. after_e_lem lex h)
              (group lex b'f' f_words from_g l refl refl (λ h. after_f_lem lex h)
                (group lex b'g' g_words from_h l refl refl (λ h. g_word_lem lex h)
                  (group lex b'h' h_words from_i l refl refl (λ h. h_word_lem lex h)
                    (group lex b'i' i_words from_j l refl refl
                      (λ h.
                        after_i_lem lex h (before b'd' refl refl) (before b'n' refl refl)
                          (before b's' refl refl) (before b't' refl refl))
                      (group lex b'j' j_words from_k l refl refl (λ h. j_word_lem lex h)
                        (group lex b'k' k_words from_l l refl refl (λ h. k_word_lem lex h)
                          (group lex b'l' l_words from_n l refl refl (λ h. after_l_lem lex h)
                            (group lex b'n' n_words from_o l refl refl (λ h. after_n_lem lex h)
                              (group lex b'o' o_words from_p l refl refl
                                (λ h. after_o_lem lex h (before b'd' refl refl))
                                (group lex b'p' p_words from_r l refl refl (λ h. after_p_lem lex h)
                                  (group lex b'r' r_words from_s l refl refl
                                    (λ h. after_r_lem lex h)
                                    (group lex b's' s_words from_t l refl refl
                                      (λ h. after_s_lem lex h)
                                      (group lex b't' t_words from_u l refl refl
                                        (λ h. after_t_lem lex h)
                                        (group lex b'u' u_words from_v l refl refl
                                          (λ h. after_u_lem lex h)
                                          (group lex b'v' v_words from_w l refl refl
                                            (λ h. after_v_lem lex h)
                                            (group lex b'w' w_words [] l refl refl
                                              (λ h. w_word_lem lex h) (refl)))))))))))))))))))))
  where
    before : (c : ℕ) → is_alpha c ≡ true → to_lower c ≡ c → EndsBefore lex c
    before c a t = ends lex c a t (omega (arith, l)) n
