-- ===== src/Vhdl/Lexer/Literals.antt =====
-- The tokens whose literal is their text: comments, quoted texts, words and numbers.
use jcore_soc.Base.{
  ℕ, ◌<◌, ◌≡◌, refl, inl, inr, true, false, not, ◌&&◌, ◌∷◌, arith, ◌==◌, Bool-cases, Option-cases,
  Bytes,
}
use jcore_soc.Vhdl.Kind.{
  Kind, eof, comment, ext_ident, int_lit, real_lit, based_lit, string_lit, bit_string_lit, is_eof,
}
use jcore_soc.Vhdl.Token.{lookup_keyword}
use jcore_soc.Vhdl.Token.Lookup.{lookup_keyword_iff}
use jcore_soc.Vhdl.Source.{Token}
use jcore_soc.Vhdl.Lexer.{
  emit_text, lex_comment, lex_ext_ident, lex_string, lex_word, lex_number, is_base_letter,
  word_kind, exponent, optional_exponent, is_sign, is_hash, is_exp_mark,
}
use jcore_soc.Vhdl.Lexer.Scan.{
  Lexer, peek, peek_at, skip, advance_while, quoted, lexeme, is_ident_cont, is_letter, is_digit,
  is_digit_cont, is_based_digit,
}
use jcore_soc.Vhdl.Lexer.Advances.{
  Advances, Advances-trans, Advances-refl, skip-Advances, advance_while-Runs,
  advance_while-Advances, quoted-Advances, optional-Advances,
}
use jcore_soc.Vhdl.Lexer.Spelling.{
  spelling, copied, Lexes, Advances-le, off-skip, Runs-lt, emit_text-Lexes, keyword-copied,
}

-- What a lexing function returns at `l`.
abbrev pub LexesAt : Lexer → Token × Lexer → Type 0
LexesAt l r = Lexes l r.0 r.1

module _ (l : Lexer) (c : ℕ) (cs : Bytes) (at : l.rest ≡ c ∷ cs) where
  -- More may be read behind the first byte.
  skip-lt : {m : Lexer} → Advances (skip l) m → l.off < m.off
  skip-lt a = omega (arith, off-skip l c cs at, Advances-le a)

  pub lex_comment-Lexes : (c == b'\n') ≡ false → LexesAt l (lex_comment l)
  unfolding lex_comment
  lex_comment-Lexes h =
      let r = advance_while-Runs (λ d. not (d == b'\n')) l in
      emit_text-Lexes comment l _ r.advances refl refl (Runs-lt c cs r at (rw h))

  quoted-Lexes :
      (k : Kind) (q : ℕ)
      → spelling k ≡ copied
      → is_eof k ≡ false
      → LexesAt l (emit_text k l (quoted q (skip l)))
  quoted-Lexes k q s n =
      let a = quoted-Advances q (skip l) in
      emit_text-Lexes k l _ (Advances-trans (skip-Advances l) a) s n (skip-lt a)

  pub lex_ext_ident-Lexes : LexesAt l (lex_ext_ident l)
  unfolding lex_ext_ident
  lex_ext_ident-Lexes = quoted-Lexes ext_ident b'\\' refl refl

  pub lex_string-Lexes : LexesAt l (lex_string l)
  unfolding lex_string
  lex_string-Lexes = quoted-Lexes string_lit b'"' refl refl

word_kind-copied :
    (s : Bytes)
    → (spelling (word_kind (lookup_keyword s)) ≡ copied)
      × (is_eof (word_kind (lookup_keyword s)) ≡ false)
word_kind-copied s = elim (Option-cases (lookup_keyword s)) [
  | inl e ↦ rw e (refl, refl)
  | inr (k, e) ↦
      let is : spelling k ≡ copied = keyword-copied k ((lookup_keyword_iff s k).0 e).0 in
      rw e (is, copied-not_eof k is)
]
  where
    copied-not_eof : (k : Kind) → spelling k ≡ copied → is_eof k ≡ false
    copied-not_eof eof h = cc
    copied-not_eof _ h = refl

exponent-Advances : (l : Lexer) → Advances l (exponent l)
unfolding exponent
exponent-Advances l =
    Advances-trans (skip-Advances l)
      (Advances-trans (optional-Advances is_sign (skip l)) (advance_while-Advances is_digit _))

optional_exponent-Advances : (l : Lexer) → Advances l (optional_exponent l)
optional_exponent-Advances l = elim (Bool-cases (is_exp_mark (peek l))) [
  | inl h ↦ rw h (exponent-Advances l)
  | inr h ↦ rw h (Advances-refl l)
]

module _ (l : Lexer) (c : ℕ) (cs : Bytes) (at : l.rest ≡ c ∷ cs) where
  pub lex_word-Lexes : is_letter c ≡ true → LexesAt l (lex_word l)
  unfolding lex_word is_ident_cont
  lex_word-Lexes h =
      let r = advance_while-Runs is_ident_cont l in
      let lt = Runs-lt c cs r at (unfold is_ident_cont in rw h) in
      let e = advance_while is_ident_cont l in
      let w = word_kind-copied (lexeme l e) in
      let q = Advances-trans (skip-Advances e) (quoted-Advances b'"' (skip e)) in
      elim (Bool-cases (is_base_letter (lexeme l e) && peek e == b'"')) [
        | inl y ↦ rw y (
            emit_text-Lexes bit_string_lit l _ (Advances-trans r.advances q) refl refl
              (omega (arith, lt, Advances-le q)))
        | inr n ↦
            rw n
              (emit_text-Lexes (word_kind (lookup_keyword (lexeme l e))) l e r.advances w.0 w.1 lt)
      ]

  pub lex_number-Lexes : is_digit c ≡ true → LexesAt l (lex_number l)
  unfolding lex_number
  lex_number-Lexes h =
      let r = advance_while-Runs is_digit_cont l in
      let lt = Runs-lt c cs r at (rw h) in
      let e = advance_while is_digit_cont l in
      let on =
        λ (m : Lexer) (k : Kind) (s : spelling k ≡ copied) (n : is_eof k ≡ false)
            (a : Advances e m).
          emit_text-Lexes k l m (Advances-trans r.advances a) s n
            (omega (arith, lt, Advances-le a)) in
      elim (Bool-cases (peek e == b'#')) [
        | inl y ↦ rw y (
            on _ based_lit refl refl (
              Advances-trans (skip-Advances e) (
                Advances-trans (advance_while-Advances is_based_digit (skip e))
                  (Advances-trans (optional-Advances is_hash _) (optional_exponent-Advances _)))))
        | inr n ↦ rw n (elim (Bool-cases (peek e == b'.' && is_digit (peek_at e 1))) [
          | inl y ↦ rw y (
              on _ real_lit refl refl (
                Advances-trans (skip-Advances e) (
                  Advances-trans (advance_while-Advances is_digit_cont (skip e))
                    (optional_exponent-Advances _))))
          | inr n ↦ rw n (elim (Bool-cases (is_exp_mark (peek e))) [
            | inl y ↦ rw y (on _ real_lit refl refl (exponent-Advances e))
            | inr n ↦ rw n (on e int_lit refl refl (Advances-refl e))
          ])
        ])
      ]
