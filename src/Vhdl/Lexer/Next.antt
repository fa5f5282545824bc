-- ===== src/Vhdl/Lexer/Next.antt =====
-- `Next`: what one call reads.
use jcore_soc.Base.{
  ℕ, ◌+◌, ◌<◌, ◌≡◌, refl, sym, ap, ◌∙◌, ◌⊎◌, inl, inr, Bool, true, false, ◌&&◌, [], ◌∷◌, ◌++◌,
  arith, ◌==◌, Bool-cases, length, all, Bytes,
}
use jcore_soc.Vhdl.Kind.{eof, is_eof}
use jcore_soc.Vhdl.Source.{File, pos, Token}
use jcore_soc.Vhdl.Lexer.{emit_bare, lex_at, lex_token, next, skip_blanks}
use jcore_soc.Vhdl.Lexer.Scan.{Lexer, peek_at, is_letter, is_digit, is_blank}
use jcore_soc.Vhdl.Lexer.Advances.{Advances, Runs, Advances-trans, advance_while-Runs}
use jcore_soc.Vhdl.Lexer.Spelling.{Spells, Lexes}
use jcore_soc.Vhdl.Lexer.Literals.{
  LexesAt, lex_comment-Lexes, lex_ext_ident-Lexes, lex_string-Lexes, lex_word-Lexes,
  lex_number-Lexes,
}
use jcore_soc.Vhdl.Lexer.Delimiters.{lex_delimiter-Lexes}

-- The first byte, if there is one, is of the class.
abbrev pub begins : (ℕ → Bool) → Bytes → Bool
begins p [] = false
begins p (c ∷ cs) = p c

-- One call of `Next`: all white space in front is skipped, and the token stands for the text behind it.
pub record Reads (l : Lexer) (t : Token) (l' : Lexer) : Type 0 where
  pub blanks : Bytes
  pub text : Bytes
  pub splits : l.rest ≡ blanks ++ (text ++ l'.rest)
  pub blank : all is_blank blanks ≡ true
  pub tight : begins is_blank (text ++ l'.rest) ≡ false
  pub spells : Spells t text
  pub placed : t.pos ≡ pos l.file (l.off + length blanks)
  pub advances : Advances l l'
  pub moved : l'.off ≡ l.off + length blanks + length text
  pub outcome :
      ((is_eof t.kind ≡ true) × (l'.rest ≡ [])) ⊎ ((is_eof t.kind ≡ false) × (l.off < l'.off))

pub progress : {l l' : Lexer} {t : Token} → Reads l t l' → is_eof t.kind ≡ false → l.off < l'.off
progress r e = elim (r.outcome) [ inl a ↦ absurd (cc (e, a.0)) | inr b ↦ b.1 ]

pub finished : {l l' : Lexer} {t : Token} → Reads l t l' → is_eof t.kind ≡ true → l'.rest ≡ []
finished r e = elim (r.outcome) [ inl a ↦ a.1 | inr b ↦ absurd (cc (e, b.0)) ]

lex_at-Lexes : (l : Lexer) (c : ℕ) (cs : Bytes) → l.rest ≡ c ∷ cs → LexesAt l (lex_at c l)
unfolding lex_at
lex_at-Lexes l c cs at = elim (Bool-cases (c == b'-' && peek_at l 1 == b'-')) [
  | inl y ↦ rw y (lex_comment-Lexes l c cs at (not_newline y))
  | inr n ↦ rw n (elim (Bool-cases (c == b'\\')) [
    | inl y ↦ rw y (lex_ext_ident-Lexes l c cs at)
    | inr n ↦ rw n (elim (Bool-cases (c == b'"')) [
      | inl y ↦ rw y (lex_string-Lexes l c cs at)
      | inr n ↦ rw n (elim (Bool-cases (is_letter c)) [
        | inl y ↦ rw y (lex_word-Lexes l c cs at y)
        | inr n ↦ rw n (elim (Bool-cases (is_digit c)) [
          | inl y ↦ rw y (lex_number-Lexes l c cs at y)
          | inr n ↦ rw n (lex_delimiter-Lexes l c cs at)
        ])
      ])
    ])
  ])
]
  where
    not_newline : (c == b'-' && peek_at l 1 == b'-') ≡ true → (c == b'\n') ≡ false
    not_newline h = ground arith

ReadsAt : Lexer → Token × Lexer → Type 0
ReadsAt l r = Reads l r.0 r.1

Runs-begins : {p : ℕ → Bool} {l m : Lexer} → Runs p l m → begins p m.rest ≡ false
Runs-begins {p} {l} {m} r = go m.rest refl
  where
    go : (s : Bytes) → m.rest ≡ s → begins p s ≡ false
    go [] e = refl
    go (c ∷ cs) e = r.stops c cs e

token-Reads : (l m : Lexer) (t : Token) (n : Lexer) → Runs is_blank l m → Lexes m t n → Reads l t n
token-Reads l m t n r x = record {
  blanks = r.advances.eaten;
  text = x.advances.eaten;
  splits = r.advances.splits ∙ ap (λ s. r.advances.eaten ++ s) x.advances.splits;
  blank = r.passes;
  tight = ap (begins is_blank) (sym x.advances.splits) ∙ Runs-begins r;
  spells = x.spells;
  placed = omega (arith, x.placed, ap (λ (f : File). f.base) r.advances.noted, r.advances.moved);
  advances = Advances-trans r.advances x.advances;
  moved = omega (arith, r.advances.moved, x.advances.moved);
  outcome = inr (x.not_eof, omega (arith, r.advances.moved, x.progress));
}

end-Reads : (l m : Lexer) → Runs is_blank l m → m.rest ≡ [] → ReadsAt l (emit_bare eof m m)
unfolding ReadsAt
end-Reads l m r ended = record {
  blanks = r.advances.eaten;
  text = [];
  splits = r.advances.splits;
  blank = r.passes;
  tight = Runs-begins r;
  spells = (refl, refl);
  placed = omega (arith, ap (λ (f : File). f.base) r.advances.noted, r.advances.moved);
  advances = record {
    eaten = r.advances.eaten;
    splits = r.advances.splits;
    moved = r.advances.moved;
    noted = r.advances.noted;
  };
  moved = omega (arith, r.advances.moved);
  outcome = inl (refl, ended);
}

lex_token-Reads :
    (l m : Lexer) (s : Bytes) → Runs is_blank l m → m.rest ≡ s → ReadsAt l (lex_token s m)
unfolding lex_token ReadsAt
lex_token-Reads l m [] r e = end-Reads l m r e
lex_token-Reads l m (c ∷ cs) r e = token-Reads l m _ _ r (lex_at-Lexes m c cs e)

-- One call of `Next` skips white space until none is in front and gives a token that stands for the
-- text behind it, at its position, moves past exactly that text, and either is not at EOF and made
-- progress or gives EOF at the end of the source.
pub next-Reads : (l : Lexer) → Reads l (next l).0 (next l).1
unfolding next ReadsAt
next-Reads l =
    lex_token-Reads l (skip_blanks l) (skip_blanks l).rest (advance_while-Runs is_blank l) refl
