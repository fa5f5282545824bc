-- ===== src/Vhdl/Lexer/Delimiters.antt =====
-- The tokens of one, two or three bytes that the switch of `Next` returns.
use mathlib.Core.Path.{ap₂}
use jcore_soc.Base.{
  ℕ, suc, ◌-◌, ◌<◌, ◌≡◌, refl, sym, ap, subst, ◌∙◌, inl, inr, false, Option, none, some, [], ◌∷◌,
  ◌++◌, append-nil, arith, ◌==◌, ==_iff, Bool-cases, Option-cases, Bytes,
}
use jcore_soc.Vhdl.Kind.{Kind, illegal, char_lit, less_eq, less, tick, box, kind_str, is_eof}
use jcore_soc.Vhdl.Lexer.{
  rune_text, emit_bare, emit_lit, single_kind, Munch, munch_of, munch, lex_less, lex_tick,
  lex_compound, lex_delimiter,
}
use jcore_soc.Vhdl.Lexer.Scan.{Lexer, peek, peek_at, skip, advance_in, advance, is_name_end}
use jcore_soc.Vhdl.Lexer.Advances.{Advances, Advances-trans, skip-consume, consume-Advances}
use jcore_soc.Vhdl.Lexer.Spelling.{
  spelling, fixed, transcribed, transcribe, Advances-le, off-skip, rest-skip,
}
use jcore_soc.Vhdl.Lexer.Literals.{LexesAt}

-- From `l` to `m` exactly the text `s` is eaten.
record Eats (l : Lexer) (s : Bytes) (m : Lexer) : Type 0 where
  advances : Advances l m
  exact : advances.eaten ≡ s

skip-Eats : (l : Lexer) (c : ℕ) (cs : Bytes) → l.rest ≡ c ∷ cs → Eats l (c ∷ []) (skip l)
unfolding consume-Advances
skip-Eats l c cs e =
    subst (λ m. Eats l (c ∷ []) m) (sym (skip-consume l c cs e))
      (record { advances = consume-Advances l c cs e; exact = refl })

Eats-trans : {l m n : Lexer} {s t : Bytes} → Eats l s m → Eats m t n → Eats l (s ++ t) n
unfolding Advances-trans
Eats-trans {s = s} a b = record {
  advances = Advances-trans a.advances b.advances;
  exact = ap (λ x. x ++ b.advances.eaten) a.exact ∙ ap (λ x. s ++ x) b.exact;
}

-- A peeked byte that is not 0 is there.
peek-there : (l : Lexer) (q : ℕ) → peek l ≡ suc q → (cs : Bytes) × (l.rest ≡ suc q ∷ cs)
peek-there l q h = go l.rest refl
  where
    go : (r : Bytes) → l.rest ≡ r → (cs : Bytes) × (l.rest ≡ suc q ∷ cs)
    go [] e = cc (rw e at h)
    go (c ∷ cs) e = (cs, e ∙ ap (λ x. x ∷ cs) (rw e at h))

-- The byte behind the next one.
second-there :
    (l : Lexer) (q : ℕ) → peek_at l 1 ≡ suc q → (ds : Bytes) × (l.rest ≡ (advance l).0 ∷ suc q ∷ ds)
unfolding advance_in
second-there l q h = go l.rest refl
  where
    go : (r : Bytes) → l.rest ≡ r → (ds : Bytes) × (l.rest ≡ (advance l).0 ∷ suc q ∷ ds)
    go [] e = cc (rw e at h)
    go (c ∷ []) e = cc (rw e at h)
    go (c ∷ d ∷ ds) e =
        (ds, e ∙ ap₂ (λ x y. x ∷ y ∷ ds) (ap (λ r. (advance_in r l).0) (sym e)) (rw e at h))

bare-Lexes :
    (k : Kind) (l m : Lexer) {s : Bytes}
    → Eats l s m
    → spelling k ≡ fixed
    → kind_str k ≡ s
    → is_eof k ≡ false
    → l.off < m.off
    → LexesAt l (emit_bare k l m)
bare-Lexes k l m e f t n lt = record {
  advances = record {
    eaten = e.advances.eaten;
    splits = e.advances.splits;
    moved = e.advances.moved;
    noted = e.advances.noted;
  };
  spells = rw f (refl, t ∙ sym e.exact);
  placed = refl;
  progress = lt;
  not_eof = n;
}

single_kind-fixed :
    (c : ℕ) (k : Kind)
    → single_kind c ≡ some k
    → (spelling k ≡ fixed) × (kind_str k ≡ c ∷ []) × (is_eof k ≡ false)
unfolding single_kind kind_str
single_kind-fixed c k h = ground arith

-- What a delimiter's kind has to be for the text `s`.
abbrev IsFor : Kind → Bytes → Type 0
IsFor k s = (spelling k ≡ fixed) × (kind_str k ≡ s) × (is_eof k ≡ false)

record IsMunch (c : ℕ) (m : Munch) : Type 0 where
  visible : m.second ≡ suc (m.second - 1)
  long : IsFor m.long (c ∷ m.second ∷ [])
  short : IsFor m.short (c ∷ [])

munch_of-IsMunch : (c : ℕ) (m : Munch) → munch_of c ≡ some m → IsMunch c m
unfolding munch_of kind_str
munch_of-IsMunch c m h = ground arith

module _ (l : Lexer) (c : ℕ) (cs : Bytes) (at : l.rest ≡ c ∷ cs) where
  one-Lexes : (k : Kind) → IsFor k (c ∷ []) → LexesAt l (emit_bare k l (skip l))
  one-Lexes k f =
      bare-Lexes k l (skip l) (skip-Eats l c cs at) f.0 f.1 f.2 (omega (arith, off-skip l c cs at))

  two-Lexes :
      (k : Kind) (q : ℕ)
      → peek (skip l) ≡ q
      → q ≡ suc (q - 1)
      → IsFor k (c ∷ q ∷ [])
      → LexesAt l (emit_bare k l (skip (skip l)))
  two-Lexes k q h v f =
      let (ds, there) = peek-there (skip l) (q - 1) (h ∙ v) in
      let at_q : (skip l).rest ≡ q ∷ ds = there ∙ ap (λ x. x ∷ ds) (sym v) in
      bare-Lexes k l (skip (skip l))
        (Eats-trans (skip-Eats l c cs at) (skip-Eats (skip l) q ds at_q)) f.0 f.1 f.2
        (omega (arith, off-skip l c cs at, off-skip (skip l) q ds at_q))

  munch-Lexes : (m : Munch) → munch_of c ≡ some m → LexesAt l (munch m l (skip l))
  unfolding munch
  munch-Lexes m h =
      let is = munch_of-IsMunch c m h in
      elim (Bool-cases (peek (skip l) == m.second)) [
        | inl y ↦ rw y (two-Lexes m.long m.second ((==_iff _ _).0 y) is.visible is.long)
        | inr n ↦ rw n (one-Lexes m.short is.short)
      ]

  lex_less-Lexes : c ≡ b'<' → LexesAt l (lex_less l (skip l))
  unfolding lex_less kind_str
  lex_less-Lexes h = elim (Bool-cases (peek (skip l) == b'=')) [
    | inl y ↦ rw y (two-Lexes less_eq b'=' ((==_iff _ _).0 y) (omega arith) (refl, rw h, refl))
    | inr n ↦ rw n (elim (Bool-cases (peek (skip l) == b'>')) [
      | inl y ↦ rw y (two-Lexes box b'>' ((==_iff _ _).0 y) (omega arith) (refl, rw h, refl))
      | inr n ↦ rw n (one-Lexes less (refl, rw h, refl))
    ])
  ]

  -- A token whose literal is transcribed from the text eaten.
  transcribed-Lexes :
      (k : Kind) (m : Lexer) (s : Bytes)
      → Eats l s m
      → spelling k ≡ transcribed
      → is_eof k ≡ false
      → l.off < m.off
      → LexesAt l (emit_lit k (transcribe s) l m)
  transcribed-Lexes k m s e f n lt = record {
    advances = record {
      eaten = e.advances.eaten;
      splits = e.advances.splits;
      moved = e.advances.moved;
      noted = e.advances.noted;
    };
    spells = rw f (ap transcribe (sym e.exact));
    placed = refl;
    progress = lt;
    not_eof = n;
  }

  lex_char-Lexes :
      c ≡ b'\''
      → peek_at (skip l) 1 ≡ b'\''
      → LexesAt l (
          emit_lit char_lit
            (b'\'' ∷ (rune_text (advance (skip l)).0 ++ b'\'' ∷ []))
            l
            (skip (skip (skip l))))
  unfolding rune_text
  lex_char-Lexes h p =
      let ch = (advance (skip l)).0 in
      let (ds, there) = second-there (skip l) 38 (p ∙ omega arith) in
      let close = rest-skip (skip l) ch (suc 38 ∷ ds) there in
      let tail =
        Eats-trans (skip-Eats (skip l) ch (suc 38 ∷ ds) there)
          (skip-Eats (skip (skip l)) (suc 38) ds close) in
      let whole = Eats-trans (skip-Eats l c cs at) tail in
      let lit_eq : transcribe (c ∷ ch ∷ 39 ∷ []) ≡ b'\'' ∷ (rune_text ch ++ b'\'' ∷ []) =
        rw h refl in
      subst (λ t. LexesAt l (emit_lit char_lit t l (skip (skip (skip l))))) lit_eq
        (transcribed-Lexes char_lit (skip (skip (skip l))) (c ∷ ch ∷ 39 ∷ []) whole refl refl
          (omega (arith, off-skip l c cs at, Advances-le tail.advances)))

  lex_tick-Lexes : c ≡ b'\'' → LexesAt l (lex_tick l (skip l))
  unfolding lex_tick kind_str
  lex_tick-Lexes h = elim (Bool-cases (is_name_end (skip l).prev_kind)) [
    | inl y ↦ rw y (one-Lexes tick (refl, rw h, refl))
    | inr n ↦ rw n (elim (Bool-cases (peek_at (skip l) 1 == b'\'')) [
      | inl y ↦ rw y (lex_char-Lexes h ((==_iff _ _).0 y))
      | inr n ↦ rw n (one-Lexes tick (refl, rw h, refl))
    ])
  ]

  lex_compound-Lexes : (m : Option Munch) → munch_of c ≡ m → LexesAt l (lex_compound m c l (skip l))
  unfolding lex_compound
  lex_compound-Lexes (some m) h = munch-Lexes m h
  lex_compound-Lexes none h = elim (Bool-cases (c == b'\'')) [
    | inl y ↦ rw y (lex_tick-Lexes ((==_iff _ _).0 y))
    | inr n ↦ rw n (elim (Bool-cases (c == b'<')) [
      | inl y ↦ rw y (lex_less-Lexes ((==_iff _ _).0 y))
      | inr n ↦ rw n (
          subst (λ t. LexesAt l (emit_lit illegal t l (skip l))) (append-nil (rune_text c))
            (transcribed-Lexes illegal (skip l) (c ∷ []) (skip-Eats l c cs at) refl refl
              (omega (arith, off-skip l c cs at))))
    ])
  ]

  pub lex_delimiter-Lexes : LexesAt l (lex_delimiter c l (skip l))
  unfolding lex_delimiter
  lex_delimiter-Lexes = elim (Option-cases (single_kind c)) [
    | inl e ↦ rw (e, lex_delimiter) (lex_compound-Lexes (munch_of c) refl)
    | inr (k, e) ↦ rw (e, lex_delimiter) (one-Lexes k (single_kind-fixed c k e))
  ]
