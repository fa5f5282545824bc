-- ===== src/Vhdl/TokenStream/Tiles.antt =====
-- The tokens of a source tile it, and the cap of `newParser` is never met.
use jcore_soc.Base.{
  ℕ, zero, suc, ◌+◌, ◌<◌, ◌≡◌, refl, sym, ap, subst, ◌∙◌, inl, inr, true, false, List, [], ◌∷◌,
  ◌++◌, append-nil, arith, Bool-cases, length, length-append, all, Bytes,
}
use jcore_soc.Vhdl.Kind.{is_eof, is_comment, comment, eof, Kind}
use jcore_soc.Vhdl.Source.{File, Token}
use jcore_soc.Vhdl.Lexer.{next}
use jcore_soc.Vhdl.Lexer.Scan.{Lexer, new_lexer, is_blank}
use jcore_soc.Vhdl.Lexer.Advances.{Advances, Advances-trans, line_starts}
use jcore_soc.Vhdl.Lexer.Spelling.{spelling, SpellsAs, Spells}
use jcore_soc.Vhdl.Lexer.Next.{Reads, progress, finished, next-Reads}
use jcore_soc.Vhdl.TokenStream.{collect, max_iters, new_parser}

-- The text `s` at position `p` is white space, comments and the texts of the tokens `ts`, in order,
-- and the last token is an EOF at its end.
pub data Tiles : ℕ → Bytes → List Token → Type 0 where
  ends :
      {p : ℕ} {s : Bytes} {t : Token}
      → all is_blank s ≡ true
      → is_eof t.kind ≡ true
      → t.pos ≡ p + length s
      → Tiles p s (t ∷ [])
  drops :
      {p : ℕ} {s : Bytes} {ts : List Token} (t : Token) (blanks text rest : Bytes)
      → s ≡ blanks ++ (text ++ rest)
      → all is_blank blanks ≡ true
      → is_comment t.kind ≡ true
      → Spells t text
      → Tiles (p + length blanks + length text) rest ts
      → Tiles p s ts
  takes :
      {p : ℕ} {s : Bytes} {t : Token} {ts : List Token} (blanks text rest : Bytes)
      → s ≡ blanks ++ (text ++ rest)
      → all is_blank blanks ≡ true
      → is_comment t.kind ≡ false
      → is_eof t.kind ≡ false
      → Spells t text
      → t.pos ≡ p + length blanks
      → Tiles (p + length blanks + length text) rest ts
      → Tiles p s (t ∷ ts)

comment-not_eof : (k : Kind) → is_comment k ≡ true → is_eof k ≡ false
comment-not_eof comment h = refl
comment-not_eof _ h = cc

base-kept : {l l' : Lexer} → Advances l l' → l'.file.base ≡ l.file.base
base-kept a = ap (λ (f : File). f.base) a.noted

shorter :
    {l l' : Lexer} {t : Token}
    → Reads l t l'
    → is_eof t.kind ≡ false
    → length l'.rest < length l.rest
shorter {l} {l'} r h =
    let a = r.advances in
    omega (arith, progress r h, a.moved, ap length a.splits, length-append a.eaten l'.rest)

-- The text behind `Next`, at its position.
on_at :
    {l l' : Lexer} {t : Token} {ts : List Token} (r : Reads l t l')
    → Tiles (l'.file.base + l'.off) l'.rest ts
    → Tiles (l.file.base + l.off + length r.blanks + length r.text) l'.rest ts
on_at {l} {l'} {ts = ts} r =
    subst (λ p. Tiles p l'.rest ts) (omega (arith, base-kept r.advances, r.moved))

eof-text : (k : Kind) (t : Token) {s : Bytes} → is_eof k ≡ true → SpellsAs (spelling k) t s → s ≡ []
eof-text eof t h x = x.1
eof-text _ t h x = cc

-- At an EOF only white space is left.
eof-rest : {l l' : Lexer} {t : Token} (r : Reads l t l') → is_eof t.kind ≡ true → l.rest ≡ r.blanks
eof-rest {l} {l'} {t} r h =
    r.splits
    ∙ ap (λ s. r.blanks ++ (s ++ l'.rest)) (eof-text t.kind t h r.spells)
    ∙ ap (λ s. r.blanks ++ s) (finished r h)
    ∙ append-nil r.blanks

ends_at :
    {l l' : Lexer} {t : Token}
    → Reads l t l'
    → is_eof t.kind ≡ true
    → Tiles (l.file.base + l.off) l.rest (t ∷ [])
ends_at {l} {l'} {t} r h =
    let e = eof-rest r h in
    ends (ap (all is_blank) e ∙ r.blank) h (omega (arith, r.placed, ap length e))

collect-Tiles :
    (rounds : ℕ) (l : Lexer)
    → length l.rest < rounds
    → Tiles (l.file.base + l.off) l.rest (collect rounds l).0
unfolding collect
collect-Tiles zero l h = absurd (omega arith)
collect-Tiles (suc rounds) l h =
    let r = next-Reads l in
    let t = (next l).0 in
    elim (Bool-cases (is_comment t.kind)) [
      | inl c ↦
          rw (c, collect)
            (drops t r.blanks r.text _ r.splits r.blank c r.spells (
              on_at r (
                collect-Tiles rounds (next l).1
                  (omega (arith, shorter r (comment-not_eof t.kind c))))))
      | inr c ↦ elim (Bool-cases (is_eof t.kind)) [
        | inl e ↦ rw (c, collect, e) (ends_at (next-Reads l) e)
        | inr e ↦
            rw (c, collect, e)
              (takes r.blanks r.text _ r.splits r.blank c e r.spells (omega (arith, r.placed))
                (on_at r (collect-Tiles rounds (next l).1 (omega (arith, shorter r e)))))
      ]
    ]

-- Behind the last token the source is read.
record Finishes (l l' : Lexer) : Type 0 where
  advances : Advances l l'
  empty : l'.rest ≡ []

Finishes-after : {l m n : Lexer} → Advances l m → Finishes m n → Finishes l n
Finishes-after a f = record { advances = Advances-trans a f.advances; empty = f.empty }

collect-Finishes :
    (rounds : ℕ) (l : Lexer) → length l.rest < rounds → Finishes l (collect rounds l).1
unfolding collect
collect-Finishes zero l h = absurd (omega arith)
collect-Finishes (suc rounds) l h =
    let r = next-Reads l in
    let t = (next l).0 in
    elim (Bool-cases (is_comment t.kind)) [
      | inl c ↦
          rw (c, collect)
            (Finishes-after r.advances (
              collect-Finishes rounds (next l).1
                (omega (arith, shorter r (comment-not_eof t.kind c)))))
      | inr c ↦ elim (Bool-cases (is_eof t.kind)) [
        | inl e ↦ rw (c, collect, e) (record { advances = r.advances; empty = finished r e })
        | inr e ↦
            rw (c, collect, e)
              (Finishes-after r.advances
                (collect-Finishes rounds (next l).1 (omega (arith, shorter r e))))
      ]
    ]

module _ (src : Bytes) (f : File) where
  -- The tokens of `newParser` tile the source: white space, comments and the texts of the tokens, each
  -- at its position, are the whole source in order, and the last token is an EOF at its end, so the
  -- cap is never met.
  pub new_parser-Tiles : Tiles f.base src (new_parser src f).toks
  unfolding new_parser
  new_parser-Tiles =
      subst (λ p. Tiles p src (collect (suc (max_iters src)) (new_lexer src f)).0) (omega arith)
        (collect-Tiles (suc (max_iters src)) (new_lexer src f) (omega arith))

  -- The file gets the start of every line of the source.
  pub lines-new_parser : (new_parser src f).file ≡ record f { lines = f.lines ++ line_starts 0 src }
  unfolding new_parser
  lines-new_parser =
      let x = collect-Finishes (suc (max_iters src)) (new_lexer src f) (omega arith) in
      x.advances.noted
      ∙ ap (λ s. record f { lines = f.lines ++ line_starts 0 s })
          (sym (x.advances.splits ∙ ap (λ s. x.advances.eaten ++ s) x.empty ∙ append-nil _))
