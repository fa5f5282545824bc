-- ===== src/Vhdl/Lexer/Advances.antt =====
-- What the scanning loops of the lexer leave: the bytes eaten stand in front of the rest, the offset
-- moves by their count, and the file gets the line starts among them.
use native.Mathlib.Nat.{add-zero}
use jcore_soc.Base.{
  ℕ, suc, ◌+◌, ◌≡◌, refl, sym, ap, ◌∙◌, inl, inr, Bool, true, false, List, [], ◌∷◌, ◌++◌,
  append_assoc, append-nil, arith, ◌==◌, if◌then◌else◌, Bool-cases, length, take, length-append,
  take-append, all, Bytes,
}
use jcore_soc.Vhdl.Source.{File, add_line}
use jcore_soc.Vhdl.Lexer.Scan.{
  Lexer, peek, consume, advance_in, skip, while_from, advance_while, quoted_from, quoted, optional,
  lexeme,
}

-- The offsets behind the newlines of a text that begins at `off`.
abbrev pub line_starts : ℕ → Bytes → List ℕ
line_starts off [] = []
line_starts off (c ∷ cs) =
    let later = line_starts (off + 1) cs in
    elim (c == b'\n') [ true ↦ (off + 1) ∷ later | false ↦ later ]

pub line_starts-append :
    (off : ℕ) (xs ys : Bytes)
    → line_starts off (xs ++ ys) ≡ line_starts off xs ++ line_starts (off + length xs) ys
line_starts-append off [] ys = rw add-zero
line_starts-append off (c ∷ xs) ys =
    ground (arith, line_starts-append (off + 1) xs ys, moved_along off xs ys)
  where
    moved_along :
        (off : ℕ) (xs ys : Bytes)
        → line_starts (off + 1 + length xs) ys ≡ line_starts (off + suc (length xs)) ys
    moved_along off xs ys = ap (λ n. line_starts n ys) (omega arith)

pub record Advances (l l' : Lexer) : Type 0 where
  pub eaten : Bytes
  pub splits : l.rest ≡ eaten ++ l'.rest
  pub moved : l'.off ≡ l.off + length eaten
  pub noted : l'.file ≡ record l.file { lines = l.file.lines ++ line_starts l.off eaten }

pub Advances-refl : (l : Lexer) → Advances l l
Advances-refl l = record {
  eaten = [];
  splits = refl;
  moved = omega arith;
  noted = ap (λ t. record l.file { lines = t }) (sym (append-nil l.file.lines));
}

unfoldable pub Advances-trans : {l m n : Lexer} → Advances l m → Advances m n → Advances l n
Advances-trans {l} {m} {n} a b = record {
  eaten = a.eaten ++ b.eaten;
  splits = a.splits ∙ ap (λ t. a.eaten ++ t) b.splits ∙ sym (append_assoc a.eaten b.eaten n.rest);
  moved = omega (arith, a.moved, b.moved, length-append a.eaten b.eaten);
  noted =
      b.noted
      ∙ ap (λ (f : File). record f { lines = f.lines ++ line_starts m.off b.eaten }) a.noted
      ∙ ap (λ t. record l.file { lines = t })
          (append_assoc l.file.lines (line_starts l.off a.eaten) (line_starts m.off b.eaten)
            ∙ ap (λ t. l.file.lines ++ t)
                (ap (λ n. line_starts l.off a.eaten ++ line_starts n b.eaten) a.moved
                  ∙ sym (line_starts-append l.off a.eaten b.eaten)));
}

pub consume-notes :
    (c off : ℕ) (f : File)
    → (if c == b'\n' then add_line f (off + 1) else f)
      ≡ record f { lines = f.lines ++ line_starts off (c ∷ []) }
unfolding add_line
consume-notes c off f = ground (arith, append-nil f.lines)

unfoldable pub consume-Advances :
    (l : Lexer) (c : ℕ) (cs : Bytes) → l.rest ≡ c ∷ cs → Advances l (consume c cs l)
unfolding consume
consume-Advances l c cs e = record {
  eaten = c ∷ [];
  splits = e;
  moved = omega arith;
  noted = consume-notes c l.off l.file;
}

pub skip-consume : (l : Lexer) (c : ℕ) (cs : Bytes) → l.rest ≡ c ∷ cs → skip l ≡ consume c cs l
unfolding advance_in
skip-consume l c cs e = ap (λ r. (advance_in r l).1) e

pub skip-Advances : (l : Lexer) → Advances l (skip l)
unfolding advance_in
skip-Advances l = go l.rest refl
  where
    go : (cs : Bytes) → l.rest ≡ cs → Advances l (advance_in cs l).1
    go [] e = Advances-refl l
    go (c ∷ cs) e = consume-Advances l c cs e

-- A loop over a class: what is eaten is of the class, and the loop stops at the first byte that
-- is not.
pub record Runs (p : ℕ → Bool) (l l' : Lexer) : Type 0 where
  pub advances : Advances l l'
  pub passes : all p advances.eaten ≡ true
  pub stops : (c : ℕ) (cs : Bytes) → l'.rest ≡ c ∷ cs → p c ≡ false

all-append :
    (p : ℕ → Bool) (xs ys : Bytes) → all p xs ≡ true → all p ys ≡ true → all p (xs ++ ys) ≡ true
all-append p [] ys hx hy = hy
all-append p (x ∷ xs) ys hx hy = ground (arith, all-append p xs ys)

while_from-Runs :
    (p : ℕ → Bool) (cs : Bytes) (l : Lexer) → l.rest ≡ cs → Runs p l (while_from p cs l)
unfolding while_from Advances-refl Advances-trans consume-Advances
while_from-Runs p [] l e = record {
  advances = Advances-refl l;
  passes = refl;
  stops = λ d ds h. cc (e, h);
}
while_from-Runs p (c ∷ cs) l e = elim (Bool-cases (p c)) [
  | inl h ↦
      rw (h, while_from) (run_on h (while_from-Runs p cs (consume c cs l) (unfold consume in refl)))
  | inr h ↦
      rw (h, while_from)
        (record {
          advances = Advances-refl l;
          passes = refl;
          stops = λ d ds g. head_fails h d ds (sym e ∙ g);
        })
]
  where
    head_fails :
        p c ≡ false → (d : ℕ) (ds : Bytes) → ◌≡◌ {A = Bytes} (c ∷ cs) (d ∷ ds) → p d ≡ false
    head_fails h d ds g = ground arith

    run_on :
        p c ≡ true
        → Runs p (consume c cs l) (while_from p cs (consume c cs l))
        → Runs p l (while_from p cs (consume c cs l))
    run_on h r = record {
      advances = Advances-trans (consume-Advances l c cs e) r.advances;
      passes = all-append p (c ∷ []) r.advances.eaten (ground arith) r.passes;
      stops = r.stops;
    }

pub advance_while-Runs : (p : ℕ → Bool) (l : Lexer) → Runs p l (advance_while p l)
advance_while-Runs p l = while_from-Runs p l.rest l refl

pub advance_while-Advances : (p : ℕ → Bool) (l : Lexer) → Advances l (advance_while p l)
advance_while-Advances p l = (advance_while-Runs p l).advances

quoted_from-Advances :
    (q : ℕ) (cs : Bytes) (l : Lexer) → l.rest ≡ cs → Advances l (quoted_from q cs l)
unfolding quoted_from
quoted_from-Advances q [] l e = Advances-refl l
quoted_from-Advances q (c ∷ []) l e = consume-Advances l c [] e
quoted_from-Advances q (c ∷ d ∷ cs) l e =
    let l1 = consume c (d ∷ cs) l in
    let one = consume-Advances l c (d ∷ cs) e in
    let at_d : l1.rest ≡ d ∷ cs = unfold consume in refl in
    let two = Advances-trans one (consume-Advances l1 d cs at_d) in
    let plain = Advances-trans one (quoted_from-Advances q (d ∷ cs) l1 at_d) in
    let escaped =
      Advances-trans two (quoted_from-Advances q cs (consume d cs l1) (unfold consume in refl)) in
    elim (Bool-cases (c == q)) [
      | inl h ↦ elim (Bool-cases (d == q)) [
        | inl k ↦ rw (h, quoted_from, k) escaped
        | inr k ↦ rw (h, quoted_from, k) one
      ]
      | inr h ↦ rw (h, quoted_from) plain
    ]

pub quoted-Advances : (q : ℕ) (l : Lexer) → Advances l (quoted q l)
quoted-Advances q l = quoted_from-Advances q l.rest l refl

pub optional-Advances : (p : ℕ → Bool) (l : Lexer) → Advances l (optional p l)
optional-Advances p l = elim (Bool-cases (p (peek l))) [
  | inl h ↦ rw h (skip-Advances l)
  | inr h ↦ rw h (Advances-refl l)
]

-- The literal of a token is what was eaten since its start.
pub lexeme-eaten : {l l' : Lexer} (a : Advances l l') → lexeme l l' ≡ a.eaten
unfolding lexeme
lexeme-eaten {l} {l'} a =
    rw a.splits
      (ap (λ n. take n (a.eaten ++ l'.rest)) (omega (arith, a.moved)) ∙ take-append a.eaten l'.rest)
