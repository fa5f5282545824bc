-- ===== src/Vhdl/Parser/Expr/ListPhrases.antt =====
-- tools/socgen/vhdl/parser.go: aggregates and argument lists of the grammar are read, given that the
-- expressions in them are.
use jcore_soc.Base.{
  ℕ, zero, suc, ◌+◌, ◌≤◌, ◌<◌, ◌≡◌, refl, ap, ◌∙◌, true, false, ◌||◌, List, [], ◌∷◌, ◌++◌,
  append_assoc, arith, length, length-append, Bytes,
}
use jcore_soc.Vhdl.Kind.{Kind}
use jcore_soc.Vhdl.Kind.Code.{kind_code, same_kind}
use jcore_soc.Vhdl.Source.{Token}
use jcore_soc.Vhdl.Ast.{Expr}
use jcore_soc.Vhdl.Parser.{State, ParseError, Parse, at, advance, left}
use jcore_soc.Vhdl.Parser.Loop.{items_from, items, unless_closed}
use jcore_soc.Vhdl.Parser.Expr.{
  parse_element_assoc, parse_paren_or_aggregate, parse_assoc_element, parse_args, to_assocs,
  to_elems, paren_or_aggregate,
}
use jcore_soc.Vhdl.Parser.Expr.Grammar.{
  is_aggregate, Expression, Parens, paren, aggregate, Elements, elements, MoreElements, close,
  element, Element, positional, named, Choices, arrow, choice, Args, empty, args, MoreArgs,
  close_args, argument, Argument, actual, formal,
}
use jcore_soc.Vhdl.Parser.Expr.Rules.{
  resume, binding, Follows, NonEmpty, append-NonEmpty, advance-resume, at-resume, at_other, ends,
  items_from-end, items_from-item, left-resume, behind, append_assoc3, length-split,
}
use jcore_soc.Vhdl.Parser.Expr.Runs.{
  items_run, unless_closed_open, unless_closed_empty, element_positional, element_named, parens_run,
  argument_actual, argument_formal, args_run,
}
use jcore_soc.Vhdl.Parser.Expr.Heads.{Expression-head, Element-head, Argument-head}

-- `f` reads every expression of the grammar that leaves fewer than `n` tokens behind its first.
abbrev pub Reads : ℕ → Parse Expr → Type 0
Reads n f =
    (t : Token) (ts : List Token) (e : Expr)
    → Expression t ts e
    → (es : List ParseError) (rest : List Token) → Follows 0 rest
    → length (ts ++ rest) < n
    → f (resume es (t ∷ ts ++ rest)) ≡ (e, resume es rest)

-- What may stand behind an element: it continues no expression, and is no bar and no arrow.
abbrev IsAfterItem : List ParseError → List Token → Type 0
IsAfterItem es ts =
    Follows 0 ts × (at Kind.bar (resume es ts) ≡ false) × (at Kind.arrow (resume es ts) ≡ false)

MoreElements-after :
    {us : List Token} {xs : List (List Expr × Expr)}
    → MoreElements us xs
    → (es : List ParseError) (rest : List Token) → IsAfterItem es (us ++ rest)
unfolding same_kind kind_code binding
MoreElements-after (close {c} k) es rest = (
  ends 0 Kind.rparen c rest k (omega arith),
  at_other es c rest Kind.rparen Kind.bar k refl,
  at_other es c rest Kind.rparen Kind.arrow k refl,
)
MoreElements-after (element {o} {t} {ts} {us} k d m) es rest =
    let tail : List Token = t ∷ (ts ++ us) ++ rest in
    (
      ends 0 Kind.comma o tail k (omega arith),
      at_other es o tail Kind.comma Kind.bar k refl,
      at_other es o tail Kind.comma Kind.arrow k refl,
    )

MoreArgs-after :
    {us : List Token} {xs : List (Bytes × Expr)}
    → MoreArgs us xs
    → (es : List ParseError) (rest : List Token) → IsAfterItem es (us ++ rest)
unfolding same_kind kind_code binding
MoreArgs-after (close_args {c} k) es rest = (
  ends 0 Kind.rparen c rest k (omega arith),
  at_other es c rest Kind.rparen Kind.bar k refl,
  at_other es c rest Kind.rparen Kind.arrow k refl,
)
MoreArgs-after (argument {o} {t} {ts} {us} k d m) es rest =
    let tail : List Token = t ∷ (ts ++ us) ++ rest in
    (
      ends 0 Kind.comma o tail k (omega arith),
      at_other es o tail Kind.comma Kind.bar k refl,
      at_other es o tail Kind.comma Kind.arrow k refl,
    )

arrow_ends : (a : Token) (ts : List Token) → a.kind ≡ Kind.arrow → Follows 0 (a ∷ ts)
unfolding binding
arrow_ends a ts k = ends 0 Kind.arrow a ts k (omega arith)

MoreElements-NonEmpty :
    {us : List Token} {xs : List (List Expr × Expr)}
    → MoreElements us xs
    → (rest : List Token) → NonEmpty (us ++ rest)
MoreElements-NonEmpty (close k) rest = tt
MoreElements-NonEmpty (element k d m) rest = tt

MoreArgs-NonEmpty :
    {us : List Token} {xs : List (Bytes × Expr)}
    → MoreArgs us xs
    → (rest : List Token) → NonEmpty (us ++ rest)
MoreArgs-NonEmpty (close_args k) rest = tt
MoreArgs-NonEmpty (argument k d m) rest = tt

Choices-after :
    {us : List Token} {cs : List Expr}
    → Choices us cs
    → (es : List ParseError) (rest : List Token)
    → Follows 0 (us ++ rest)
      × (at Kind.bar (resume es (us ++ rest)) || at Kind.arrow (resume es (us ++ rest)) ≡ true)
unfolding same_kind kind_code binding
Choices-after (arrow {a} k) es rest = (
  ends 0 Kind.arrow a rest k (omega arith),
  rw (at_other es a rest Kind.arrow Kind.bar k refl, at-resume es a rest Kind.arrow k) refl,
)
Choices-after (choice {b} {t} {ts} {us} k d m) es rest =
    let tail : List Token = t ∷ (ts ++ us) ++ rest in
    (ends 0 Kind.bar b tail k (omega arith), rw (at-resume es b tail Kind.bar k) refl)

aggregate_lem :
    (xs : List (List Expr × Expr))
    → is_aggregate xs ≡ true
    → paren_or_aggregate xs ≡ Expr.aggregate (to_elems xs)
unfolding is_aggregate paren_or_aggregate
aggregate_lem [] h = refl
aggregate_lem (([], x) ∷ []) h = cc
aggregate_lem (([], x) ∷ y ∷ ys) h = refl
aggregate_lem ((c ∷ cs, x) ∷ ys) h = refl

module _ (n : ℕ) (self : Parse Expr) (reads : Reads n self) where
  -- The further choices and the arrow, which is left.
  Choices-read :
      {us : List Token} {cs : List Expr}
      → Choices us cs
      → (fuel : ℕ) (es : List ParseError) (rest : List Token) → length (us ++ rest) ≤ n
      → length (us ++ rest) ≤ fuel
      → (a : Token) × (a.kind ≡ Kind.arrow)
        × (items_from Kind.bar (λ _. false) self fuel (resume es (us ++ rest))
            ≡ (cs, resume es (a ∷ rest)))
  unfolding same_kind kind_code
  Choices-read (arrow k) zero es rest le lf = absurd (omega arith)
  Choices-read (choice k d m) zero es rest le lf = absurd (omega arith)
  Choices-read (arrow {a} k) (suc fuel) es rest le lf = (
    a,
    k,
    items_from-end Kind.bar (λ _. false) self fuel (resume es (a ∷ rest))
        (at_other es a rest Kind.arrow Kind.bar k refl),
  )
  Choices-read (choice {b} {t} {ts} {us} {c} {cs} k d m) (suc fuel) es rest le lf =
      let (len1, len2) = length-split ts us rest in
      let (a, ka, e) = Choices-read m fuel es rest (omega arith) (omega arith) in
      let tail : List Token = t ∷ ts ++ (us ++ rest) in
      (
        a,
        ka,
        ap (λ z. items_from Kind.bar (λ _. false) self (suc fuel) (resume es (b ∷ t ∷ z)))
              (append_assoc ts us rest)
            ∙ items_from-item Kind.bar (λ _. false) self fuel (resume es (b ∷ tail))
                (resume es (us ++ rest)) (resume es (a ∷ rest)) c cs
                (at-resume es b tail Kind.bar k) refl
                (behind self es b tail (c, resume es (us ++ rest)) tt
                  (reads t ts c d es (us ++ rest) (Choices-after m es rest).0 (omega arith)))
                e,
      )

  Element-read :
      {t : Token} {ts : List Token} {x : List Expr × Expr}
      → Element t ts x
      → (es : List ParseError) (rest : List Token) → IsAfterItem es rest
      → length (ts ++ rest) < n
      → parse_element_assoc self (resume es (t ∷ ts ++ rest)) ≡ (x, resume es rest)
  Element-read (positional {t} {ts} {e} d) es rest after lt =
      element_positional self (resume es (t ∷ ts ++ rest)) (resume es rest) e
        (reads t ts e d es rest after.0 lt) after.1 after.2
  Element-read (named {t} {u} {ts} {us} {vs} {c} {x} {cs} d m d') es rest after lt =
      let tail : List Token = u ∷ vs ++ rest in
      let assoc : ts ++ us ++ u ∷ vs ++ rest ≡ ts ++ (us ++ tail) =
        append_assoc3 ts us (u ∷ vs) rest in
      let len1 : length (ts ++ us ++ u ∷ vs ++ rest) ≡ length (ts ++ (us ++ tail)) =
        ap length assoc in
      let len2 : length (ts ++ (us ++ tail)) ≡ length ts + length (us ++ tail) =
        length-append ts (us ++ tail) in
      let len3 : length (us ++ tail) ≡ length us + length tail = length-append us tail in
      let non : NonEmpty (us ++ tail) = append-NonEmpty us tail tt in
      let fuel : suc (left (resume es (us ++ tail))) ≡ length (us ++ tail) =
        left-resume es (us ++ tail) non in
      let (a, ka, e) =
        Choices-read m (suc (left (resume es (us ++ tail)))) es tail (omega arith) (omega arith) in
      ap (λ z. parse_element_assoc self (resume es (t ∷ z))) assoc
      ∙ element_named self (resume es (t ∷ ts ++ (us ++ tail))) (resume es (us ++ tail))
          (resume es (a ∷ tail)) (resume es rest) c x cs
          (reads t ts c d es (us ++ tail) (Choices-after m es tail).0 (omega arith))
          (Choices-after m es tail).1 e (at-resume es a tail Kind.arrow ka)
          (behind self es a tail (x, resume es rest) tt
            (reads u vs x d' es rest after.0 (omega arith)))

  -- The further elements up to the closing parenthesis, which is left.
  MoreElements-read :
      {us : List Token} {xs : List (List Expr × Expr)}
      → MoreElements us xs
      → (fuel : ℕ) (es : List ParseError) (rest : List Token) → length (us ++ rest) ≤ n
      → length (us ++ rest) ≤ fuel
      → (c : Token) × (c.kind ≡ Kind.rparen)
        × (items_from Kind.comma
              (at Kind.rparen)
              (parse_element_assoc self)
              fuel
              (resume es (us ++ rest))
            ≡ (xs, resume es (c ∷ rest)))
  unfolding same_kind kind_code at
  MoreElements-read (close k) zero es rest le lf = absurd (omega arith)
  MoreElements-read (element k d m) zero es rest le lf = absurd (omega arith)
  MoreElements-read (close {c} k) (suc fuel) es rest le lf = (
    c,
    k,
    items_from-end Kind.comma (at Kind.rparen) (parse_element_assoc self) fuel
        (resume es (c ∷ rest)) (at_other es c rest Kind.rparen Kind.comma k refl),
  )
  MoreElements-read (element {o} {t} {ts} {us} {x} {xs} k d m) (suc fuel) es rest le lf =
      let (len1, len2) = length-split ts us rest in
      let (c, kc, e) = MoreElements-read m fuel es rest (omega arith) (omega arith) in
      let tail : List Token = t ∷ ts ++ (us ++ rest) in
      let item : Parse (List Expr × Expr) = parse_element_assoc self in
      (
        c,
        kc,
        ap (λ z. items_from Kind.comma (at Kind.rparen) item (suc fuel) (resume es (o ∷ t ∷ z)))
              (append_assoc ts us rest)
            ∙ items_from-item Kind.comma (at Kind.rparen) item fuel (resume es (o ∷ tail))
                (resume es (us ++ rest)) (resume es (c ∷ rest)) x xs
                (at-resume es o tail Kind.comma k)
                (ap (at Kind.rparen) (advance-resume es o tail tt) ∙ Element-head d)
                (behind item es o tail (x, resume es (us ++ rest)) tt
                  (Element-read d es (us ++ rest) (MoreElements-after m es rest) (omega arith)))
                e,
      )

  Elements-read :
      {t : Token} {ts : List Token} {xs : List (List Expr × Expr)}
      → Elements t ts xs
      → (es : List ParseError) (rest : List Token) → length (ts ++ rest) < n
      → (c : Token) × (c.kind ≡ Kind.rparen)
        × (unless_closed
              (items Kind.comma (at Kind.rparen) (parse_element_assoc self))
              (resume es (t ∷ ts ++ rest))
            ≡ (xs, resume es (c ∷ rest)))
  unfolding at
  Elements-read (elements {t} {ts} {us} {x} {xs} d m) es rest lt =
      let (len1, len2) = length-split ts us rest in
      let fuel : suc (left (resume es (us ++ rest))) ≡ length (us ++ rest) =
        left-resume es (us ++ rest) (MoreElements-NonEmpty m rest) in
      let (c, kc, e) =
        MoreElements-read m (suc (left (resume es (us ++ rest)))) es rest (omega arith)
          (omega arith) in
      let item : Parse (List Expr × Expr) = parse_element_assoc self in
      let s : State = resume es (t ∷ ts ++ (us ++ rest)) in
      (
        c,
        kc,
        ap (λ z. unless_closed (items Kind.comma (at Kind.rparen) item) (resume es (t ∷ z)))
              (append_assoc ts us rest)
            ∙ unless_closed_open (items Kind.comma (at Kind.rparen) item) s
                (x ∷ xs, resume es (c ∷ rest)) (Element-head d)
                (items_run Kind.comma (at Kind.rparen) item s (resume es (us ++ rest))
                  (resume es (c ∷ rest)) x xs
                  (Element-read d es (us ++ rest) (MoreElements-after m es rest) (omega arith)) e),
      )

  pub Parens-read :
      {t : Token} {ts : List Token} {e : Expr}
      → Parens t ts e
      → (es : List ParseError) (rest : List Token) → NonEmpty rest
      → length (ts ++ rest) ≤ n
      → parse_paren_or_aggregate self (resume es (t ∷ ts ++ rest)) ≡ (e, resume es rest)
  unfolding at paren_or_aggregate same_kind kind_code binding
  Parens-read (paren {o} {t} {ts} {e} c k d k') es rest non le =
      let item : Parse (List Expr × Expr) = parse_element_assoc self in
      let tail : List Token = t ∷ ts ++ (c ∷ rest) in
      let len : length (ts ++ c ∷ [] ++ rest) ≡ length (ts ++ (c ∷ rest)) =
        ap length (append_assoc ts (c ∷ []) rest) in
      let lone : (items Kind.comma (at Kind.rparen) item (resume es tail))
          ≡ (([], e) ∷ [], resume es (c ∷ rest)) =
        items_run Kind.comma (at Kind.rparen) item (resume es tail) (resume es (c ∷ rest))
          (resume es (c ∷ rest)) ([], e) []
          (element_positional self (resume es tail) (resume es (c ∷ rest)) e
            (reads t ts e d es (c ∷ rest) (ends 0 Kind.rparen c rest k' (omega arith))
              (omega arith))
            (at_other es c rest Kind.rparen Kind.bar k' refl)
            (at_other es c rest Kind.rparen Kind.arrow k' refl))
          (items_from-end Kind.comma (at Kind.rparen) item _ (resume es (c ∷ rest))
            (at_other es c rest Kind.rparen Kind.comma k' refl)) in
      ap (λ z. parse_paren_or_aggregate self (resume es (o ∷ t ∷ z)))
        (append_assoc ts (c ∷ []) rest)
      ∙ parens_run self (resume es (o ∷ tail)) (resume es (c ∷ rest)) (([], e) ∷ [])
          (at-resume es o tail Kind.lparen k)
          (behind (unless_closed (items Kind.comma (at Kind.rparen) item)) es o tail
            (([], e) ∷ [], resume es (c ∷ rest)) tt
            (unless_closed_open _ (resume es tail) _ (Expression-head d) lone))
          (at-resume es c rest Kind.rparen k')
      ∙ ap (λ z. (Expr.paren_expr e, z)) (advance-resume es c rest non)
  Parens-read (aggregate {o} {t} {ts} {es = xs} k d a) es rest non le =
      let item : Parse (List Expr × Expr) = parse_element_assoc self in
      let tail : List Token = t ∷ ts ++ rest in
      let (c, kc, e) = Elements-read d es rest (omega arith) in
      parens_run self (resume es (o ∷ tail)) (resume es (c ∷ rest)) xs
        (at-resume es o tail Kind.lparen k)
        (behind (unless_closed (items Kind.comma (at Kind.rparen) item)) es o tail
          (xs, resume es (c ∷ rest)) tt e)
        (at-resume es c rest Kind.rparen kc)
      ∙ ap (λ y. (y, advance (resume es (c ∷ rest)))) (aggregate_lem xs a)
      ∙ ap (λ z. (Expr.aggregate (to_elems xs), z)) (advance-resume es c rest non)

  Argument-read :
      {t : Token} {ts : List Token} {x : Bytes × Expr}
      → Argument t ts x
      → (es : List ParseError) (rest : List Token) → IsAfterItem es rest
      → length (ts ++ rest) < n
      → parse_assoc_element self (resume es (t ∷ ts ++ rest)) ≡ (x, resume es rest)
  Argument-read (actual {t} {ts} {e} d) es rest after lt =
      argument_actual self (resume es (t ∷ ts ++ rest)) (resume es rest) e
        (reads t ts e d es rest after.0 lt) after.2
  Argument-read (formal {t} {u} {ts} {us} {f} {x} a d k d') es rest after lt =
      let tail : List Token = u ∷ us ++ rest in
      let (len1, len2) = length-split ts (a ∷ u ∷ us) rest in
      ap (λ z. parse_assoc_element self (resume es (t ∷ z))) (append_assoc ts (a ∷ u ∷ us) rest)
      ∙ argument_formal self (resume es (t ∷ ts ++ (a ∷ tail))) (resume es (a ∷ tail))
          (resume es rest) f x (reads t ts f d es (a ∷ tail) (arrow_ends a tail k) (omega arith))
          (at-resume es a tail Kind.arrow k)
          (behind self es a tail (x, resume es rest) tt
            (reads u us x d' es rest after.0 (omega arith)))

  -- The further arguments up to the closing parenthesis, which is left.
  MoreArgs-read :
      {us : List Token} {xs : List (Bytes × Expr)}
      → MoreArgs us xs
      → (fuel : ℕ) (es : List ParseError) (rest : List Token) → length (us ++ rest) ≤ n
      → length (us ++ rest) ≤ fuel
      → (c : Token) × (c.kind ≡ Kind.rparen)
        × (items_from Kind.comma
              (λ _. false)
              (parse_assoc_element self)
              fuel
              (resume es (us ++ rest))
            ≡ (xs, resume es (c ∷ rest)))
  unfolding same_kind kind_code
  MoreArgs-read (close_args k) zero es rest le lf = absurd (omega arith)
  MoreArgs-read (argument k d m) zero es rest le lf = absurd (omega arith)
  MoreArgs-read (close_args {c} k) (suc fuel) es rest le lf = (
    c,
    k,
    items_from-end Kind.comma (λ _. false) (parse_assoc_element self) fuel (resume es (c ∷ rest))
        (at_other es c rest Kind.rparen Kind.comma k refl),
  )
  MoreArgs-read (argument {o} {t} {ts} {us} {x} {xs} k d m) (suc fuel) es rest le lf =
      let (len1, len2) = length-split ts us rest in
      let (c, kc, e) = MoreArgs-read m fuel es rest (omega arith) (omega arith) in
      let tail : List Token = t ∷ ts ++ (us ++ rest) in
      let item : Parse (Bytes × Expr) = parse_assoc_element self in
      (
        c,
        kc,
        ap (λ z. items_from Kind.comma (λ _. false) item (suc fuel) (resume es (o ∷ t ∷ z)))
              (append_assoc ts us rest)
            ∙ items_from-item Kind.comma (λ _. false) item fuel (resume es (o ∷ tail))
                (resume es (us ++ rest)) (resume es (c ∷ rest)) x xs
                (at-resume es o tail Kind.comma k) refl
                (behind item es o tail (x, resume es (us ++ rest)) tt
                  (Argument-read d es (us ++ rest) (MoreArgs-after m es rest) (omega arith)))
                e,
      )

  pub Args-read :
      {ts : List Token} {xs : List (Bytes × Expr)}
      → Args ts xs
      → (es : List ParseError) (rest : List Token) → NonEmpty rest
      → length (ts ++ rest) ≤ n
      → parse_args self (resume es (ts ++ rest)) ≡ (to_assocs xs, resume es rest)
  unfolding at
  Args-read (empty {c} k) es rest non le =
      args_run self (resume es (c ∷ rest)) (resume es (c ∷ rest)) []
        (unless_closed_empty _ (resume es (c ∷ rest)) (at-resume es c rest Kind.rparen k))
        (at-resume es c rest Kind.rparen k)
      ∙ ap (λ z. (to_assocs [], z)) (advance-resume es c rest non)
  Args-read (args {t} {ts} {us} {x} {xs} d m) es rest non le =
      let (len1, len2) = length-split ts us rest in
      let fuel : suc (left (resume es (us ++ rest))) ≡ length (us ++ rest) =
        left-resume es (us ++ rest) (MoreArgs-NonEmpty m rest) in
      let (c, kc, e) =
        MoreArgs-read m (suc (left (resume es (us ++ rest)))) es rest (omega arith) (omega arith) in
      let item : Parse (Bytes × Expr) = parse_assoc_element self in
      let s : State = resume es (t ∷ ts ++ (us ++ rest)) in
      ap (λ z. parse_args self (resume es (t ∷ z))) (append_assoc ts us rest)
      ∙ args_run self s (resume es (c ∷ rest)) (x ∷ xs)
          (unless_closed_open (items Kind.comma (λ _. false) item) s (x ∷ xs, resume es (c ∷ rest))
            (Argument-head d)
            (items_run Kind.comma (λ _. false) item s (resume es (us ++ rest))
              (resume es (c ∷ rest)) x xs
              (Argument-read d es (us ++ rest) (MoreArgs-after m es rest) (omega arith)) e))
          (at-resume es c rest Kind.rparen kc)
      ∙ ap (λ z. (to_assocs (x ∷ xs), z)) (advance-resume es c rest non)
