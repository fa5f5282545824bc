-- ===== src/Vhdl/Parser/Expr/NamePhrases.antt =====
-- tools/socgen/vhdl/parser.go: names and the other primaries of the grammar are read, given that the
-- expressions in them are.
use jcore_soc.Base.{
  ℕ, zero, suc, ◌+◌, ◌≤◌, ◌≡◌, refl, ap, ◌∙◌, false, List, [], ◌∷◌, ◌++◌, append_assoc, arith,
  length, length-append, Bytes,
}
use jcore_soc.Vhdl.Kind.{Kind, kind_str, is_keyword}
use jcore_soc.Vhdl.Kind.Code.{kind_code, same_kind, primary_class, PrimaryClass}
use jcore_soc.Vhdl.Source.{Token}
use jcore_soc.Vhdl.Ast.{Expr}
use jcore_soc.Vhdl.Parser.{State, ParseError, Parse, at, left}
use jcore_soc.Vhdl.Parser.Expr.{
  at_attribute, is_attr_name, suffixes_from, parse_args, parse_paren_or_aggregate, parse_name,
  parse_primary, parse_primary_of, to_assocs,
}
use jcore_soc.Vhdl.Parser.Expr.Grammar.{
  Primary, Parens, Call, Suffixes, no_call, call, calls, select, attribute, Dots, Ticks,
}
use jcore_soc.Vhdl.Parser.Expr.Rules.{
  resume, Follows, NonEmpty, Follows-NonEmpty, append-NonEmpty, advance-resume, not_at_ident,
  not_at_lparen, not_at_dot, not_at_tick, at-resume, at_other, left-resume, behind, append_assoc3,
  length-split,
}
use jcore_soc.Vhdl.Parser.Expr.Names.{
  dots_from-Dots, peek_attribute, ticks_from-Ticks, Ticks-no_dot, peek_selector, peek_lparen,
}
use jcore_soc.Vhdl.Parser.Expr.Runs.{
  suffixes_from-end, suffixes_from-call, suffixes_from-select, suffixes_from-attribute, name_plain,
  name_qualified, number_plain, number_physical, primary_run,
}
use jcore_soc.Vhdl.Parser.Expr.Heads.{Parens-head}
use jcore_soc.Vhdl.Parser.Expr.ListPhrases.{Reads, Parens-read, Args-read}

-- The calls behind a name do not start with a dot or a tick.
Call-not_at :
    {e x : Expr} {vs : List Token}
    → Call e vs x
    → (es : List ParseError) (rest : List Token) → Follows 7 rest
    → (at Kind.dot (resume es (vs ++ rest)) ≡ false)
      × (at Kind.tick (resume es (vs ++ rest)) ≡ false)
unfolding same_kind kind_code
Call-not_at no_call es rest f = (not_at_dot es rest f, not_at_tick es rest f)
Call-not_at (call {o} {ts} {us} k d m) es rest f =
    let tail : List Token = ts ++ us ++ rest in
    (
      at_other es o tail Kind.lparen Kind.dot k refl,
      at_other es o tail Kind.lparen Kind.tick k refl,
    )

not_dot_lparen : same_kind Kind.dot Kind.lparen ≡ false
unfolding same_kind kind_code
not_dot_lparen = refl

not_tick_lparen : same_kind Kind.tick Kind.lparen ≡ false
unfolding same_kind kind_code
not_tick_lparen = refl

not_tick_dot : same_kind Kind.tick Kind.dot ≡ false
unfolding same_kind kind_code
not_tick_dot = refl

no_attr_lparen : (k : Kind) → k ≡ Kind.lparen → is_attr_name k ≡ false
unfolding is_attr_name is_keyword
no_attr_lparen k e = rw e refl

no_attribute : (s : State) → at Kind.tick s ≡ false → at_attribute s ≡ false
no_attribute s n = rw n refl

module _ (n : ℕ) (self : Parse Expr) (reads : Reads n self) where
  mutual
    Call-read :
        {e x : Expr} {vs : List Token}
        → Call e vs x
        → (fuel : ℕ) (es : List ParseError) (rest : List Token) → Follows 7 rest
        → length (vs ++ rest) ≤ n
        → length (vs ++ rest) ≤ fuel
        → suffixes_from self fuel e (resume es (vs ++ rest)) ≡ (x, resume es rest)
    Call-read (no_call {e}) zero es [] f le lf = absurd f
    Call-read (no_call {e}) zero es (t ∷ rest) f le lf = absurd (omega arith)
    Call-read (no_call {e}) (suc fuel) es rest f le lf =
        suffixes_from-end self fuel e (resume es rest) (not_at_lparen es rest f)
          (not_at_dot es rest f) (not_at_tick es rest f)
    Call-read (call k d m) zero es rest f le lf = absurd (omega arith)
    Call-read (call {o} {ts} {us} {e} {x} {actuals} k d m) (suc fuel) es rest f le lf =
        let (len1, len2) = length-split ts us rest in
        let non : NonEmpty (us ++ rest) = append-NonEmpty us rest (Follows-NonEmpty 7 rest f) in
        let tail : List Token = ts ++ (us ++ rest) in
        ap (λ z. suffixes_from self (suc fuel) e (resume es (o ∷ z))) (append_assoc ts us rest)
        ∙ suffixes_from-call self fuel e (resume es (o ∷ tail)) (resume es (us ++ rest))
            (to_assocs actuals) (x, resume es rest) (at-resume es o tail Kind.lparen k)
            (behind (parse_args self) es o tail (to_assocs actuals, resume es (us ++ rest))
              (append-NonEmpty ts (us ++ rest) non)
              (Args-read n self reads d es (us ++ rest) non (omega arith)))
            (suffixes_read m fuel es rest f (omega arith) (omega arith))

    suffixes_read :
        {e x : Expr} {vs : List Token}
        → Suffixes e vs x
        → (fuel : ℕ) (es : List ParseError) (rest : List Token) → Follows 7 rest
        → length (vs ++ rest) ≤ n
        → length (vs ++ rest) ≤ fuel
        → suffixes_from self fuel e (resume es (vs ++ rest)) ≡ (x, resume es rest)
    suffixes_read (calls c) fuel es rest f le lf = Call-read c fuel es rest f le lf
    suffixes_read (select k s m) zero es rest f le lf = absurd (omega arith)
    suffixes_read (attribute k s m) zero es rest f le lf = absurd (omega arith)
    suffixes_read (select {d} {u} {ts} {e} {x} k s m) (suc fuel) es rest f le lf =
        let tail : List Token = ts ++ rest in
        let st : State = resume es (d ∷ u ∷ tail) in
        let non : NonEmpty tail = append-NonEmpty ts rest (Follows-NonEmpty 7 rest f) in
        suffixes_from-select self fuel e st (x, resume es rest)
          (at_other es d (u ∷ tail) Kind.dot Kind.lparen k not_dot_lparen)
          (peek_selector es d u tail k ∙ s)
          (rw (advance-resume es d (u ∷ tail) tt, advance-resume es u tail non)
            (suffixes_read m fuel es rest f (omega arith) (omega arith)))
    suffixes_read (attribute {q} {a} {ts} {e} {x} k s m) (suc fuel) es rest f le lf =
        let tail : List Token = ts ++ rest in
        let st : State = resume es (q ∷ a ∷ tail) in
        let non : NonEmpty tail = append-NonEmpty ts rest (Follows-NonEmpty 7 rest f) in
        suffixes_from-attribute self fuel e st (x, resume es rest)
          (at_other es q (a ∷ tail) Kind.tick Kind.lparen k not_tick_lparen)
          (at_other es q (a ∷ tail) Kind.tick Kind.dot k not_tick_dot)
          (peek_attribute es q a tail k ∙ s)
          (rw (advance-resume es q (a ∷ tail) tt, advance-resume es a tail non)
            (suffixes_read m fuel es rest f (omega arith) (omega arith)))

  name_read :
      (t : Token) {ts us vs : List Token} {dotted text : Bytes} {e : Expr}
      → Dots t.lit ts dotted
      → Ticks dotted us text
      → Call (Expr.ident text) vs e
      → (es : List ParseError) (rest : List Token) → Follows 7 rest
      → length (ts ++ us ++ vs ++ rest) ≤ n
      → parse_name self (resume es (t ∷ ts ++ us ++ vs ++ rest)) ≡ (e, resume es rest)
  name_read t {ts} {us} {vs} {dotted} {text} {e} ds qs c es rest f le =
      let r3 : List Token = vs ++ rest in
      let r2 : List Token = us ++ r3 in
      let r1 : List Token = ts ++ r2 in
      let non3 : NonEmpty r3 = append-NonEmpty vs rest (Follows-NonEmpty 7 rest f) in
      let non2 : NonEmpty r2 = append-NonEmpty us r3 non3 in
      let non1 : NonEmpty r1 = append-NonEmpty ts r2 non2 in
      let len : length (ts ++ us ++ vs ++ rest) ≡ length r1 =
        ap length (append_assoc3 ts us vs rest) in
      let len1 : length r1 ≡ length ts + length r2 = length-append ts r2 in
      let len2 : length r2 ≡ length us + length r3 = length-append us r3 in
      let left1 : suc (left (resume es r1)) ≡ length r1 = left-resume es r1 non1 in
      let left2 : suc (left (resume es r2)) ≡ length r2 = left-resume es r2 non2 in
      let left3 : suc (left (resume es r3)) ≡ length r3 = left-resume es r3 non3 in
      let no_dot_tick : (at Kind.dot (resume es r3) ≡ false)
          × (at Kind.tick (resume es r3) ≡ false) =
        Call-not_at c es rest f in
      ap (λ z. parse_name self (resume es (t ∷ z))) (append_assoc3 ts us vs rest)
      ∙ name_plain self (resume es (t ∷ r1)) (resume es r1) (resume es r2) (resume es r3) dotted
          text (e, resume es rest) (advance-resume es t r1 non1)
          (dots_from-Dots ds _ es r2 (Ticks-no_dot qs es r3 no_dot_tick.0) non2 (omega arith))
          (ticks_from-Ticks qs _ es r3 (no_attribute (resume es r3) no_dot_tick.1) non3
            (omega arith))
          no_dot_tick.1 (Call-read c _ es rest f (omega arith) (omega arith))

  qualified_read :
      (t q : Token) {o : Token} {ts us vs : List Token} {dotted text : Bytes} {e : Expr}
      → Dots t.lit ts dotted
      → Ticks dotted us text
      → q.kind ≡ Kind.tick
      → Parens o vs e
      → (es : List ParseError) (rest : List Token) → NonEmpty rest
      → length (ts ++ us ++ q ∷ o ∷ vs ++ rest) ≤ n
      → parse_name self (resume es (t ∷ ts ++ us ++ q ∷ o ∷ vs ++ rest))
        ≡ (Expr.qualified_expr (Expr.ident text) e, resume es rest)
  qualified_read t q {o} {ts} {us} {vs} {dotted} {text} {e} ds qs k d es rest non le =
      let r3 : List Token = q ∷ o ∷ vs ++ rest in
      let r2 : List Token = us ++ r3 in
      let r1 : List Token = ts ++ r2 in
      let non2 : NonEmpty r2 = append-NonEmpty us r3 tt in
      let non1 : NonEmpty r1 = append-NonEmpty ts r2 non2 in
      let len : length (ts ++ us ++ q ∷ o ∷ vs ++ rest) ≡ length r1 =
        ap length (append_assoc3 ts us (q ∷ o ∷ vs) rest) in
      let len1 : length r1 ≡ length ts + length r2 = length-append ts r2 in
      let len2 : length r2 ≡ length us + length r3 = length-append us r3 in
      let left1 : suc (left (resume es r1)) ≡ length r1 = left-resume es r1 non1 in
      let left2 : suc (left (resume es r2)) ≡ length r2 = left-resume es r2 non2 in
      let no_dot : at Kind.dot (resume es r3) ≡ false =
        at_other es q (o ∷ vs ++ rest) Kind.tick Kind.dot k not_tick_dot in
      let plain : at_attribute (resume es r3) ≡ false =
        peek_attribute es q o (vs ++ rest) k ∙ no_attr_lparen o.kind (Parens-head d) in
      ap (λ z. parse_name self (resume es (t ∷ z))) (append_assoc3 ts us (q ∷ o ∷ vs) rest)
      ∙ name_qualified self (resume es (t ∷ r1)) (resume es r1) (resume es r2) (resume es r3) dotted
          text e (resume es rest) (advance-resume es t r1 non1)
          (dots_from-Dots ds _ es r2 (Ticks-no_dot qs es r3 no_dot) non2 (omega arith))
          (ticks_from-Ticks qs _ es r3 plain tt (omega arith))
          (peek_lparen es q o (vs ++ rest) k (Parens-head d))
          (behind (parse_paren_or_aggregate self) es q (o ∷ vs ++ rest) (e, resume es rest) tt
            (Parens-read n self reads d es rest non (omega arith)))

  pub Primary-read :
      {t : Token} {ts : List Token} {e : Expr}
      → Primary t ts e
      → (es : List ParseError) (rest : List Token) → Follows 7 rest
      → length (ts ++ rest) ≤ n
      → parse_primary self (resume es (t ∷ ts ++ rest)) ≡ (e, resume es rest)
  unfolding parse_primary_of primary_class
  Primary-read (Primary.number {t} c) es rest f le =
      primary_run self PrimaryClass.number (resume es (t ∷ rest)) _ c (
        number_plain self (resume es (t ∷ rest)) (resume es rest)
          (advance-resume es t rest (Follows-NonEmpty 7 rest f)) (not_at_ident es rest f))
  Primary-read (Primary.physical {t} {u} c k) es rest f le =
      primary_run self PrimaryClass.number (resume es (t ∷ u ∷ rest)) _ c (
        number_physical self (resume es (t ∷ u ∷ rest)) (resume es (u ∷ rest))
          (advance-resume es t (u ∷ rest) tt) (at-resume es u rest Kind.ident k)
        ∙ ap (λ z. (Expr.physical_lit t.lit u.lit, z))
            (advance-resume es u rest (Follows-NonEmpty 7 rest f)))
  Primary-read (Primary.text {t} c) es rest f le =
      primary_run self PrimaryClass.text_literal (resume es (t ∷ rest)) _ c (
        ap (λ z. (Expr.basic_lit t.kind t.lit, z))
          (advance-resume es t rest (Follows-NonEmpty 7 rest f)))
  Primary-read (Primary.keyword {t} c) es rest f le =
      primary_run self PrimaryClass.keyword (resume es (t ∷ rest)) _ c (
        ap (λ z. (Expr.ident (kind_str t.kind), z))
          (advance-resume es t rest (Follows-NonEmpty 7 rest f)))
  Primary-read (Primary.parens {t} {ts} {e} d) es rest f le =
      primary_run self PrimaryClass.open_paren (resume es (t ∷ ts ++ rest)) (e, resume es rest)
        (ap primary_class (Parens-head d))
        (Parens-read n self reads d es rest (Follows-NonEmpty 7 rest f) le)
  Primary-read (Primary.name {t} {ts} {us} {vs} {e = e} c ds qs m) es rest f le =
      primary_run self PrimaryClass.name (resume es (t ∷ ts ++ us ++ vs ++ rest))
        (e, resume es rest) c (name_read t ds qs m es rest f le)
  Primary-read (Primary.qualified {t} {o} {ts} {us} {vs} q c ds qs k d) es rest f le =
      primary_run self PrimaryClass.name (resume es (t ∷ ts ++ us ++ q ∷ o ∷ vs ++ rest)) _ c
        (qualified_read t q ds qs k d es rest (Follows-NonEmpty 7 rest f) le)
