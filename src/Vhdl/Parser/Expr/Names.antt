-- ===== src/Vhdl/Parser/Expr/Names.antt =====
-- tools/socgen/vhdl/parser.go: the loops of `parseName` on selected names and attributes.
use jcore_soc.Base.{
  ℕ, zero, suc, ◌≤◌, ◌≡◌, refl, true, false, ◌&&◌, List, [], ◌∷◌, ◌++◌, arith, length, Bytes,
}
use jcore_soc.Vhdl.Kind.{Kind}
use jcore_soc.Vhdl.Kind.Code.{kind_code, same_kind, is_selector}
use jcore_soc.Vhdl.Source.{Token}
use jcore_soc.Vhdl.Parser.{ParseError, kind_or_eof, at, peek_kind}
use jcore_soc.Vhdl.Parser.Expr.{is_attr_name, at_attribute, dots_from, ticks_from}
use jcore_soc.Vhdl.Parser.Expr.Grammar.{Dots, Ticks}
use jcore_soc.Vhdl.Parser.Expr.Rules.{
  resume, NonEmpty, append-NonEmpty, advance-resume, at-resume, at-same,
}

pub dots_from-Dots :
    {text out : Bytes} {ts : List Token}
    → Dots text ts out
    → (fuel : ℕ) (es : List ParseError) (rest : List Token) → at Kind.dot (resume es rest) ≡ false
    → NonEmpty rest
    → length (ts ++ rest) ≤ fuel
    → dots_from fuel text (resume es (ts ++ rest)) ≡ (out, resume es rest)
unfolding dots_from
dots_from-Dots Dots.done zero es [] n c le = absurd c
dots_from-Dots Dots.done zero es (t ∷ rest) n c le = absurd (omega arith)
dots_from-Dots Dots.done (suc fuel) es rest n c le = rw n refl
dots_from-Dots (Dots.more d u k s ds) zero es rest n c le = absurd (omega arith)
dots_from-Dots (Dots.more {ts = ts} d u k s ds) (suc fuel) es rest n c le =
    let tail : List Token = ts ++ rest in
    rw
      (
        at-resume es d (u ∷ tail) Kind.dot k,
        advance-resume es d (u ∷ tail) tt,
        s,
        advance-resume es u tail (append-NonEmpty ts rest c),
      )
      (dots_from-Dots ds fuel es rest n c (omega arith))

pub peek_attribute :
    (es : List ParseError) (q a : Token) (ts : List Token)
    → q.kind ≡ Kind.tick
    → at_attribute (resume es (q ∷ a ∷ ts)) ≡ is_attr_name a.kind
unfolding peek_kind kind_or_eof
peek_attribute es q a ts k = rw (at-resume es q (a ∷ ts) Kind.tick k) refl

pub ticks_from-Ticks :
    {text out : Bytes} {ts : List Token}
    → Ticks text ts out
    → (fuel : ℕ) (es : List ParseError) (rest : List Token) → at_attribute (resume es rest) ≡ false
    → NonEmpty rest
    → length (ts ++ rest) ≤ fuel
    → ticks_from fuel text (resume es (ts ++ rest)) ≡ (out, resume es rest)
unfolding ticks_from
ticks_from-Ticks Ticks.done zero es [] n c le = absurd c
ticks_from-Ticks Ticks.done zero es (t ∷ rest) n c le = absurd (omega arith)
ticks_from-Ticks Ticks.done (suc fuel) es rest n c le = rw n refl
ticks_from-Ticks (Ticks.more d u k s ds) zero es rest n c le = absurd (omega arith)
ticks_from-Ticks (Ticks.more {ts = ts} d u k s ds) (suc fuel) es rest n c le =
    let tail : List Token = ts ++ rest in
    rw
      (
        peek_attribute es d u tail k,
        s,
        advance-resume es d (u ∷ tail) tt,
        advance-resume es u tail (append-NonEmpty ts rest c),
      )
      (ticks_from-Ticks ds fuel es rest n c (omega arith))

-- The attributes of a name do not start with a dot.
pub Ticks-no_dot :
    {text out : Bytes} {ts : List Token}
    → Ticks text ts out
    → (es : List ParseError) (rest : List Token) → at Kind.dot (resume es rest) ≡ false
    → at Kind.dot (resume es (ts ++ rest)) ≡ false
unfolding at same_kind kind_code
Ticks-no_dot Ticks.done es rest n = n
Ticks-no_dot (Ticks.more q a k s d) es rest n = rw k refl

pub peek_selector :
    (es : List ParseError) (d u : Token) (ts : List Token)
    → d.kind ≡ Kind.dot
    → (at Kind.dot (resume es (d ∷ u ∷ ts)) && is_selector (peek_kind 1 (resume es (d ∷ u ∷ ts))))
      ≡ is_selector u.kind
unfolding peek_kind kind_or_eof
peek_selector es d u ts k = rw (at-resume es d (u ∷ ts) Kind.dot k) refl

pub peek_lparen :
    (es : List ParseError) (q o : Token) (ts : List Token)
    → q.kind ≡ Kind.tick
    → o.kind ≡ Kind.lparen
    → (at Kind.tick (resume es (q ∷ o ∷ ts))
        && same_kind (peek_kind 1 (resume es (q ∷ o ∷ ts))) Kind.lparen)
      ≡ true
unfolding peek_kind kind_or_eof
peek_lparen es q o ts k l = rw (at-resume es q (o ∷ ts) Kind.tick k) (at-same o.kind Kind.lparen l)
