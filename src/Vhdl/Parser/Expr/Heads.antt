-- ===== src/Vhdl/Parser/Expr/Heads.antt =====
-- The first tokens of the phrases of the expression grammar.
use jcore_soc.Base.{◌≤◌, ◌≡◌, refl, ap, ◌≢◌, Bool, false, ◌||◌, List, arith, Bytes}
use jcore_soc.Vhdl.Kind.{Kind}
use jcore_soc.Vhdl.Kind.Code.{same_kind, is_sign, primary_class, other, PrimaryClass}
use jcore_soc.Vhdl.Source.{Token}
use jcore_soc.Vhdl.Ast.{Expr}
use jcore_soc.Vhdl.Parser.Expr.Grammar.{
  Level, level_tier, tighter, Expression, plain, range, Tier, chain, signed, primary, unary, power,
  Primary, Parens, Element, positional, named, Argument, actual, formal,
}
use jcore_soc.Vhdl.Parser.Expr.Rules.{
  not_rparen, unary_not_rparen, starts_primary, abs_not_is_no_sign,
}

pub Parens-head : {t : Token} {ts : List Token} {e : Expr} → Parens t ts e → t.kind ≡ Kind.lparen
Parens-head (Parens.paren c k d k') = k
Parens-head (Parens.aggregate k d a) = k

pub Primary-head :
    {t : Token} {ts : List Token} {e : Expr} → Primary t ts e → primary_class t.kind ≢ other
unfolding primary_class
Primary-head {t} (Primary.number c) = λ o. cc
Primary-head {t} (Primary.physical c u) = λ o. cc
Primary-head {t} (Primary.text c) = λ o. cc
Primary-head {t} (Primary.keyword c) = λ o. cc
Primary-head {t} (Primary.parens d) = λ o.
    (let p : primary_class t.kind ≡ PrimaryClass.open_paren = ap primary_class (Parens-head d) in
      cc)
Primary-head {t} (Primary.name c d q s) = λ o. cc
Primary-head {t} (Primary.qualified q c d us k d') = λ o. cc

||-false : (a b : Bool) → a || b ≡ false → a ≡ false
||-false a b h = ground arith

-- Only a simple expression has a sign first.
pub Tier-unsigned :
    {l : Level} {t : Token} {ts : List Token} {e : Expr}
    → Tier l t ts e
    → 5 ≤ level_tier l
    → is_sign t.kind ≡ false
unfolding level_tier tighter
Tier-unsigned (chain Level.logical lt d c) h = absurd (omega arith)
Tier-unsigned (chain Level.relation lt d c) h = absurd (omega arith)
Tier-unsigned (chain Level.shift lt d c) h = absurd (omega arith)
Tier-unsigned (chain Level.simple lt d c) h = absurd (omega arith)
Tier-unsigned (chain Level.term lt d c) h = Tier-unsigned d (omega arith)
Tier-unsigned (chain Level.factor lt d c) h = absurd (omega arith)
Tier-unsigned (signed s d c) h = absurd (omega arith)
Tier-unsigned {t = t} (primary d) h = ||-false _ _ (starts_primary t.kind (Primary-head d))
Tier-unsigned {t = t} (unary a d) h = abs_not_is_no_sign t.kind a
Tier-unsigned {t = t} (power op d k d') h = ||-false _ _ (starts_primary t.kind (Primary-head d))

Tier-head :
    {l : Level} {t : Token} {ts : List Token} {e : Expr}
    → Tier l t ts e
    → same_kind t.kind Kind.rparen ≡ false
Tier-head (chain l lt d c) = Tier-head d
Tier-head {t = t} (signed s d c) = unary_not_rparen t.kind (rw s refl)
Tier-head {t = t} (primary d) = not_rparen t.kind (Primary-head d)
Tier-head {t = t} (unary a d) = unary_not_rparen t.kind (rw (a, abs_not_is_no_sign t.kind a) refl)
Tier-head {t = t} (power op d k d') = not_rparen t.kind (Primary-head d)

pub Expression-head :
    {t : Token} {ts : List Token} {e : Expr}
    → Expression t ts e
    → same_kind t.kind Kind.rparen ≡ false
Expression-head (plain d) = Tier-head d
Expression-head (range k d dir d') = Tier-head d

pub Element-head :
    {t : Token} {ts : List Token} {x : List Expr × Expr}
    → Element t ts x
    → same_kind t.kind Kind.rparen ≡ false
Element-head (positional d) = Expression-head d
Element-head (named d cs d') = Expression-head d

pub Argument-head :
    {t : Token} {ts : List Token} {x : Bytes × Expr}
    → Argument t ts x
    → same_kind t.kind Kind.rparen ≡ false
Argument-head (actual d) = Expression-head d
Argument-head (formal a d k d') = Expression-head d
