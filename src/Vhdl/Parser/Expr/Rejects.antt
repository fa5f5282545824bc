-- ===== src/Vhdl/Parser/Expr/Rejects.antt =====
-- tools/socgen/vhdl/parser.go: the expression parser at a token that begins no expression.
use jcore_soc.Base.{
  ℕ, suc, ◌≤◌, ◌<◌, ◌≡◌, refl, ◌∙◌, false, List, [], ◌∷◌, ◌++◌, arith, length, codes,
}
use jcore_soc.Vhdl.Kind.Code.{is_sign, is_abs_not, primary_class, other}
use jcore_soc.Vhdl.Source.{Token}
use jcore_soc.Vhdl.Ast.{Expr}
use jcore_soc.Vhdl.Parser.{State, ParseError, Parse, errorf, unexpected, left}
use jcore_soc.Vhdl.Parser.Loop.{parse_tier}
use jcore_soc.Vhdl.Parser.Expr.{
  parse_primary_of, parse_factor, parse_term, parse_simple, parse_shift, parse_relation,
  parse_logical, parse_expr_from, parse_expr,
}
use jcore_soc.Vhdl.Parser.Expr.Rules.{
  resume, binding, Follows, Follows-le, not_at_exp, not_at_direction, fold_from-end,
}
use jcore_soc.Vhdl.Parser.Expr.Runs.{
  parse_tier_run, primary_run, factor_primary, simple_unsigned, range_plain,
}

-- A level whose operand is read at once, and that nothing continues, returns the operand.
tier_alone :
    (i : ℕ) (operand : Parse Expr) (x : Expr) (s : State) (es : List ParseError) (ts : List Token)
    → 0 < i
    → Follows 0 ts
    → operand s ≡ (x, resume es ts)
    → parse_tier i operand s ≡ (x, resume es ts)
tier_alone i operand x s es ts p f e =
    parse_tier_run i operand x s (resume es ts) (x, resume es ts) e
      (fold_from-end i operand (suc (left (resume es ts))) x es ts p
        (Follows-le i ts (omega arith) f) (length-le ts f))
  where
    length-le : (ts : List Token) → Follows 0 ts → length ts ≤ suc (left (resume es ts))
    length-le [] h = absurd h
    length-le (t ∷ ts) h = omega arith

-- At a token that begins no primary, is no sign and no abs or not, and continues no phrase, the parser
-- returns an empty literal of the token's kind, reports the token once and leaves it current.
pub parse_expr_unexpected :
    (t : Token) (ts : List Token) (es : List ParseError)
    → primary_class t.kind ≡ other
    → is_sign t.kind ≡ false
    → is_abs_not t.kind ≡ false
    → binding t.kind ≡ 0
    → parse_expr (resume es (t ∷ ts)) ≡ (
      Expr.basic_lit t.kind [],
      errorf (unexpected t.pos t.kind t.lit (codes "primary")) (resume es (t ∷ ts)),
    )
unfolding parse_expr parse_expr_from parse_logical parse_relation parse_shift parse_term errorf
    parse_primary_of
parse_expr_unexpected t ts es c s u b =
    let self : Parse Expr = parse_expr_from (length ts) in
    let st : State = resume es (t ∷ ts) in
    let es' : List ParseError = es ++ unexpected t.pos t.kind t.lit (codes "primary") ∷ [] in
    let x : Expr = Expr.basic_lit t.kind [] in
    let f : Follows 0 (t ∷ ts) = omega arith in
    let factor : parse_factor self st ≡ (x, resume es' (t ∷ ts)) =
      factor_primary self st (resume es' (t ∷ ts)) x u (primary_run self other st _ c refl)
        (not_at_exp es' (t ∷ ts) (Follows-le 6 (t ∷ ts) (omega arith) f)) in
    let term : parse_term self st ≡ (x, resume es' (t ∷ ts)) =
      tier_alone 5 (parse_factor self) x st es' (t ∷ ts) (omega arith) f factor in
    let simple : parse_simple self st ≡ (x, resume es' (t ∷ ts)) =
      simple_unsigned self st s
      ∙ tier_alone 4 (parse_term self) x st es' (t ∷ ts) (omega arith) f term in
    let shift : parse_shift self st ≡ (x, resume es' (t ∷ ts)) =
      tier_alone 3 (parse_simple self) x st es' (t ∷ ts) (omega arith) f simple in
    let relation : parse_relation self st ≡ (x, resume es' (t ∷ ts)) =
      tier_alone 2 (parse_shift self) x st es' (t ∷ ts) (omega arith) f shift in
    range_plain self st (resume es' (t ∷ ts)) x
      (tier_alone 1 (parse_relation self) x st es' (t ∷ ts) (omega arith) f relation)
      (not_at_direction es' (t ∷ ts) f)
