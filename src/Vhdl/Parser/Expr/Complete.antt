-- ===== src/Vhdl/Parser/Expr/Complete.antt =====
-- tools/socgen/vhdl/parser.go: the expression parser reads every phrase of the grammar.
use jcore_soc.Base.{
  ℕ, zero, suc, ◌≤◌, ◌<◌, ◌≡◌, refl, sym, ap, subst, ◌∙◌, Bool, false, ◌||◌, List, ◌∷◌, ◌++◌,
  append_assoc, arith, length,
}
use jcore_soc.Vhdl.Kind.{Kind}
use jcore_soc.Vhdl.Kind.Code.{is_sign}
use jcore_soc.Vhdl.Source.{Token}
use jcore_soc.Vhdl.Ast.{Expr}
use jcore_soc.Vhdl.Parser.{State, ParseError, Parse, left}
use jcore_soc.Vhdl.Parser.Loop.{fold_from, parse_tier}
use jcore_soc.Vhdl.Parser.Expr.{
  parse_primary, parse_factor, parse_term, parse_simple, parse_shift, parse_relation, parse_logical,
  parse_range, parse_expr_from, parse_expr,
}
use jcore_soc.Vhdl.Parser.Expr.Grammar.{
  Level, logical, relation, shift, simple, term, factor, level_tier, tighter, Expression, Tier,
  Chain,
}
use jcore_soc.Vhdl.Parser.Expr.Rules.{
  resume, binding, Follows, Follows-le, NonEmpty, Follows-NonEmpty, append-NonEmpty, not_at_exp,
  not_at_direction, at-resume, operator_binding, direction_binding, starts_primary, fold_from-end,
  fold_from-operator, left-resume, behind, length-split,
}
use jcore_soc.Vhdl.Parser.Expr.Runs.{
  parse_tier_run, factor_primary, factor_unary, factor_power, simple_signed, range_plain, range_run,
}
use jcore_soc.Vhdl.Parser.Expr.ListPhrases.{Reads}
use jcore_soc.Vhdl.Parser.Expr.NamePhrases.{Primary-read}
use jcore_soc.Vhdl.Parser.Expr.Heads.{Primary-head, Tier-unsigned}

-- The function of a level.
abbrev level : Parse Expr → Level → Parse Expr
level self logical = parse_logical self
level self relation = parse_relation self
level self shift = parse_shift self
level self simple = parse_simple self
level self term = parse_term self
level self factor = parse_factor self

pos_tier : (l : Level) → 0 < level_tier l
unfolding level_tier
pos_tier logical = omega arith
pos_tier relation = omega arith
pos_tier shift = omega arith
pos_tier simple = omega arith
pos_tier term = omega arith
pos_tier factor = omega arith

tier_tighter : (l : Level) → level_tier l < 6 → level_tier (tighter l) ≡ suc (level_tier l)
unfolding level_tier tighter
tier_tighter logical h = refl
tier_tighter relation h = refl
tier_tighter shift h = refl
tier_tighter simple h = refl
tier_tighter term h = refl
tier_tighter factor h = absurd (omega arith)

-- Behind its first operand a level's function loops, given that no sign stands first.
level-chain :
    (self : Parse Expr) (l : Level) (s : State)
    → level_tier l < 6
    → (l ≡ simple → is_sign s.cur.kind ≡ false)
    → level self l s ≡ parse_tier (level_tier l) (level self (tighter l)) s
unfolding level_tier tighter parse_logical parse_relation parse_shift parse_simple parse_term
level-chain self logical s h u = refl
level-chain self relation s h u = refl
level-chain self shift s h u = refl
level-chain self simple s h u = rw (u refl) refl
level-chain self term s h u = refl
level-chain self factor s h u = absurd (omega arith)

unsigned :
    (l : Level) {t : Token} {ts : List Token} {x : Expr}
    → Tier (tighter l) t ts x
    → l ≡ simple
    → is_sign t.kind ≡ false
unfolding tighter level_tier
unsigned l d e = Tier-unsigned d (rw e (omega arith))

-- What stands behind the first operand of a chain does not continue the operand.
Chain-Follows :
    {l : Level} {x e : Expr} {us : List Token}
    → Chain l x us e
    → (rest : List Token) → Follows (level_tier l) rest
    → Follows (suc (level_tier l)) (us ++ rest)
Chain-Follows Chain.end_chain rest h = Follows-le _ rest (omega arith) h
Chain-Follows {l} (Chain.operator op t d c) rest h =
    operator_binding op.kind (level_tier l) (pos_tier l) t

||-false_right : (a b : Bool) → a || b ≡ false → b ≡ false
||-false_right a b h = ground arith

exp_binding : (k : Kind) → k ≡ Kind.exp → binding k ≤ 7
unfolding binding
exp_binding k e = rw e (omega arith)

module _ (n : ℕ) (self : Parse Expr) (reads : Reads n self) where
  mutual
    unfolding level_tier tighter

    Tier-read :
        {l : Level} {t : Token} {ts : List Token} {e : Expr}
        → Tier l t ts e
        → (es : List ParseError) (rest : List Token) → Follows (level_tier l) rest
        → length (ts ++ rest) ≤ n
        → level self l (resume es (t ∷ ts ++ rest)) ≡ (e, resume es rest)
    Tier-read (Tier.chain {t} {ts} {us} {x} {e} l lt d c) es rest f le =
        let (len1, len2) = length-split ts us rest in
        let tail : NonEmpty (us ++ rest) = append-NonEmpty us rest (Follows-NonEmpty _ rest f) in
        let len3 : suc (left (resume es (us ++ rest))) ≡ length (us ++ rest) =
          left-resume es (us ++ rest) tail in
        let s : State = resume es (t ∷ ts ++ (us ++ rest)) in
        let g : Follows (level_tier (tighter l)) (us ++ rest) =
          subst (λ i. Follows i (us ++ rest)) (sym (tier_tighter l lt)) (Chain-Follows c rest f) in
        ap (λ z. level self l (resume es (t ∷ z))) (append_assoc ts us rest)
        ∙ level-chain self l s lt (unsigned l d)
        ∙ parse_tier_run (level_tier l) (level self (tighter l)) x s (resume es (us ++ rest))
            (e, resume es rest) (Tier-read d es (us ++ rest) g (omega arith))
            (Chain-read c _ es rest lt f (omega arith) (omega arith))
    Tier-read (Tier.signed {t} {u} {ts} {us} {x} {e} sg d c) es rest f le =
        let (len1, len2) = length-split ts us rest in
        let tail : NonEmpty (us ++ rest) = append-NonEmpty us rest (Follows-NonEmpty _ rest f) in
        let len3 : suc (left (resume es (us ++ rest))) ≡ length (us ++ rest) =
          left-resume es (us ++ rest) tail in
        ap (λ z. level self simple (resume es (t ∷ u ∷ z))) (append_assoc ts us rest)
        ∙ simple_signed self (resume es (t ∷ u ∷ ts ++ (us ++ rest))) (resume es (us ++ rest)) x
            (e, resume es rest) sg
            (behind (parse_term self) es t (u ∷ ts ++ (us ++ rest)) (x, resume es (us ++ rest)) tt
              (Tier-read d es (us ++ rest) (Chain-Follows c rest f) (omega arith)))
            (Chain-read c _ es rest (omega arith) f (omega arith) (omega arith))
    Tier-read (Tier.primary {t} {ts} {e} d) es rest f le =
        factor_primary self (resume es (t ∷ ts ++ rest)) (resume es rest) e
          (||-false_right _ _ (starts_primary t.kind (Primary-head d)))
          (Primary-read n self reads d es rest (Follows-le 7 rest (omega arith) f) le)
          (not_at_exp es rest f)
    Tier-read (Tier.unary {t} {u} {ts} {e} a d) es rest f le =
        factor_unary self (resume es (t ∷ u ∷ ts ++ rest)) (resume es rest) e a (
          behind (parse_primary self) es t (u ∷ ts ++ rest) (e, resume es rest) tt
            (Primary-read n self reads d es rest (Follows-le 7 rest (omega arith) f) (omega arith)))
    Tier-read (Tier.power {t} {u} {ts} {us} {x} {y} op a k b) es rest f le =
        let tail : List Token = u ∷ us ++ rest in
        let (len1, len2) = length-split ts (op ∷ u ∷ us) rest in
        ap (λ z. level self factor (resume es (t ∷ z))) (append_assoc ts (op ∷ u ∷ us) rest)
        ∙ factor_power self (resume es (t ∷ ts ++ op ∷ tail)) (resume es (op ∷ tail))
            (resume es rest) x y (||-false_right _ _ (starts_primary t.kind (Primary-head a)))
            (Primary-read n self reads a es (op ∷ tail) (exp_binding op.kind k) (omega arith))
            (at-resume es op tail Kind.exp k)
            (behind (parse_primary self) es op tail (y, resume es rest) tt
              (Primary-read n self reads b es rest (Follows-le 7 rest (omega arith) f)
                (omega arith)))

    Chain-read :
        {l : Level} {x e : Expr} {us : List Token}
        → Chain l x us e
        → (fuel : ℕ) (es : List ParseError) (rest : List Token) → level_tier l < 6
        → Follows (level_tier l) rest
        → length (us ++ rest) ≤ suc n
        → length (us ++ rest) ≤ fuel
        → fold_from fuel (level_tier l) (level self (tighter l)) x (resume es (us ++ rest))
          ≡ (e, resume es rest)
    Chain-read {l} (Chain.end_chain {x = x}) fuel es rest lt f le le' =
        fold_from-end (level_tier l) (level self (tighter l)) fuel x es rest (pos_tier l) f le'
    Chain-read {l} (Chain.operator op t d c) zero es rest lt f le le' = absurd (omega arith)
    Chain-read {l} (Chain.operator {x = x} {y} {e} {t = u} {ts} {us} op t d c) (suc fuel) es rest lt
          f le le' =
        let (len1, len2) = length-split ts us rest in
        let g : Follows (level_tier (tighter l)) (us ++ rest) =
          subst (λ i. Follows i (us ++ rest)) (sym (tier_tighter l lt)) (Chain-Follows c rest f) in
        let tail : List Token = u ∷ ts ++ (us ++ rest) in
        ap
          (λ z.
            fold_from (suc fuel) (level_tier l) (level self (tighter l)) x (resume es (op ∷ u ∷ z)))
          (append_assoc ts us rest)
        ∙ fold_from-operator (level_tier l) (level self (tighter l)) fuel x y
            (resume es (op ∷ tail)) (resume es (us ++ rest)) (e, resume es rest) t
            (behind (level self (tighter l)) es op tail (y, resume es (us ++ rest)) tt
              (Tier-read d es (us ++ rest) g (omega arith)))
            (Chain-read c fuel es rest lt f (omega arith) (omega arith))

  range_read :
      (t : Token) (ts : List Token) (e : Expr)
      → Expression t ts e
      → (es : List ParseError) (rest : List Token) → Follows 0 rest
      → length (ts ++ rest) ≤ n
      → parse_range self (resume es (t ∷ ts ++ rest)) ≡ (e, resume es rest)
  unfolding level_tier
  range_read t ts e (Expression.plain d) es rest f le =
      range_plain self (resume es (t ∷ ts ++ rest)) (resume es rest) e
        (Tier-read d es rest (Follows-le 1 rest (omega arith) f) le) (not_at_direction es rest f)
  range_read t _ _ (Expression.range {u = u} {ts} {us} {l} {r} d a dir b) es rest f le =
      let tail : List Token = u ∷ us ++ rest in
      let (len1, len2) = length-split ts (d ∷ u ∷ us) rest in
      ap (λ z. parse_range self (resume es (t ∷ z))) (append_assoc ts (d ∷ u ∷ us) rest)
      ∙ range_run self (resume es (t ∷ ts ++ (d ∷ tail))) (resume es (d ∷ tail)) (resume es rest) l
          r (Tier-read a es (d ∷ tail) (direction_binding d.kind dir) (omega arith)) dir
          (behind (parse_logical self) es d tail (r, resume es rest) tt
            (Tier-read b es rest (Follows-le 1 rest (omega arith) f) (omega arith)))

parse_expr_from-Reads : (n : ℕ) → Reads n (parse_expr_from n)
unfolding parse_expr_from
parse_expr_from-Reads zero t ts e d es rest f lt = elim lt [ ]
parse_expr_from-Reads (suc n) t ts e d es rest f lt =
    range_read n (parse_expr_from n) (parse_expr_from-Reads n) t ts e d es rest f (omega arith)

-- Where an expression of the grammar stands first in the tokens left and a token that continues no
-- phrase comes behind it, the parser returns the expression's node, stands at that token and reports
-- no error.
pub parse_expr-Expression :
    (t : Token) (ts : List Token) (e : Expr) (es : List ParseError) (rest : List Token)
    → Expression t ts e
    → Follows 0 rest
    → parse_expr (resume es (t ∷ ts ++ rest)) ≡ (e, resume es rest)
unfolding parse_expr
parse_expr-Expression t ts e es rest d f =
    parse_expr_from-Reads (suc (length (ts ++ rest))) t ts e d es rest f (omega arith)
