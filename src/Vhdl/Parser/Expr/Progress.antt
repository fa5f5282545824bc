-- ===== src/Vhdl/Parser/Expr/Progress.antt =====
-- The expression parser makes progress: it consumes a token or reports an error.
use jcore_soc.Base.{
  ℕ, suc, ◌+◌, ◌≤◌, ◌<◌, ◌≡◌, refl, sym, ap, ◌∙◌, ◌≢◌, ◌⊎◌, inl, inr, true, false, List, [], ◌∷◌,
  ◌++◌, arith, Bool-cases, length, length-append,
}
use jcore_soc.Vhdl.Kind.{Kind, is_eof}
use jcore_soc.Vhdl.Kind.Code.{
  PrimaryClass, number, text_literal, open_paren, name, allocator, keyword, other, primary_class,
  is_sign, is_abs_not, is_direction, same_kind,
}
use jcore_soc.Vhdl.Ast.{Expr}
use jcore_soc.Vhdl.Source.{Token}
use jcore_soc.Vhdl.Parser.{State, ParseError, Parse, at, advance, errorf, left}
use jcore_soc.Vhdl.Parser.Steps.{
  Steps, here, Steps-trans, Steps-errs, Steps-left, Steps-tokens, IsEnded, Steps-IsEnded,
  advance-IsEnded, left-advance_lt, advance-Steps,
}
use jcore_soc.Vhdl.Parser.Loop.{parse_tier}
use jcore_soc.Vhdl.Parser.Loop.Moves.{Moves, after_advance, fold_tier-Steps, parse_tier-Moves}
use jcore_soc.Vhdl.Parser.Expr.Moves.{
  open_paren_at, primary_class-is_eof, parse_paren_or_aggregate-Steps,
}
use jcore_soc.Vhdl.Parser.Expr.Total.{
  parse_name-Steps, parse_number-Steps, parse_primary-Moves, parse_factor-Moves, parse_term-Moves,
  parse_simple-Moves, parse_logical-Moves, parse_expr_from-Moves, parse_expr-Steps,
}
use jcore_soc.Vhdl.Parser.Expr.{
  parse_primary_of, parse_primary, parse_factor, parse_term, parse_simple, parse_shift,
  parse_relation, parse_logical, parse_range, parse_expr_from, parse_expr,
}

-- Fewer tokens are left, or there are more errors.
abbrev pub Acts : State → State → Type 0
Acts s t = (left t < left s) ⊎ (length s.errs < length t.errs)

more_errs : {s t : State} → Steps s t → length s.errs ≤ length t.errs
more_errs {s} {t} q =
    let (new, e, m) = Steps-errs q in
    let n : length t.errs ≡ length s.errs + length new = ap length e ∙ length-append s.errs new in
    omega (arith, n)

Acts-Steps : (s : State) {t u : State} → Acts s t → Steps t u → Acts s u
Acts-Steps s (inl l) q = inl (omega (arith, l, Steps-left q))
Acts-Steps s (inr l) q = inr (omega (arith, l, more_errs q))

advance-Acts :
    (s t : State) → IsEnded s → is_eof s.cur.kind ≡ false → Steps (advance s) t → Acts s t
advance-Acts s t h n q =
    let l : left (advance s) < left s = left-advance_lt s h n in
    inl (omega (arith, l, Steps-left q))

abbrev Acting : {A : Type 0} → ℕ → Parse A → Type 0
Acting n f = (s : State) → IsEnded s → left s < n → Acts s (f s).1

abs_not-is_eof : (k : Kind) → is_abs_not k ≡ true → is_eof k ≡ false
unfolding is_abs_not
abs_not-is_eof Kind.eof h = cc
abs_not-is_eof _ h = refl

sign-is_eof : (k : Kind) → is_sign k ≡ true → is_eof k ≡ false
unfolding is_sign
sign-is_eof Kind.eof h = cc
sign-is_eof _ h = refl

parse_tier-Acting :
    (n i : ℕ) (pos_i : 0 < i) (operand : Parse Expr)
    → Moves n operand
    → Acting n operand
    → Acting n (parse_tier i operand)
unfolding parse_tier
parse_tier-Acting n i pos_i operand operand-Moves operand-Acting s h lt =
    let q : Steps s (operand s).1 = operand-Moves s h lt in
    let le : left (operand s).1 ≤ left s = Steps-left q in
    Acts-Steps s (operand-Acting s h lt) (
      fold_tier-Steps n i pos_i operand operand-Moves (operand s).0 (operand s).1
        (Steps-IsEnded h q) (omega arith))

module _ (n : ℕ) (self : Parse Expr) (self-Moves : Moves n self) where
  begun :
      (c : PrimaryClass) (s : State) (t : State)
      → primary_class s.cur.kind ≡ c
      → c ≢ other
      → IsEnded s
      → Steps (advance s) t
      → Acts s t
  begun c s t e ne h q =
      advance-Acts s t h (primary_class-is_eof s.cur.kind (λ o. ne (sym e ∙ o))) q

  parse_primary_of-Acts :
      (c : PrimaryClass) (s : State)
      → primary_class s.cur.kind ≡ c
      → IsEnded s
      → left s ≤ n
      → Acts s (parse_primary_of self c s).1
  unfolding parse_primary_of errorf at same_kind
  parse_primary_of-Acts number s e h le =
      begun number s _ e (λ o. cc) h (parse_number-Steps n self self-Moves s)
  parse_primary_of-Acts text_literal s e h le = begun text_literal s _ e (λ o. cc) h here
  parse_primary_of-Acts open_paren s e h le =
      begun open_paren s _ e (λ o. cc) h
        (parse_paren_or_aggregate-Steps n self self-Moves s h (open_paren_at s.cur.kind e) le)
  parse_primary_of-Acts name s e h le =
      begun name s _ e (λ o. cc) h (parse_name-Steps n self self-Moves s h le)
  parse_primary_of-Acts allocator s e h le =
      let l : left (advance s) < left s =
        left-advance_lt s h (primary_class-is_eof s.cur.kind (λ o. cc)) in
      begun allocator s _ e (λ o. cc) h (after_advance self self-Moves s h le l)
  parse_primary_of-Acts keyword s e h le = begun keyword s _ e (λ o. cc) h here
  parse_primary_of-Acts other s e h le = inr (omega (arith, length-append s.errs (_ ∷ [])))

  parse_primary-Acting : Acting (suc n) (parse_primary self)
  unfolding parse_primary
  parse_primary-Acting s h lt =
      parse_primary_of-Acts (primary_class s.cur.kind) s refl h (omega arith)

  parse_factor-Acting : Acting (suc n) (parse_factor self)
  unfolding parse_factor
  parse_factor-Acting s h lt =
      let primary-Moves : Moves (suc n) (parse_primary self) =
        parse_primary-Moves n self self-Moves in
      let q : Steps s (parse_primary self s).1 = primary-Moves s h lt in
      let s2 : State = (parse_primary self s).1 in
      elim (Bool-cases (is_abs_not s.cur.kind)) [
        | inl y ↦
            let l : left (advance s) < left s = left-advance_lt s h (abs_not-is_eof s.cur.kind y) in
            rw y (
              advance-Acts s _ h (abs_not-is_eof s.cur.kind y)
                (primary-Moves (advance s) (advance-IsEnded s h) (omega arith)))
        | inr y ↦ elim (Bool-cases (at Kind.exp s2)) [
          | inl z ↦
              let l : left (advance s2) ≤ left s2 = Steps-left (advance-Steps s2) in
              rw (y, z)
                (Acts-Steps s (parse_primary-Acting s h lt) (
                  Steps-trans (advance-Steps s2) (
                    primary-Moves (advance s2) (advance-IsEnded s2 (Steps-IsEnded h q))
                      (omega (arith, l, Steps-left q)))))
          | inr z ↦ rw (y, z) (parse_primary-Acting s h lt)
        ]
      ]

  parse_term-Acting : Acting (suc n) (parse_term self)
  unfolding parse_term
  parse_term-Acting =
      parse_tier-Acting (suc n) 5 (omega arith) (parse_factor self)
        (parse_factor-Moves n self self-Moves) parse_factor-Acting

  parse_simple-Acting : Acting (suc n) (parse_simple self)
  unfolding parse_simple
  parse_simple-Acting s h lt =
      let term-Moves : Moves (suc n) (parse_term self) = parse_term-Moves n self self-Moves in
      elim (Bool-cases (is_sign s.cur.kind)) [
        | inl y ↦
            let no_eof : is_eof s.cur.kind ≡ false = sign-is_eof s.cur.kind y in
            let l : left (advance s) < left s = left-advance_lt s h no_eof in
            let q : Steps (advance s) (parse_term self (advance s)).1 =
              term-Moves (advance s) (advance-IsEnded s h) (omega arith) in
            rw y (
              advance-Acts s _ h no_eof (
                Steps-trans q (
                  fold_tier-Steps (suc n) 4 (omega arith) (parse_term self) term-Moves _ _
                    (Steps-IsEnded (advance-IsEnded s h) q) (omega (arith, l, Steps-left q)))))
        | inr y ↦ rw y (
            parse_tier-Acting (suc n) 4 (omega arith) (parse_term self) term-Moves parse_term-Acting
              s h lt)
      ]

  parse_logical-Acting : Acting (suc n) (parse_logical self)
  unfolding parse_logical parse_relation parse_shift
  parse_logical-Acting =
      let simple-Moves : Moves (suc n) (parse_simple self) = parse_simple-Moves n self self-Moves in
      let shift-Moves = parse_tier-Moves (suc n) 3 (omega arith) (parse_simple self) simple-Moves in
      let relation-Moves =
        parse_tier-Moves (suc n) 2 (omega arith) (parse_tier 3 (parse_simple self)) shift-Moves in
      parse_tier-Acting (suc n) 1 (omega arith) (parse_relation self) relation-Moves (
        parse_tier-Acting (suc n) 2 (omega arith) (parse_shift self) shift-Moves (
          parse_tier-Acting (suc n) 3 (omega arith) (parse_simple self) simple-Moves
            parse_simple-Acting))

  parse_range-Acting : Acting (suc n) (parse_range self)
  unfolding parse_range
  parse_range-Acting s h lt =
      let logical-Moves : Moves (suc n) (parse_logical self) =
        parse_logical-Moves n self self-Moves in
      let q : Steps s (parse_logical self s).1 = logical-Moves s h lt in
      let s1 : State = (parse_logical self s).1 in
      let l : left (advance s1) ≤ left s1 = Steps-left (advance-Steps s1) in
      elim (Bool-cases (is_direction s1.cur.kind)) [
        | inl y ↦ rw y (
            Acts-Steps s (parse_logical-Acting s h lt) (
              Steps-trans (advance-Steps s1) (
                logical-Moves (advance s1) (advance-IsEnded s1 (Steps-IsEnded h q))
                  (omega (arith, l, Steps-left q)))))
        | inr y ↦ rw y (parse_logical-Acting s h lt)
      ]

parse_expr-Acts : (s : State) → IsEnded s → Acts s (parse_expr s).1
unfolding parse_expr parse_expr_from
parse_expr-Acts s h =
    parse_range-Acting (left s) (parse_expr_from (left s)) (parse_expr_from-Moves (left s)) s h
      (omega arith)

-- From a token list with EOF at its end, parseExpr consumes at least one token or reports an error. The
-- tokens left are the end of those before, with EOF at their end, and the errors before are kept.
pub parse_expr_consumes :
    (s : State)
    → IsEnded s
    → (used : List Token) × (new : List ParseError) × (s.cur ∷ s.rest
        ≡ used ++ (parse_expr s).1.cur ∷ (parse_expr s).1.rest)
      × ((parse_expr s).1.errs ≡ s.errs ++ new)
      × ((0 < length used) ⊎ (0 < length new))
      × IsEnded (parse_expr s).1
parse_expr_consumes s h =
    let t : State = (parse_expr s).1 in
    let q : Steps s t = parse_expr-Steps s h in
    let (used, split) = Steps-tokens q in
    let (new, e, _) = Steps-errs q in
    let tokens : suc (length s.rest) ≡ length used + suc (length t.rest) =
      ap length split ∙ length-append used (t.cur ∷ t.rest) in
    let errors : length t.errs ≡ length s.errs + length new =
      ap length e ∙ length-append s.errs new in
    let acted : (0 < length used) ⊎ (0 < length new) = elim (parse_expr-Acts s h) [
      | inl l ↦ inl (omega (arith, tokens, l))
      | inr l ↦ inr (omega (arith, errors, l))
    ] in
    (used, new, split, e, acted, Steps-IsEnded h q)
