-- ===== src/Vhdl/Parser/Expr/Total.antt =====
-- tools/socgen/vhdl/parser.go: the expression parser only advances and reports, and the fuel of the
-- model is enough for it.
use jcore_soc.Base.{
  true, List, ◌++◌, all, ℕ, zero, suc, ◌≤◌, ◌≡◌, refl, inl, inr, ◌&&◌, arith, Bool-cases, &&-elim,
  Bytes,
}
use jcore_soc.Vhdl.Kind.{Kind}
use jcore_soc.Vhdl.Kind.Code.{
  PrimaryClass, number, text_literal, open_paren, name, allocator, keyword, other, primary_class,
  is_sign, is_abs_not, is_direction, same_kind,
}
use jcore_soc.Vhdl.Ast.{Expr}
use jcore_soc.Vhdl.Parser.{ParseError, State, Parse, at, advance, peek_kind, left}
use jcore_soc.Vhdl.Parser.Steps.{
  Steps-errs, Steps, here, move, fail, is_message, Steps-trans, IsEnded, advance-IsEnded,
  Steps-IsEnded, Steps-left, left-advance, left-advance_lt, advance-Steps,
}
use jcore_soc.Vhdl.Parser.Loop.Moves.{Moves, after_advance, fold_tier-Steps, parse_tier-Moves}
use jcore_soc.Vhdl.Parser.Expr.Moves.{
  then_Moves, open_paren_at, primary_class-is_eof, at-peek_kind, dots_from-Steps, ticks_from-Steps,
  parse_paren_or_aggregate-Steps, suffixes_from-Steps,
}
use jcore_soc.Vhdl.Parser.Expr.{
  dots_from, ticks_from, parse_name, parse_number, parse_primary_of, parse_primary, parse_factor,
  parse_term, parse_simple, parse_shift, parse_relation, parse_logical, parse_range,
  parse_expr_from, parse_expr, parse_discrete_range,
}

module _ (n : ℕ) (self : Parse Expr) (self-Moves : Moves n self) where
  pub parse_name-Steps :
      (s : State) → IsEnded s → left s ≤ n → Steps (advance s) (parse_name self s).1
  unfolding parse_name
  parse_name-Steps s h le =
      let s1 : State = advance s in
      let shorter : left s1 ≤ left s = left-advance s in
      let h1 : IsEnded s1 = advance-IsEnded s h in
      let s2 : State = (dots_from (suc (left s1)) s.cur.lit s1).1 in
      let q2 : Steps s1 s2 = dots_from-Steps (suc (left s1)) s.cur.lit s1 h1 (omega arith) in
      let le2 : left s2 ≤ left s1 = Steps-left q2 in
      let text : Bytes = (dots_from (suc (left s1)) s.cur.lit s1).0 in
      let s3 : State = (ticks_from (suc (left s2)) text s2).1 in
      let h2 : IsEnded s2 = Steps-IsEnded h1 q2 in
      let q3 : Steps s2 s3 = ticks_from-Steps (suc (left s2)) text s2 h2 (omega arith) in
      let le3 : left s3 ≤ left s2 = Steps-left q3 in
      let h3 : IsEnded s3 = Steps-IsEnded h2 q3 in
      let to_s3 : Steps s1 s3 = Steps-trans q2 q3 in
      elim (Bool-cases (at Kind.tick s3 && same_kind (peek_kind 1 s3) Kind.lparen)) [
        | inl y ↦ rw y (
            Steps-trans to_s3 (
              move (
                move (
                  parse_paren_or_aggregate-Steps n self self-Moves (advance s3)
                    (advance-IsEnded s3 h3) (at-peek_kind s3 (&&-elim _ _ y).1)
                    (let le4 : left (advance s3) ≤ left s3 = left-advance s3 in omega arith)))))
        | inr y ↦ rw y (
            Steps-trans to_s3 (
              suffixes_from-Steps n self self-Moves (suc (left s3)) _ s3 h3 (omega arith)
                (omega arith)))
      ]

  pub parse_number-Steps : (s : State) → Steps (advance s) (parse_number self s).1
  unfolding parse_number
  parse_number-Steps s = elim (Bool-cases (at Kind.ident (advance s))) [
    | inl y ↦ rw y (move here)
    | inr y ↦ rw y here
  ]

  parse_primary_of-Steps :
      (c : PrimaryClass) (s : State)
      → primary_class s.cur.kind ≡ c
      → IsEnded s
      → left s ≤ n
      → Steps s (parse_primary_of self c s).1
  unfolding parse_primary_of is_message at same_kind
  parse_primary_of-Steps number s e h le = move (parse_number-Steps s)
  parse_primary_of-Steps text_literal s e h le = move here
  parse_primary_of-Steps open_paren s e h le =
      move (parse_paren_or_aggregate-Steps n self self-Moves s h (open_paren_at s.cur.kind e) le)
  parse_primary_of-Steps name s e h le = move (parse_name-Steps s h le)
  parse_primary_of-Steps allocator s e h le = move (
      after_advance self self-Moves s h le
        (left-advance_lt s h (primary_class-is_eof s.cur.kind (λ o. cc))))
  parse_primary_of-Steps keyword s e h le = move here
  parse_primary_of-Steps other s e h le = fail _ refl here

  pub parse_primary-Moves : Moves (suc n) (parse_primary self)
  unfolding parse_primary
  parse_primary-Moves s h lt =
      parse_primary_of-Steps (primary_class s.cur.kind) s refl h (omega arith)

  pub parse_factor-Moves : Moves (suc n) (parse_factor self)
  unfolding parse_factor
  parse_factor-Moves s h lt =
      let q : Steps s (parse_primary self s).1 = parse_primary-Moves s h lt in
      let s2 : State = (parse_primary self s).1 in
      elim (Bool-cases (is_abs_not s.cur.kind)) [
        | inl y ↦ rw y (
            then_Moves (parse_primary self) parse_primary-Moves s (advance s) h lt
              (advance-Steps s))
        | inr y ↦ elim (Bool-cases (at Kind.exp s2)) [
          | inl z ↦
              rw (y, z)
                (then_Moves (parse_primary self) parse_primary-Moves s (advance s2) h lt
                  (Steps-trans q (advance-Steps s2)))
          | inr z ↦ rw (y, z) q
        ]
      ]

  pub parse_term-Moves : Moves (suc n) (parse_term self)
  unfolding parse_term
  parse_term-Moves = parse_tier-Moves (suc n) 5 (omega arith) (parse_factor self) parse_factor-Moves

  pub parse_simple-Moves : Moves (suc n) (parse_simple self)
  unfolding parse_simple
  parse_simple-Moves s h lt = elim (Bool-cases (is_sign s.cur.kind)) [
    | inl y ↦
        let q : Steps s (parse_term self (advance s)).1 =
          then_Moves (parse_term self) parse_term-Moves s (advance s) h lt (advance-Steps s) in
        let le : left (parse_term self (advance s)).1 ≤ left s = Steps-left q in
        rw y (
          Steps-trans q (
            fold_tier-Steps (suc n) 4 (omega arith) (parse_term self) parse_term-Moves _ _
              (Steps-IsEnded h q) (omega arith)))
    | inr y ↦
        rw y (parse_tier-Moves (suc n) 4 (omega arith) (parse_term self) parse_term-Moves s h lt)
  ]

  pub parse_logical-Moves : Moves (suc n) (parse_logical self)
  unfolding parse_logical parse_relation parse_shift
  parse_logical-Moves = parse_tier-Moves (suc n) 1 (omega arith) (parse_relation self) (
      parse_tier-Moves (suc n) 2 (omega arith) (parse_shift self)
        (parse_tier-Moves (suc n) 3 (omega arith) (parse_simple self) parse_simple-Moves))

  parse_range-Moves : Moves (suc n) (parse_range self)
  unfolding parse_range
  parse_range-Moves s h lt =
      let q : Steps s (parse_logical self s).1 = parse_logical-Moves s h lt in
      let s1 : State = (parse_logical self s).1 in
      elim (Bool-cases (is_direction s1.cur.kind)) [
        | inl y ↦ rw y (
            then_Moves (parse_logical self) parse_logical-Moves s (advance s1) h lt
              (Steps-trans q (advance-Steps s1)))
        | inr y ↦ rw y q
      ]

pub parse_expr_from-Moves : (n : ℕ) → Moves n (parse_expr_from n)
unfolding parse_expr_from
parse_expr_from-Moves zero s h lt = elim lt [ ]
parse_expr_from-Moves (suc n) s h lt =
    parse_range-Moves n (parse_expr_from n) (parse_expr_from-Moves n) s h lt

-- From a token list with EOF at its end, the parser of expressions only advances and reports errors
-- of the source.
pub parse_expr-Steps : (s : State) → IsEnded s → Steps s (parse_expr s).1
unfolding parse_expr
parse_expr-Steps s h = parse_expr_from-Moves (suc (left s)) s h (omega arith)

pub parse_discrete_range-Steps : (s : State) → IsEnded s → Steps s (parse_discrete_range s).1
unfolding parse_discrete_range
parse_discrete_range-Steps s h =
    let q : Steps s (parse_expr s).1 = parse_expr-Steps s h in
    let s' : State = (parse_expr s).1 in
    let q' : Steps s (parse_expr (advance s')).1 =
      Steps-trans q
        (move (parse_expr-Steps (advance s') (advance-IsEnded s' (Steps-IsEnded h q)))) in
    elim (Bool-cases (at Kind.kw_range s')) [ inl y ↦ rw y q' | inr y ↦ rw y q ]

-- From a token list with EOF at its end, the parser of expressions adds only messages of the source to
-- the errors, so no loop runs out of the rounds that the model allows it.
pub parse_expr_reports :
    (s : State)
    → IsEnded s
    → (new : List ParseError) × ((parse_expr s).1.errs ≡ s.errs ++ new)
      × (all is_message new ≡ true)
parse_expr_reports s h = Steps-errs (parse_expr-Steps s h)
