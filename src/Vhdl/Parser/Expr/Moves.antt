-- ===== src/Vhdl/Parser/Expr/Moves.antt =====
-- tools/socgen/vhdl/parser.go: the lists and names of the expression parser end before their rounds
-- are used up, given that the expressions in them do.
use jcore_soc.Base.{
  ℕ, zero, suc, ◌≤◌, ◌<◌, ◌≡◌, refl, ◌≢◌, inl, inr, true, false, ◌&&◌, ◌||◌, List, [], ◌∷◌, arith,
  Bool-cases, &&-elim, Bytes,
}
use jcore_soc.Vhdl.Kind.{Kind, is_eof}
use jcore_soc.Vhdl.Kind.Code.{open_paren, other, primary_class, is_selector, same_kind, kind_code}
use jcore_soc.Vhdl.Source.{Token}
use jcore_soc.Vhdl.Ast.{Expr}
use jcore_soc.Vhdl.Parser.{
  State, ParseError, kind_or_eof, Parse, at, advance, expect, peek_kind, left,
}
use jcore_soc.Vhdl.Parser.Steps.{
  Steps, here, move, Steps-trans, IsEnded, advance-IsEnded, Steps-IsEnded, Steps-left, left-advance,
  at-left_lt, expect-Steps, advance-Steps, same_kind-is_eof,
}
use jcore_soc.Vhdl.Parser.Loop.{more_items, items, unless_closed}
use jcore_soc.Vhdl.Parser.Loop.Moves.{Moves, more_items-Steps, items-Moves, unless_closed-Moves}
use jcore_soc.Vhdl.Parser.Expr.{
  at_attribute, dots_from, ticks_from, parse_element_assoc, parse_paren_or_aggregate,
  parse_assoc_element, parse_args, suffixes_from,
}

-- Behind steps from a state with fewer than `n` tokens left, `f` steps on.
pub then_Moves :
    {B : Type 0} {n : ℕ} (f : Parse B)
    → Moves n f
    → (s t : State) → IsEnded s
    → left s < n
    → Steps s t
    → Steps s (f t).1
then_Moves f f-Moves s t h lt q =
    let le : left t ≤ left s = Steps-left q in
    Steps-trans q (f-Moves t (Steps-IsEnded h q) (omega arith))

pub open_paren_at : (k : Kind) → primary_class k ≡ open_paren → same_kind k Kind.lparen ≡ true
unfolding primary_class same_kind kind_code
open_paren_at Kind.lparen h = refl
open_paren_at _ h = cc

pub primary_class-is_eof : (k : Kind) → primary_class k ≢ other → is_eof k ≡ false
unfolding primary_class
primary_class-is_eof Kind.eof h = absurd (h refl)
primary_class-is_eof _ h = refl

peek_at :
    (t : Token) (ts : List Token) (es : List ParseError) (k : Kind)
    → same_kind (peek_kind 1 (record { cur = t; rest = ts; errs = es })) k ≡ true
    → is_eof k ≡ false
    → at k (advance (record { cur = t; rest = ts; errs = es })) ≡ true
unfolding peek_kind kind_or_eof advance at
peek_at t [] es k y n = (let e : true ≡ is_eof k = same_kind-is_eof Kind.eof k y in cc)
peek_at t (u ∷ us) es k y n = y

pub at-peek_kind :
    (s : State) → same_kind (peek_kind 1 s) Kind.lparen ≡ true → at Kind.lparen (advance s) ≡ true
at-peek_kind s y = peek_at s.cur s.rest s.errs Kind.lparen y refl

pub dots_from-Steps :
    (fuel : ℕ) (text : Bytes) (s : State)
    → IsEnded s
    → left s < fuel
    → Steps s (dots_from fuel text s).1
unfolding dots_from
dots_from-Steps zero text s h lt = elim lt [ ]
dots_from-Steps (suc fuel) text s h lt = elim (Bool-cases (at Kind.dot s)) [
  | inl y ↦ elim (Bool-cases (is_selector (advance s).cur.kind)) [
    | inl z ↦
        let shorter : left (advance s) < left s = at-left_lt Kind.dot s h y refl in
        let le : left (advance (advance s)) ≤ left (advance s) = left-advance (advance s) in
        rw (y, z)
          (move (
            move (
              dots_from-Steps fuel _ (advance (advance s))
                (advance-IsEnded (advance s) (advance-IsEnded s h)) (omega arith))))
    | inr z ↦ rw (y, z) (move here)
  ]
  | inr y ↦ rw y here
]

pub ticks_from-Steps :
    (fuel : ℕ) (text : Bytes) (s : State)
    → IsEnded s
    → left s < fuel
    → Steps s (ticks_from fuel text s).1
unfolding ticks_from
ticks_from-Steps zero text s h lt = elim lt [ ]
ticks_from-Steps (suc fuel) text s h lt = elim (Bool-cases (at_attribute s)) [
  | inl y ↦
      let shorter : left (advance s) < left s = at-left_lt Kind.tick s h (&&-elim _ _ y).0 refl in
      let le : left (advance (advance s)) ≤ left (advance s) = left-advance (advance s) in
      rw y (
        move (
          move (
            ticks_from-Steps fuel _ (advance (advance s))
              (advance-IsEnded (advance s) (advance-IsEnded s h)) (omega arith))))
  | inr y ↦ rw y here
]

module _ (n : ℕ) (self : Parse Expr) (self-Moves : Moves n self) where
  pub parse_element_assoc-Moves : Moves n (parse_element_assoc self)
  unfolding parse_element_assoc
  parse_element_assoc-Moves s h lt =
      let q : Steps s (self s).1 = self-Moves s h lt in
      let s1 : State = (self s).1 in
      let le : left s1 ≤ left s = Steps-left q in
      let s2 : State = (more_items Kind.bar (λ _. false) self s1).1 in
      let q2 : Steps s1 s2 =
        more_items-Steps n Kind.bar (λ _. false) refl self self-Moves s1 (Steps-IsEnded h q)
          (omega arith) in
      let q3 : Steps s (self (expect Kind.arrow s2)).1 =
        then_Moves self self-Moves s (expect Kind.arrow s2) h lt
          (Steps-trans q (Steps-trans q2 (expect-Steps Kind.arrow s2))) in
      elim (Bool-cases (at Kind.bar s1 || at Kind.arrow s1)) [ inl y ↦ rw y q3 | inr y ↦ rw y q ]

  pub parse_paren_or_aggregate-Steps :
      (s : State)
      → IsEnded s
      → at Kind.lparen s ≡ true
      → left s ≤ n
      → Steps (advance s) (parse_paren_or_aggregate self s).1
  unfolding parse_paren_or_aggregate expect
  parse_paren_or_aggregate-Steps s h y le =
      let shorter : left (advance s) < left s = at-left_lt Kind.lparen s h y refl in
      let q : Steps (advance s)
          (unless_closed (items Kind.comma (at Kind.rparen) (parse_element_assoc self))
            (advance s)).1 =
        unless_closed-Moves _
          (items-Moves n Kind.comma (at Kind.rparen) refl (parse_element_assoc self)
            parse_element_assoc-Moves)
          (advance s) (advance-IsEnded s h) (omega arith) in
      rw y (Steps-trans q (expect-Steps Kind.rparen _))

  pub parse_assoc_element-Moves : Moves n (parse_assoc_element self)
  unfolding parse_assoc_element
  parse_assoc_element-Moves s h lt =
      let q : Steps s (self s).1 = self-Moves s h lt in
      elim (Bool-cases (at Kind.arrow (self s).1)) [
        | inl y ↦ rw y (
            then_Moves self self-Moves s (advance (self s).1) h lt
              (Steps-trans q (advance-Steps (self s).1)))
        | inr y ↦ rw y q
      ]

  pub parse_args-Moves : Moves n (parse_args self)
  unfolding parse_args
  parse_args-Moves s h lt =
      let q : Steps s
          (unless_closed (items Kind.comma (λ _. false) (parse_assoc_element self)) s).1 =
        unless_closed-Moves _
          (items-Moves n Kind.comma (λ _. false) refl (parse_assoc_element self)
            parse_assoc_element-Moves)
          s h lt in
      Steps-trans q (expect-Steps Kind.rparen _)

  pub suffixes_from-Steps :
      (fuel : ℕ) (e : Expr) (s : State)
      → IsEnded s
      → left s ≤ n
      → left s < fuel
      → Steps s (suffixes_from self fuel e s).1
  unfolding suffixes_from
  suffixes_from-Steps zero e s h le lt = elim lt [ ]
  suffixes_from-Steps (suc fuel) e s h le lt =
      let le1 : left (advance (advance s)) ≤ left (advance s) = left-advance (advance s) in
      let on : left (advance s) < left s
          → (e' : Expr) → Steps s (suffixes_from self fuel e' (advance (advance s))).1 =
        λ shorter e'. move (
          move (
            suffixes_from-Steps fuel e' (advance (advance s))
              (advance-IsEnded (advance s) (advance-IsEnded s h)) (omega arith) (omega arith))) in
      elim (Bool-cases (at Kind.lparen s)) [
        | inl y ↦
            let shorter : left (advance s) < left s = at-left_lt Kind.lparen s h y refl in
            let q : Steps (advance s) (parse_args self (advance s)).1 =
              parse_args-Moves (advance s) (advance-IsEnded s h) (omega arith) in
            let le2 : left (parse_args self (advance s)).1 ≤ left (advance s) = Steps-left q in
            rw y (
              move (
                Steps-trans q (
                  suffixes_from-Steps fuel _ (parse_args self (advance s)).1
                    (Steps-IsEnded (advance-IsEnded s h) q) (omega arith) (omega arith))))
        | inr y ↦ elim (Bool-cases (at Kind.dot s && is_selector (peek_kind 1 s))) [
          | inl z ↦ rw (y, z) (on (at-left_lt Kind.dot s h (&&-elim _ _ z).0 refl) _)
          | inr z ↦ elim (Bool-cases (at_attribute s)) [
            | inl w ↦ rw (y, z, w) (on (at-left_lt Kind.tick s h (&&-elim _ _ w).0 refl) _)
            | inr w ↦ rw (y, z, w) here
          ]
        ]
      ]
