-- ===== src/Vhdl/Parser/Loop/Moves.antt =====
-- tools/socgen/vhdl/parser.go: the loops of the expression parser end before their rounds are used up.
use jcore_soc.Base.{
  ℕ, zero, suc, ◌≤◌, ◌<◌, ◌≡◌, inl, inr, Bool, false, List, arith, ◌==◌, ==_iff, Bool-cases,
}
use jcore_soc.Vhdl.Kind.{Kind, is_eof}
use jcore_soc.Vhdl.Kind.Code.{tier}
use jcore_soc.Vhdl.Ast.{Expr}
use jcore_soc.Vhdl.Parser.{State, Parse, at, advance, left}
use jcore_soc.Vhdl.Parser.Steps.{
  Steps, here, move, Steps-trans, IsEnded, advance-IsEnded, Steps-IsEnded, Steps-left,
  left-advance_lt, at-left_lt, tier-is_eof,
}
use jcore_soc.Vhdl.Parser.Loop.{
  fold_from, fold_tier, parse_tier, items_from, more_items, items, unless_closed,
}

-- From every state with fewer than `n` tokens left, and EOF at their end, `f` steps.
abbrev pub Moves : {A : Type 0} → ℕ → Parse A → Type 0
Moves n f = (s : State) → IsEnded s → left s < n → Steps s (f s).1

-- A token that is not EOF is consumed, and `f` goes on.
pub after_advance :
    {A : Type 0} {n : ℕ} (f : Parse A)
    → Moves n f
    → (s : State) → IsEnded s
    → left s ≤ n
    → left (advance s) < left s
    → Steps (advance s) (f (advance s)).1
after_advance f f-Moves s h le lt = f-Moves (advance s) (advance-IsEnded s h) (omega arith)

module _ (n i : ℕ) (pos_i : 0 < i) (operand : Parse Expr) (operand-Moves : Moves n operand) where
  fold_from-Steps :
      (fuel : ℕ) (x : Expr) (s : State)
      → IsEnded s
      → left s ≤ n
      → left s < fuel
      → Steps s (fold_from fuel i operand x s).1
  unfolding fold_from
  fold_from-Steps zero x s h le lt = elim lt [ ]
  fold_from-Steps (suc fuel) x s h le lt = elim (Bool-cases (tier s.cur.kind == i)) [
    | inl y ↦
        let e : tier s.cur.kind ≡ i = (==_iff _ _).0 y in
        let shorter : left (advance s) < left s =
          left-advance_lt s h (tier-is_eof s.cur.kind (rw e pos_i)) in
        let q : Steps (advance s) (operand (advance s)).1 =
          after_advance operand operand-Moves s h le shorter in
        let le' : left (operand (advance s)).1 ≤ left (advance s) = Steps-left q in
        rw y (
          move (
            Steps-trans q (
              fold_from-Steps fuel (Expr.binary_expr x s.cur.kind (operand (advance s)).0)
                (operand (advance s)).1 (Steps-IsEnded (advance-IsEnded s h) q) (omega arith)
                (omega arith))))
    | inr y ↦ rw y here
  ]

  pub fold_tier-Steps :
      (x : Expr) (s : State) → IsEnded s → left s ≤ n → Steps s (fold_tier i operand x s).1
  unfolding fold_tier
  fold_tier-Steps x s h le = fold_from-Steps (suc (left s)) x s h le (omega arith)

  pub parse_tier-Moves : Moves n (parse_tier i operand)
  unfolding parse_tier
  parse_tier-Moves s h lt =
      let q : Steps s (operand s).1 = operand-Moves s h lt in
      let le : left (operand s).1 ≤ left s = Steps-left q in
      Steps-trans q (fold_tier-Steps (operand s).0 (operand s).1 (Steps-IsEnded h q) (omega arith))

module _ {A : Type 0} (n : ℕ) (sep : Kind) (stop : State → Bool) (sep_not_eof : is_eof sep ≡ false)
    (item : Parse A) (item-Moves : Moves n item) where
  items_from-Steps :
      (fuel : ℕ) (s : State)
      → IsEnded s
      → left s ≤ n
      → left s < fuel
      → Steps s (items_from sep stop item fuel s).1
  unfolding items_from
  items_from-Steps zero s h le lt = elim lt [ ]
  items_from-Steps (suc fuel) s h le lt = elim (Bool-cases (at sep s)) [
    | inl y ↦
        let shorter : left (advance s) < left s = at-left_lt sep s h y sep_not_eof in
        let q : Steps (advance s) (item (advance s)).1 =
          after_advance item item-Moves s h le shorter in
        let le' : left (item (advance s)).1 ≤ left (advance s) = Steps-left q in
        let on : Steps (item (advance s)).1 (items_from sep stop item fuel (item (advance s)).1).1 =
          items_from-Steps fuel (item (advance s)).1 (Steps-IsEnded (advance-IsEnded s h) q)
            (omega arith) (omega arith) in
        elim (Bool-cases (stop (advance s))) [
          | inl z ↦ rw (y, z) (move here)
          | inr z ↦ rw (y, z) (move (Steps-trans q on))
        ]
    | inr y ↦ rw y here
  ]

  pub more_items-Steps :
      (s : State) → IsEnded s → left s ≤ n → Steps s (more_items sep stop item s).1
  unfolding more_items
  more_items-Steps s h le = items_from-Steps (suc (left s)) s h le (omega arith)

  pub items-Moves : Moves n (items sep stop item)
  unfolding items
  items-Moves s h lt =
      let q : Steps s (item s).1 = item-Moves s h lt in
      let le : left (item s).1 ≤ left s = Steps-left q in
      Steps-trans q (more_items-Steps (item s).1 (Steps-IsEnded h q) (omega arith))

-- A list leaves no more tokens than its first item.
pub left-items :
    {A : Type 0} (sep : Kind) (stop : State → Bool) (sep_not_eof : is_eof sep ≡ false)
    (item : Parse A) (s : State)
    → IsEnded (item s).1
    → Moves (left (item s).1) item
    → left (items sep stop item s).1 ≤ left (item s).1
unfolding items
left-items sep stop e item s h p =
    Steps-left (more_items-Steps (left (item s).1) sep stop e item p (item s).1 h (omega arith))

pub unless_closed-Moves :
    {A : Type 0} {n : ℕ} (list : Parse (List A)) → Moves n list → Moves n (unless_closed list)
unfolding unless_closed
unless_closed-Moves list list-Moves s h lt = elim (Bool-cases (at Kind.rparen s)) [
  | inl y ↦ rw y here
  | inr y ↦ rw y (list-Moves s h lt)
]
