-- ===== src/Vhdl/Parser/Loop.antt =====
-- tools/socgen/vhdl/parser.go: the loops of the expression parser. A round consumes a token, so the
-- rounds allowed are one more than the tokens left.
pub mod Moves
use jcore_soc.Base.{ℕ, zero, suc, Bool, List, [], ◌∷◌, ◌==◌, if◌then◌else◌}
use jcore_soc.Vhdl.Kind.{Kind}
use jcore_soc.Vhdl.Kind.Code.{tier}
use jcore_soc.Vhdl.Ast.{Expr}
use jcore_soc.Vhdl.Parser.{State, Parse, at, advance, errorf, out_of_fuel, left}

-- The loop of a tier's function: `operand` is the function of the next tier, `x` the expression so
-- far.
unfoldable pub fold_from : ℕ → ℕ → Parse Expr → Expr → Parse Expr
unfolding errorf
fold_from zero i operand x s = (x, errorf out_of_fuel s)
fold_from (suc fuel) i operand x s =
    let (y, s') = operand (advance s) in
    let on = fold_from fuel i operand (Expr.binary_expr x s.cur.kind y) s' in
    if tier s.cur.kind == i then on else (x, s)

unfoldable pub fold_tier : ℕ → Parse Expr → Expr → Parse Expr
unfolding fold_from
fold_tier i operand x s = fold_from (suc (left s)) i operand x s

-- The first operand, and the loop.
unfoldable pub parse_tier : ℕ → Parse Expr → Parse Expr
unfolding fold_tier
parse_tier i operand s = let (x, s') = operand s in fold_tier i operand x s'

-- `for p.accept(sep) { if stop { break }; append(item()) }`
module _ {A : Type 0} (sep : Kind) (stop : State → Bool) (item : Parse A) where
  unfoldable pub items_from : ℕ → Parse (List A)
  unfolding errorf
  items_from zero s = ([], errorf out_of_fuel s)
  items_from (suc fuel) s =
      let (x, s') = item (advance s) in
      let (xs, s'') = items_from fuel s' in
      if at sep s then if stop (advance s) then ([], advance s) else (x ∷ xs, s'') else ([], s)

  unfoldable pub more_items : Parse (List A)
  unfolding items_from
  more_items s = items_from (suc (left s)) s

  -- The first item and those behind it.
  unfoldable pub items : Parse (List A)
  unfolding more_items
  items s = let (x, s') = item s in let (xs, s'') = more_items s' in (x ∷ xs, s'')

-- No list when the closing parenthesis stands first: `if !p.at(RPAREN)`.
unfoldable pub unless_closed : {A : Type 0} → Parse (List A) → Parse (List A)
unfolding at
unless_closed list s = if at Kind.rparen s then ([], s) else list s
