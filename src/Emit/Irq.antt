-- ===== src/Emit/Irq.antt =====
-- tools/socgen/emit/irq.go: the assignments of the combined interrupts and the vector numbers.
pub mod Values
use jcore_soc.Base.{ℕ, ◌-◌, ◌/◌, ◌%◌, List, [], ◌∷◌, map, Bytes, codes, ℤ, pos, negsuc}
use jcore_soc.Vhdl.Kind
use jcore_soc.Vhdl.Kind.{Kind}
use jcore_soc.Vhdl.Ast.{Expr, ident, basic_lit, binary_expr}
use jcore_soc.Elaborate.Irq.Model.{IrqOrAssign}
use jcore_soc.Decode.Bits.{hex_digit}

-- The loop of `orExpr`, from the expression so far.
unfoldable pub or_from : Expr → List Bytes → Expr
or_from e [] = e
or_from e (s ∷ ss) = or_from (binary_expr e Kind.kw_or (ident s)) ss

unfoldable pub or_expr : List Bytes → Expr
unfolding or_from
or_expr [] = ident (codes "'0'")
or_expr (s ∷ ss) = or_from (ident s) ss

-- A concurrent assignment of one value.
pub record ConcAssign : Type 0 where
  pub target : Expr
  pub value : Expr

unfoldable pub irq_assigns : List IrqOrAssign → List ConcAssign
unfolding or_expr
irq_assigns [] = []
irq_assigns (a ∷ as_rest) =
    record { target = ident a.target; value = or_expr a.sources } ∷ irq_assigns as_rest

-- `v & 0xF` and `(v >> 4) & 0xF` in two's complement.
abbrev pub low_nibble : ℤ → ℕ
low_nibble (pos n) = n % 16
low_nibble (negsuc n) = 15 - n % 16

abbrev pub high_nibble : ℤ → ℕ
high_nibble (pos n) = n / 16 % 16
high_nibble (negsuc n) = 15 - n / 16 % 16

unfoldable pub hex8 : ℤ → Bytes
hex8 v = b'x' ∷ b'"' ∷ hex_digit (high_nibble v) ∷ hex_digit (low_nibble v) ∷ b'"' ∷ []

-- The elements of the aggregate, one for each path.
unfoldable pub vector_numbers_agg : List ℤ → List Expr
unfolding hex8
vector_numbers_agg vn = map (λ v. basic_lit Kind.bit_string_lit (hex8 v)) vn
