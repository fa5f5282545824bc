-- ===== src/Emit/Irq/Values.antt =====
-- What the emitted expressions stand for.
use jcore_soc.Base.{
  ℕ, ◌+◌, ◌-◌, ◌*◌, ◌/◌, ◌%◌, ◌<◌, ◌≡◌, Bool, false, ◌||◌, List, [], ◌∷◌, arith, leb, if◌then◌else◌,
  any, Bytes, codes, ℤ, pos, negsuc,
}
use jcore_soc.Vhdl.Kind.{Kind}
use jcore_soc.Vhdl.Ast.{Expr, ident, binary_expr}
use jcore_soc.Decode.Bits.{hex_digit}
use jcore_soc.Emit.Irq.{or_from, or_expr, hex8}

-- The value of a bit: that of a name, or the disjunction of two.
abbrev pub bit_value : (Bytes → Bool) → Expr → Bool
bit_value v (ident n) = v n
bit_value v (binary_expr x Kind.kw_or y) = bit_value v x || bit_value v y
bit_value v _ = false

bit_value-or_from :
    (v : Bytes → Bool) (e : Expr) (ss : List Bytes)
    → bit_value v (or_from e ss) ≡ bit_value v e || any v ss
unfolding or_from
bit_value-or_from v e [] = ground arith
bit_value-or_from v e (s ∷ ss) =
    ground (arith, bit_value-or_from v (binary_expr e Kind.kw_or (ident s)) ss)

-- The expression is set when one of the sources is, with the text '0' for no source being unset.
pub bit_value-or_expr :
    (v : Bytes → Bool) (sources : List Bytes)
    → v (codes "'0'") ≡ false
    → bit_value v (or_expr sources) ≡ any v sources
unfolding or_expr
bit_value-or_expr v [] low = low
bit_value-or_expr v (s ∷ ss) low = bit_value-or_from v (ident s) ss

-- The number that an upper-case hex digit stands for.
abbrev pub digit_value : ℕ → ℕ
digit_value c = if leb c b'9' then c - b'0' else c - (b'A' - 10)

-- The number in a bit-string literal of two digits.
abbrev pub literal_value : Bytes → ℕ
literal_value (x ∷ q ∷ h ∷ l ∷ s) = 16 * digit_value h + digit_value l
literal_value _ = 0

digit_value-hex_digit : (n : ℕ) → n < 16 → digit_value (hex_digit n) ≡ n
unfolding hex_digit
digit_value-hex_digit n h = ground arith

-- The lowest 8 bits of a number in two's complement.
abbrev pub low_byte : ℤ → ℕ
low_byte (pos n) = n % 256
low_byte (negsuc n) = 255 - n % 256

-- The literal of a vector number holds its lowest 8 bits.
pub literal_value-hex8 : (v : ℤ) → literal_value (hex8 v) ≡ low_byte v
unfolding hex8
literal_value-hex8 (pos n) = omega (
  arith,
  digit_value-hex_digit (n / 16 % 16) (omega arith),
  digit_value-hex_digit (n % 16) (omega arith),
)
literal_value-hex8 (negsuc n) = omega (
  arith,
  digit_value-hex_digit (15 - n / 16 % 16) (omega arith),
  digit_value-hex_digit (15 - n % 16) (omega arith),
)
