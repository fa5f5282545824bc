-- ===== src/Tests/Emit.antt =====
-- An OR of two interrupts, a vector number, and a set of two files.
use jcore_soc.Base.{◌≡◌, refl, Bool, false, List, [], ◌∷◌, any, Bytes, codes, str_eq, pos}
use jcore_soc.Emit.Irq.{or_expr, hex8}
use jcore_soc.Emit.Irq.Values.{
  bit_value, bit_value-or_expr, literal_value, low_byte, literal_value-hex8,
}

abbrev is_set : Bytes → Bool
is_set = str_eq (codes "irq_0_4_b")

abbrev sources : List Bytes
sources = codes "irq_0_4_a" ∷ codes "irq_0_4_b" ∷ []

low : is_set (codes "'0'") ≡ false
unfolding str_eq
low = refl

bit_value-or_expr_example : bit_value is_set (or_expr sources) ≡ any is_set sources
bit_value-or_expr_example = bit_value-or_expr is_set sources low

hex8-vector : hex8 (pos 0x1C) ≡ codes "x\"1C\""
unfolding hex8
hex8-vector = refl

literal_value-hex8_example : literal_value (hex8 (pos 0x11C)) ≡ low_byte (pos 0x11C)
literal_value-hex8_example = literal_value-hex8 (pos 0x11C)
