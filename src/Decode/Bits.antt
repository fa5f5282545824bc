-- ===== src/Decode/Bits.antt =====
-- Addresses as texts of bits: `bin32` of tools/socgen/emit/databus.go, and the hexadecimal texts of
-- the comments.
use jcore_soc.Base.{
  ℕ, zero, suc, ◌+◌, ◌-◌, ◌/◌, ◌%◌, Bool, true, false, ◌&&◌, [], ◌∷◌, ltb, ◌==◌, if◌then◌else◌,
  Bytes,
}

-- Whether bit `i` of `v` is set, v & (1 << i) != 0.
unfoldable pub test_bit : ℕ → ℕ → Bool
test_bit v zero = v % 2 == 1
test_bit v (suc i) = test_bit (v / 2) i

abbrev pub bit_char : Bool → ℕ
bit_char true = b'1'
bit_char false = b'0'

-- The bits `n - 1` down to 0, as the loop of `bin32` writes them.
unfoldable pub bin_from : ℕ → ℕ → Bytes
unfolding test_bit
bin_from zero v = []
bin_from (suc i) v = bit_char (test_bit v i) ∷ bin_from i v

unfoldable pub bin32 : ℕ → Bytes
unfolding bin_from
bin32 v = bin_from 32 v

abbrev pub hex_digit : ℕ → ℕ
hex_digit d = if ltb d 10 then b'0' + d else b'A' + (d - 10)

-- The hexadecimal digits of `%08X`: eight at least, more where the value has more.
unfoldable pub hex_digits : ℕ → ℕ → ℕ → Bytes → Bytes
hex_digits zero least n out = out
hex_digits (suc fuel) least n out =
    let more = hex_digits fuel (least - 1) (n / 16) (hex_digit (n % 16) ∷ out) in
    elim (n == 0 && least == 0) [ true ↦ out | false ↦ more ]

unfoldable pub hex08 : ℕ → Bytes
unfolding hex_digits
hex08 n = hex_digits (n + 9) 8 n []
