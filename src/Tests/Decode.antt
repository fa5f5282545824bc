-- ===== src/Tests/Decode.antt =====
-- The decoder of two devices, run on an address.
use jcore_soc.Base.{
  none, ℕ, zero, suc, ◌+◌, ◌-◌, ◌*◌, ◌<◌, ◌≡◌, refl, sym, subst, ◌≢◌, ◌↔◌, inl, inr, Bool, true,
  false, ◌&&◌, some, [], ◌∷◌, arith, leb, ◌==◌, if◌then◌else◌, Bool-cases, &&-elim, length, take,
  drop, Bytes, codes, str_eq, str_eq_iff, str_neq, itoa,
}
use jcore_soc.Vhdl.Ast.{Stmts}
use jcore_soc.Vhdl.Ast.Run.{run_stmts}
use jcore_soc.Decode.Bits.{bin32}
use jcore_soc.Decode.Radix.{BusDevice, Trie, node, absent}
use jcore_soc.Decode.Ifs.{NamesAddress, index_name, slice_name, found, run-build_ifs}
use jcore_soc.Decode.Ranges.{Covers, starts-device_prefix, IsBits-bin_from}
use jcore_soc.Decode.Find.{starts, IsBits}
use jcore_soc.Decode.Layout.{IsLayout, device_at, literal_of}
use jcore_soc.Decode.Exact.{decode_function-exact}
use jcore_soc.Decode.{device_prefix, decode_function, TextMap, build_ifs}

abbrev uart : BusDevice
uart = record { name = codes "uart"; base_addr = 0xABCD_0100; left_addr_bit = 7 }

abbrev gpio : BusDevice
gpio = record { name = codes "gpio"; base_addr = 0xABCD_0000; left_addr_bit = 4 }

abbrev literals : TextMap
literals =
    (codes "uart", codes "DEV_UART")
    ∷ (codes "gpio", codes "DEV_GPIO")
    ∷ (codes "none", codes "NONE")
    ∷ []

distinct : codes "uart" ≢ codes "gpio"
unfolding str_eq
distinct = str_neq (codes "uart") (codes "gpio") refl

layout : IsLayout (uart ∷ gpio ∷ [])
layout = record {
  placed = (
    record { fits = omega arith; word = omega arith; aligned = refl },
    (record { fits = omega arith; word = omega arith; aligned = refl }, tt),
  );
  region = ((omega arith, omega arith), ((omega arith, omega arith), tt));
  separate = ((inr (omega arith), tt), (tt, tt));
  named = ((distinct, tt), (tt, tt));
}

-- An address of the uart.
abbrev an_address : ℕ
an_address = 0xABCD_0104

-- What the names of bits and slices stand for, read off the names.
abbrev read_number : ℕ → Bytes → ℕ × Bytes
read_number acc [] = (acc, [])
read_number acc (c ∷ s) =
    let more = read_number (acc * 10 + (c - b'0')) s in
    if leb b'0' c && leb c b'9' then more else (acc, c ∷ s)

abbrev bits_named : Bytes → Bytes → Bytes
bits_named bits name =
    let (hi, behind) = read_number 0 (drop (length (codes "addr(")) name) in
    let lo = (read_number 0 (drop (length (codes " downto ")) behind)).0 in
    if length behind == 1
    then take 1 (drop (31 - hi) bits)
    else take (hi + 1 - lo) (drop (31 - hi) bits)

abbrev names : Bytes → Bytes
names = bits_named (bin32 an_address)

-- All numbers below a bound pass a test.
abbrev below : ℕ → (ℕ → Bool) → Bool
below zero p = true
below (suc n) p = p n && below n p

below-elim : (n : ℕ) (p : ℕ → Bool) → below n p ≡ true → (i : ℕ) → i < n → p i ≡ true
below-elim zero p h i lt = absurd (omega arith)
below-elim (suc n) p h i lt = elim (Bool-cases (i == n)) [
  | inl same ↦ subst (λ j. p j ≡ true) (sym (ground arith)) (&&-elim _ _ h).0
  | inr other ↦ below-elim n p (&&-elim _ _ h).1 i (ground arith)
]

abbrev index_right : ℕ → Bool
index_right i = str_eq (names (index_name i)) (take 1 (drop (31 - i) (bin32 an_address)))

abbrev slice_right : ℕ → ℕ → Bool
slice_right hi lo =
    str_eq (names (slice_name hi lo)) (take (hi + 1 - lo) (drop (31 - hi) (bin32 an_address)))

all_index : below 32 index_right ≡ true
unfolding bin32 str_eq itoa
all_index = refl

all_slice : below 32 (λ hi. below (suc hi) (slice_right hi)) ≡ true
unfolding bin32 str_eq itoa
all_slice = refl

names-NamesAddress : NamesAddress names (bin32 an_address)
names-NamesAddress = record {
  index = λ i h. (str_eq_iff _ _).0 (below-elim 32 index_right all_index i (omega arith));
  slice = λ hi lo h k. (str_eq_iff _ _).0 (
      below-elim (suc hi) (slice_right hi)
        (below-elim 32 (λ hi. below (suc hi) (slice_right hi)) all_slice hi (omega arith)) lo
        (omega arith));
}

decode_function-exact_example :
    (body : Stmts) × (decode_function (uart ∷ gpio ∷ []) literals false ≡ some body)
    × (run_stmts names body ≡ some (literal_of literals (device_at (uart ∷ gpio ∷ []) an_address)))
decode_function-exact_example =
    decode_function-exact uart (gpio ∷ []) layout names an_address (omega arith, omega arith)
      names-NamesAddress literals

starts-device_prefix_example :
    (starts (device_prefix uart) (bin32 an_address) ≡ true) ↔ Covers uart an_address
starts-device_prefix_example =
    starts-device_prefix uart (record { fits = omega arith; word = omega arith; aligned = refl })
      an_address (omega arith)

-- A branching of two leaves, past bits that both devices share.
abbrev two_leaves : Trie
two_leaves = node none (node (some gpio) absent absent) (node (some uart) absent absent)

full : length (bin32 an_address) ≡ 32
unfolding bin32
full = refl

binary : IsBits (bin32 an_address)
unfolding bin32
binary = IsBits-bin_from 32 an_address

run-build_ifs_example :
    run_stmts names (build_ifs 2 23 two_leaves literals)
    ≡ found literals two_leaves (drop 23 (bin32 an_address))
run-build_ifs_example =
    run-build_ifs names (bin32 an_address) names-NamesAddress full binary literals 2 23 two_leaves
      tt (tt, tt) (omega arith) (omega arith)
