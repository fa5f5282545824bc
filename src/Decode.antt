-- ===== src/Decode.antt =====
-- tools/socgen/emit/databus.go: the address decoder. `decode_function` builds the body of the VHDL
-- function decode_address from a trie over the address prefixes of the data-bus devices.
pub mod Bits
pub mod Radix
pub mod Find
pub mod Ifs
pub mod Insert
pub mod Ranges
pub mod Layout
pub mod Exact
pub mod Devices
use jcore_soc.Base.{
  ℕ, zero, suc, ◌+◌, ◌-◌, ◌*◌, ◌/◌, ◌%◌, ◌^◌, ◌≤◌, ◌<◌, max, String, ◌≡◌, refl, sym, ap, subst, ◌∙◌,
  ◌≢◌, ◌↔◌, ◌⊎◌, inl, inr, Bool, true, false, not, ◌&&◌, ◌||◌, Option, none, some, List, [], ◌∷◌,
  ◌++◌, map, append_assoc, append-nil, arith, ltb, leb, ◌==◌, if◌then◌else◌, ==_iff, Bool-cases,
  Option-cases, &&-elim, is_some, length, get_elem?, get_or, take, drop, replicate, length-append,
  take-append, All, All-append, all, any, select, Bytes, codes, str_eq, str_eq_iff, str_eq_refl,
  str_lt, digits, itoa,
}
use jcore_soc.Vhdl.Kind
use jcore_soc.Vhdl.Ast.{
  Expr, ident, basic_lit, binary_expr, Stmt, comment, return_stmt, if_stmt, Stmts, nil, cons,
  Elsifs, no_elsif, elsif, append,
}
use jcore_soc.Decode.Bits.{bin32, hex08}
use jcore_soc.Decode.Radix.{
  Trie, absent, node, new_trie, BusDevice, insert, without, extract_prefix, leaf_of,
}

-- `d.LeftAddrBit` is a number here; a bound of the slice below 0 is the fault of `devices_fit`.
unfoldable pub device_prefix : BusDevice → Bytes
unfolding bin32
device_prefix d = take (32 - d.left_addr_bit - 1) (bin32 d.base_addr)

abbrev pub addr_index : ℕ → Expr
addr_index i = ident (codes "addr(" ++ itoa i ++ codes ")")

abbrev pub addr_slice : ℕ → ℕ → Expr
addr_slice hi lo = ident (codes "addr(" ++ itoa hi ++ codes " downto " ++ itoa lo ++ codes ")")

-- `index - len(expect) + 1`, of an index that is at least the length less one.
unfoldable pub build_cond : ℕ → Bytes → Expr
build_cond index (b ∷ []) =
    binary_expr (addr_index index) Kind.equal (basic_lit Kind.char_lit (b'\'' ∷ b ∷ b'\'' ∷ []))
build_cond index expect =
    binary_expr (addr_slice index (index + 1 - length expect)) Kind.equal
      (basic_lit Kind.string_lit (b'"' ∷ (expect ++ b'"' ∷ [])))

-- A Go map from device names: the entry put last counts, and a missing key reads as "".
abbrev pub TextMap : Type 0
TextMap = List (Bytes × Bytes)

unfoldable pub lookup : TextMap → Bytes → Bytes
lookup [] k = []
lookup ((j, v) ∷ m) k = if str_eq j k then v else lookup m k

-- The comment and the return of a leaf.
unfoldable pub leaf_stmts : BusDevice → TextMap → Stmts
leaf_stmts d lits =
    cons
      (comment (
        hex08 d.base_addr
        ++ codes "-"
        ++ hex08 ((d.base_addr + 2 * 2 ^ d.left_addr_bit + 2 ^ 64 - 1) % 2 ^ 64)))
      (cons (return_stmt (ident (lookup lits d.name))) nil)

-- The statement for the two sides of a branching: an `else` where each side is told by one bit.
unfoldable pub sides_stmts : ℕ → Bytes → Bytes → Stmts → Stmts → Stmts
sides_stmts index left_prefix right_prefix left_stmts right_stmts =
    let two_way =
      cons (if_stmt (build_cond index left_prefix) left_stmts no_elsif right_stmts) nil in
    let three_way =
      cons
        (if_stmt (build_cond index left_prefix) left_stmts
          (elsif (build_cond index right_prefix) right_stmts no_elsif) nil)
        nil in
    if str_eq left_prefix (codes "0") && str_eq right_prefix (codes "1") then two_way else three_way

-- Go's recursion ends at the leaves; the fuel bounds its depth.
unfoldable pub build_ifs : ℕ → ℕ → Trie → TextMap → Stmts
unfolding sides_stmts
build_ifs zero offset t lits = nil
build_ifs (suc fuel) offset t lits =
    let (left_prefix, left_trie) = extract_prefix (without b'1' t) in
    let (right_prefix, right_trie) = extract_prefix (without b'0' t) in
    let left_stmts = build_ifs fuel (offset + length left_prefix) left_trie lits in
    let right_stmts = build_ifs fuel (offset + length right_prefix) right_trie lits in
    let split = sides_stmts (31 - offset) left_prefix right_prefix left_stmts right_stmts in
    elim (leaf_of t) [ some d ↦ leaf_stmts d lits | none ↦ split ]

-- The recursion of `trim_suffix`: `full` ends at the last branching, `prefix` holds what follows it.
unfoldable pub trim_suffix : Trie → Bytes → Bytes → TextMap → TextMap
trim_suffix absent full prefix out = out
trim_suffix (node (some d) z o) full prefix out = (d.name, full) ∷ out
trim_suffix (node none absent absent) full prefix out = out
trim_suffix (node none (node d z o) absent) full prefix out =
    trim_suffix (node d z o) full (prefix ++ b'0' ∷ []) out
trim_suffix (node none absent (node d z o)) full prefix out =
    trim_suffix (node d z o) full (prefix ++ b'1' ∷ []) out
trim_suffix (node none (node d z o) (node d' z' o')) full prefix out =
    trim_suffix (node d' z' o') (full ++ (prefix ++ b'1' ∷ [])) []
      (trim_suffix (node d z o) (full ++ (prefix ++ b'0' ∷ [])) [] out)

-- The loops `exact[devs[i].Name] = devicePrefix(devs[i])` and `trie.insert(...)`.
unfoldable pub exact_prefixes : List BusDevice → TextMap → TextMap
exact_prefixes [] m = m
exact_prefixes (d ∷ ds) m = exact_prefixes ds ((d.name, device_prefix d) ∷ m)

unfoldable pub insert_all : TextMap → List BusDevice → Trie → Trie
insert_all prefixes [] t = t
insert_all prefixes (d ∷ ds) t = insert_all prefixes ds (insert (lookup prefixes d.name) d t)

unfoldable pub device_prefixes : List BusDevice → Bool → TextMap
unfolding exact_prefixes insert_all trim_suffix
device_prefixes devs simple =
    let exact = exact_prefixes devs [] in
    if simple then trim_suffix (insert_all exact devs new_trie) [] [] [] else exact

-- `devicePrefix` slices a text of 32 bytes up to 32 - LeftAddrBit - 1: a bound below 0 panics.
abbrev pub device_fits : BusDevice → Bool
device_fits d = leb d.left_addr_bit 31

-- The test of the prefix bits behind the leading 4, which are checked closer to the CPU. A prefix has
-- at most 32 bits, so the fuel is more than the trie is deep.
unfoldable pub decode_trie : Trie → TextMap → Stmts
decode_trie trie lits =
    let (prefix, inner) = extract_prefix trie in
    if leb (length prefix) 4
    then build_ifs 33 (length prefix) inner lits
    else cons
        (if_stmt (build_cond 27 (drop 4 prefix)) (build_ifs 33 (length prefix) inner lits) no_elsif
          nil)
        nil

abbrev pub return_none : TextMap → Stmts
return_none lits = cons (return_stmt (ident (lookup lits (codes "none")))) nil

-- The statements of `decodeFunction`; `none` is the panic of a slice out of range.
unfoldable pub decode_function : List BusDevice → TextMap → Bool → Option Stmts
unfolding device_prefixes insert_all decode_trie
decode_function [] lits simple = some (return_none lits)
decode_function (d ∷ ds) lits simple =
    let devs = d ∷ ds in
    if all device_fits devs
    then some (
        cons (comment (codes "Assumes addr(31 downto 28) = x\"a\".")) (
          cons (comment (codes "Address decoding closer to CPU checks those bits.")) (
            append (decode_trie (insert_all (device_prefixes devs simple) devs new_trie) lits)
              (return_none lits))))
    else none
