-- ===== src/Elaborate/Address.antt =====
-- tools/socgen/elaborate/addr_validate.go: the checks on the addresses of the devices.
pub mod Pairs
pub mod Claims
pub mod Accepted
use jcore_soc.Base.{
  ℕ, ◌+◌, ◌-◌, ◌*◌, ◌/◌, ◌%◌, ◌^◌, Bool, true, not, ◌&&◌, Option, none, some, List, [], ◌∷◌, ◌++◌,
  ltb, leb, ◌==◌, if◌then◌else◌, Bytes, codes, str_lt, ℤ, pos, negsuc, to_nat, sort_by,
}
use jcore_soc.Elaborate.Model.{ResolvedClass, ResolvedDevice, Resolution, StrMap, class_of}

-- `AddrError` by its kind, with the fields that the kind sets.
pub data AddrError : Type 0 where
  bad_region : Bytes → ℕ → AddrError
  over_spec : Bytes → ℕ → ℕ → AddrError
  left_addr_bit_range : Bytes → Bytes → ℤ → ℕ → AddrError
  addr_overlap : Bytes → ℕ → ℕ → Bytes → ℕ → ℕ → AddrError

abbrev pub max_left_addr_bit : ℕ
max_left_addr_bit = 62

-- `bit < 0 || bit > maxLeftAddrBit`.
abbrev pub out_of_range : ℤ → Bool
out_of_range (pos n) = ltb max_left_addr_bit n
out_of_range (negsuc n) = true

-- `base & 0xF0000000`, and the test of the lowest bits with the mask of `bits` ones.
abbrev pub region_of : ℕ → ℕ
region_of base = base / 0x1000_0000 % 16 * 0x1000_0000

-- The body of the loop, for a device with a base address and a class; `bit` is past the guard in the
-- last check.
unfoldable pub check_device : Bytes → Bytes → ℕ → ℤ → List AddrError
check_device name class_name base bit =
    let region = if not (region_of base == 0xA000_0000) then bad_region name base ∷ [] else [] in
    let bits = to_nat bit + 1 in
    let masked = if not (base % 2 ^ bits == 0) then over_spec name base bits ∷ [] else [] in
    region
    ++ (if out_of_range bit
        then left_addr_bit_range name class_name bit max_left_addr_bit ∷ []
        else masked)

-- Devices without a base address or a resolved class are passed over.
unfoldable pub place_errors : Bytes → Bytes → Option ℕ → Option ResolvedClass → List AddrError
place_errors name class_name (some base) (some rc) =
    check_device name class_name base rc.left_addr_bit
place_errors name class_name _ _ = []

abbrev pub device_errors : StrMap ResolvedClass → ResolvedDevice → List AddrError
device_errors classes dev =
    place_errors dev.name dev.class_name dev.base_addr (class_of classes dev)

-- An inclusive range of bytes.
pub record AddrRange : Type 0 where
  pub name : Bytes
  pub lo : ℕ
  pub hi : ℕ

abbrev pub reserved_regions : List AddrRange
reserved_regions =
    record { name = codes "sram"; lo = 0x0; hi = 0x0FFF_FFFF }
    ∷ record { name = codes "dram"; lo = 0x1000_0000; hi = 0x1FFF_FFFF }
    ∷ record { name = codes "cpumreg"; lo = 0xABCD_0600; hi = 0xABCD_06FF }
    ∷ []

-- `hi` in 64 bits, saturated where the sum wraps.
unfoldable pub span_end : ℕ → ℕ → ℕ
span_end lo bits = let hi = (lo + 2 ^ bits - 1) % 2 ^ 64 in if ltb hi lo then 2 ^ 64 - 1 else hi

unfoldable pub place_span : Option ℕ → Option ResolvedClass → Option (ℕ × ℕ)
unfolding span_end
place_span (some base) (some rc) =
    if out_of_range rc.left_addr_bit
    then none
    else some (base, span_end base (to_nat rc.left_addr_bit + 1))
place_span _ _ = none

abbrev pub device_span : StrMap ResolvedClass → ResolvedDevice → Option (ℕ × ℕ)
device_span classes dev = place_span dev.base_addr (class_of classes dev)

abbrev pub add_range : Bytes → Option (ℕ × ℕ) → List AddrRange → List AddrRange
add_range name none rest = rest
add_range name (some (lo, hi)) rest = record { name = name; lo = lo; hi = hi } ∷ rest

unfoldable pub device_ranges : StrMap ResolvedClass → List ResolvedDevice → List AddrRange
device_ranges classes [] = []
device_ranges classes (dev ∷ devs) =
    add_range dev.name (device_span classes dev) (device_ranges classes devs)

-- The order of `sort.Slice`: by `lo`, then by name. The sort leaves the order of equal ranges open.
abbrev pub range_less : AddrRange → AddrRange → Bool
range_less r s = if not (r.lo == s.lo) then ltb r.lo s.lo else str_lt r.name s.name

abbrev pub overlaps : AddrRange → AddrRange → Bool
overlaps r s = leb r.lo s.hi && leb s.lo r.hi

-- The inner loop, and the outer one.
unfoldable pub overlaps_with : AddrRange → List AddrRange → List AddrError
overlaps_with r [] = []
overlaps_with r (s ∷ rs) =
    let rest = overlaps_with r rs in
    if overlaps r s then addr_overlap r.name r.lo r.hi s.name s.lo s.hi ∷ rest else rest

unfoldable pub overlap_errors : List AddrRange → List AddrError
overlap_errors [] = []
overlap_errors (r ∷ rs) = overlaps_with r rs ++ overlap_errors rs

unfoldable pub check_addr_overlap : StrMap ResolvedClass → List ResolvedDevice → List AddrError
unfolding overlap_errors device_ranges
check_addr_overlap classes devices =
    overlap_errors (sort_by range_less (device_ranges classes devices ++ reserved_regions))

unfoldable pub all_device_errors : StrMap ResolvedClass → List ResolvedDevice → List AddrError
all_device_errors classes [] = []
all_device_errors classes (dev ∷ devs) = device_errors classes dev ++ all_device_errors classes devs

-- The errors that are joined; there is none of a resolution that is nil.
unfoldable pub validate_addresses : Option Resolution → List AddrError
unfolding all_device_errors check_addr_overlap
validate_addresses none = []
validate_addresses (some res) =
    all_device_errors res.classes res.devices ++ check_addr_overlap res.classes res.devices
