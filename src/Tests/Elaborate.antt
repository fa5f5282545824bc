-- ===== src/Tests/Elaborate.antt =====
-- A resolution of two devices, checked.
use jcore_soc.Base.{
  ℕ, ◌+◌, ◌-◌, ◌^◌, ◌≡◌, refl, ◌≢◌, ◌↔◌, true, none, some, List, [], ◌∷◌, ◌++◌, arith, All, Bytes,
  codes, str_eq, str_neq, str_lt, pos, AllPairs, insert_by, sort_by,
}
use jcore_soc.Vhdl.Token.{lower, lower_byte}
use jcore_soc.Elaborate.Model.{ResolvedClass, ResolvedDevice, Resolution, get, class_of, lc}
use jcore_soc.Elaborate.Address.{
  addr_overlap, bad_region, validate_addresses, all_device_errors, place_errors, check_device,
  check_addr_overlap, overlap_errors, overlaps_with, device_ranges, place_span, span_end,
}
use jcore_soc.Elaborate.Address.Claims.{claims, memory_claims, capped, span_end_lem}
use jcore_soc.Elaborate.Address.Pairs.{Disjoint}
use jcore_soc.Elaborate.Address.Accepted.{IsWellPlaced, validate_addresses_iff}
use jcore_soc.Decode.Radix.{BusDevice}
use jcore_soc.Decode.Bits.{bin32}
use jcore_soc.Decode.{device_prefix}
use jcore_soc.Decode.Layout.{IsLayout}
use jcore_soc.Decode.Devices.{bus_devices_of}
use jcore_soc.Decode.Devices.Kept.{HasWord}
use jcore_soc.Decode.Devices.Accepted.{bus_devices_of-IsLayout}

abbrev a_class : ResolvedClass
a_class = record { name = codes "uart"; left_addr_bit = pos 7; entity_ports = none }

abbrev device : Bytes → ℕ → ResolvedDevice
device name base = record {
  name = name;
  class_name = codes "Uart";
  base_addr = some base;
  ports = [];
  data_bus = true;
}

abbrev two_uarts : Resolution
two_uarts = record {
  top_entities = [];
  padring_entities = [];
  classes = (codes "uart", a_class) ∷ [];
  devices = device (codes "uart1") 0xABCD_0200 ∷ device (codes "uart0") 0xABCD_0100 ∷ [];
}

-- The second one lies in the register of the CPUs, and the third outside of the region.
abbrev misplaced : Resolution
misplaced = record {
  top_entities = [];
  padring_entities = [];
  classes = (codes "uart", a_class) ∷ [];
  devices = device (codes "a") 0xABCD_0600 ∷ device (codes "b") 0xBBCD_0000 ∷ [];
}

two_uarts-accepted : validate_addresses (some two_uarts) ≡ []
unfolding validate_addresses all_device_errors place_errors check_device check_addr_overlap
    overlap_errors overlaps_with device_ranges place_span span_end class_of get lc str_eq sort_by
    insert_by str_lt lower lower_byte
two_uarts-accepted = refl

validate-misplaced :
    validate_addresses (some misplaced)
    ≡ bad_region (codes "b") 0xBBCD_0000
      ∷ addr_overlap (codes "a") 0xABCD_0600 0xABCD_06FF (codes "cpumreg") 0xABCD_0600 0xABCD_06FF
      ∷ []
unfolding validate_addresses all_device_errors place_errors check_device check_addr_overlap
    overlap_errors overlaps_with device_ranges place_span span_end class_of get lc str_eq sort_by
    insert_by str_lt lower lower_byte
validate-misplaced = refl

-- A base address past 32 bits passes, though its low bits are those of another device.
abbrev wide : Resolution
wide = record {
  top_entities = [];
  padring_entities = [];
  classes = (codes "uart", a_class) ∷ [];
  devices = device (codes "a") 0xA000_0000 ∷ device (codes "b") 0x1_A000_0000 ∷ [];
}

wide-accepted : validate_addresses (some wide) ≡ []
unfolding validate_addresses all_device_errors place_errors check_device check_addr_overlap
    overlap_errors overlaps_with device_ranges place_span span_end class_of get lc str_eq sort_by
    insert_by str_lt lower lower_byte
wide-accepted = refl

wide-same_prefix :
    device_prefix (record { name = codes "a"; base_addr = 0xA000_0000; left_addr_bit = 7 })
    ≡ device_prefix (record { name = codes "b"; base_addr = 0x1_A000_0000; left_addr_bit = 7 })
unfolding device_prefix bin32
wide-same_prefix = refl

validate_addresses_iff_example : (validate_addresses (some two_uarts) ≡ []) ↔ (
    All (IsWellPlaced two_uarts.classes) two_uarts.devices
    × AllPairs Disjoint (claims two_uarts.classes two_uarts.devices ++ memory_claims))
validate_addresses_iff_example = validate_addresses_iff two_uarts (omega arith, (omega arith, tt))

uart_words : All (λ dev. HasWord dev.base_addr (class_of two_uarts.classes dev)) two_uarts.devices
unfolding class_of get lc str_eq lower lower_byte
uart_words = (omega arith, (omega arith, tt))

uart_names : codes "uart1" ≢ codes "uart0"
unfolding str_eq
uart_names = str_neq (codes "uart1") (codes "uart0") refl

bus_devices_of-IsLayout_example :
    (devs : List BusDevice) × ((bus_devices_of two_uarts ≡ some devs) × IsLayout devs)
bus_devices_of-IsLayout_example =
    bus_devices_of-IsLayout two_uarts two_uarts-accepted uart_words ((uart_names, tt), (tt, tt))

-- A range that reaches past the address space: the end is capped.
span_end_lem_example : span_end 0xFFFF_FFFF_FFFF_FFF0 8 ≡ capped (0xFFFF_FFFF_FFFF_FFF0 + 2 ^ 8 - 1)
span_end_lem_example = span_end_lem 0xFFFF_FFFF_FFFF_FFF0 7 (omega arith) (omega arith)
