-- ===== src/Elaborate/Address/Accepted.antt =====
-- The resolutions that the address checks accept.
use jcore_soc.Base.{
  ℕ, ◌+◌, ◌/◌, ◌%◌, ◌^◌, ◌≤◌, ◌≡◌, refl, subst, ◌↔◌, Option, none, some, List, [], ◌∷◌, ◌++◌, arith,
  All, Bytes, ℤ, pos, negsuc, AllPairs,
}
use jcore_soc.Elaborate.Model.{ResolvedClass, ResolvedDevice, Resolution, StrMap, class_of}
use jcore_soc.Elaborate.Address.{
  check_device, place_errors, device_errors, reserved_regions, device_ranges, check_addr_overlap,
  all_device_errors, validate_addresses,
}
use jcore_soc.Elaborate.Address.Claims.{IsWord, claims, memory_claims, device_ranges-claims}
use jcore_soc.Elaborate.Address.Pairs.{Disjoint, append-empty, sorted-empty}

-- Bits 31 to 28 of the base address are 0xA, the LeftAddrBit is from 0 to 62, and the bits of the
-- device's own range are zero.
abbrev pub IsChecked : ℕ → ℤ → Type 0
IsChecked base (negsuc n) = ⊥
IsChecked base (pos n) = (base / 2 ^ 28 % 16 ≡ 0xA) × (n ≤ 62) × (base % 2 ^ (n + 1) ≡ 0)

abbrev pub IsPlacedAt : Option ℕ → Option ResolvedClass → Type 0
IsPlacedAt (some base) (some rc) = IsChecked base rc.left_addr_bit
IsPlacedAt _ _ = Unit

-- A device that is memory-mapped and has a class stands at an address that its class allows.
abbrev pub IsWellPlaced : StrMap ResolvedClass → ResolvedDevice → Type 0
IsWellPlaced classes dev = IsPlacedAt dev.base_addr (class_of classes dev)

check_device-empty :
    (name class_name : Bytes) (base : ℕ) (bit : ℤ)
    → (check_device name class_name base bit ≡ []) ↔ IsChecked base bit
unfolding check_device
check_device-empty name class_name base (pos n) = ground arith
check_device-empty name class_name base (negsuc n) = ground arith

place_errors-empty :
    (name class_name : Bytes) (base : Option ℕ) (rc : Option ResolvedClass)
    → (place_errors name class_name base rc ≡ []) ↔ IsPlacedAt base rc
unfolding place_errors
place_errors-empty name class_name (some base) (some rc) =
    check_device-empty name class_name base rc.left_addr_bit
place_errors-empty name class_name (some base) none = (λ _. tt, λ _. refl)
place_errors-empty name class_name none rc = (λ _. tt, λ _. refl)

all_device_errors-empty :
    (classes : StrMap ResolvedClass) (devices : List ResolvedDevice)
    → (all_device_errors classes devices ≡ []) ↔ All (IsWellPlaced classes) devices
unfolding all_device_errors
all_device_errors-empty classes [] = (λ _. tt, λ _. refl)
all_device_errors-empty classes (dev ∷ devs) =
    let x = append-empty (device_errors classes dev) (all_device_errors classes devs) in
    let h = place_errors-empty dev.name dev.class_name dev.base_addr (class_of classes dev) in
    let t = all_device_errors-empty classes devs in
    (λ e. (h.0 (x.0 e).0, t.0 (x.0 e).1), λ a. x.1 (h.1 a.0, t.1 a.1))

-- The checks pass exactly for well-placed devices whose ranges are pairwise disjoint.
pub validate_addresses-ranges :
    (res : Resolution)
    → (validate_addresses (some res) ≡ []) ↔ (
        All (IsWellPlaced res.classes) res.devices
        × AllPairs Disjoint (device_ranges res.classes res.devices ++ reserved_regions))
unfolding validate_addresses check_addr_overlap
validate_addresses-ranges res =
    let ranges = device_ranges res.classes res.devices ++ reserved_regions in
    let x =
      append-empty (all_device_errors res.classes res.devices)
        (check_addr_overlap res.classes res.devices) in
    let h = all_device_errors-empty res.classes res.devices in
    let p = sorted-empty ranges in
    (λ e. (h.0 (x.0 e).0, p.0 (x.0 e).1), λ a. x.1 (h.1 a.0, p.1 a.1))

-- Where the base addresses are 64-bit numbers, validateAddresses reports nothing exactly when each
-- memory-mapped device of a known class has 0xA in bits 31 to 28 of its base, a LeftAddrBit from 0 to
-- 62 and zeros in the bits of its own range, and no two of the claims of such devices and of the SRAM,
-- the DRAM and the CPU registers have an address in common.
pub validate_addresses_iff :
    (res : Resolution)
    → All (λ dev. IsWord dev.base_addr) res.devices
    → (validate_addresses (some res) ≡ []) ↔ (
        All (IsWellPlaced res.classes) res.devices
        × AllPairs Disjoint (claims res.classes res.devices ++ memory_claims))
validate_addresses_iff res words =
    subst
      (λ ranges. (validate_addresses (some res) ≡ []) ↔ (
        All (IsWellPlaced res.classes) res.devices × AllPairs Disjoint (ranges ++ memory_claims)))
      (device_ranges-claims res.classes res.devices words) (validate_addresses-ranges res)
