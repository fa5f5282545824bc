-- ===== src/Elaborate/Address/Claims.antt =====
-- The bytes that the devices and the reserved memory claim, said without the code's own arithmetic: an
-- end is the last byte of the device, or the last byte of the 64-bit address space where it lies past
-- that.
use native.Mathlib.Nat.{pow-le-pow_right}
use jcore_soc.Base.{
  ℕ, ◌+◌, ◌-◌, ◌^◌, ◌≤◌, ◌<◌, ◌≡◌, refl, ap, ◌∙◌, inl, inr, true, false, Option, none, some, List,
  [], ◌∷◌, ◌++◌, arith, leb, if◌then◌else◌, Bool-cases, All, Bytes, codes, ℤ, pos, negsuc, to_nat,
}
use jcore_soc.Elaborate.Model.{ResolvedClass, ResolvedDevice, StrMap, class_of}
use jcore_soc.Elaborate.Address.{
  AddrRange, out_of_range, span_end, place_span, device_ranges, add_range, reserved_regions,
}

abbrev pub last_address : ℕ
last_address = 0xFFFF_FFFF_FFFF_FFFF

abbrev pub capped : ℕ → ℕ
capped n = if leb n last_address then n else last_address

-- `uint64`.
abbrev pub IsWord : Option ℕ → Type 0
IsWord none = Unit
IsWord (some base) = base < 2 ^ 64

abbrev pub claim_from : Bytes → ℕ → ℤ → List AddrRange
claim_from name base (negsuc n) = []
claim_from name base (pos n) =
    if leb n 62
    then record { name = name; lo = base; hi = capped (base + 2 ^ (n + 1) - 1) } ∷ []
    else []

-- A device without a base address or a class claims nothing.
abbrev pub claim_of : Bytes → Option ℕ → Option ResolvedClass → List AddrRange
claim_of name (some base) (some rc) = claim_from name base rc.left_addr_bit
claim_of name _ _ = []

abbrev pub claims : StrMap ResolvedClass → List ResolvedDevice → List AddrRange
claims classes [] = []
claims classes (dev ∷ devs) =
    claim_of dev.name dev.base_addr (class_of classes dev) ++ claims classes devs

-- The SRAM and the DRAM at the bottom, 256 MB each, and 256 bytes of CPU registers.
abbrev pub memory_claims : List AddrRange
memory_claims =
    record { name = codes "sram"; lo = 0; hi = 2 ^ 28 - 1 }
    ∷ record { name = codes "dram"; lo = 2 ^ 28; hi = 2 ^ 29 - 1 }
    ∷ record { name = codes "cpumreg"; lo = 0xABCD_0600; hi = 0xABCD_0600 + 255 }
    ∷ []

-- For a 64-bit base and a LeftAddrBit of at most 62, the end of the range is the last byte of the
-- device, or the last byte of the address space where the device would reach past that.
pub span_end_lem :
    (base n : ℕ) → base < 2 ^ 64 → n ≤ 62 → span_end base (n + 1) ≡ capped (base + 2 ^ (n + 1) - 1)
unfolding span_end
span_end_lem base n word low =
    let p = 2 ^ (n + 1) in
    let top : p ≤ 2 ^ 63 =
      pow-le-pow_right {n = 2} (omega arith) {i = n + 1} {j = 63} (omega arith) in
    let one : 1 ≤ p = pow-le-pow_right {n = 2} (omega arith) {i = 0} {j = n + 1} (omega arith) in
    ground (arith, top, one)

abbrev spanned : ℕ → ℕ → ℕ × ℕ
spanned base hi = (base, hi)

span-claim :
    (name : Bytes) (base : Option ℕ) (rc : Option ResolvedClass) (rest : List AddrRange)
    → IsWord base
    → add_range name (place_span base rc) rest ≡ claim_of name base rc ++ rest
unfolding place_span
span-claim name none rc rest word = refl
span-claim name (some base) none rest word = refl
span-claim name (some base) (some rc) rest word = by_bit rc.left_addr_bit
  where
    by_bit :
        (i : ℤ)
        → add_range name
            (if out_of_range i then none else some (spanned base (span_end base (to_nat i + 1))))
            rest
          ≡ claim_from name base i ++ rest
    by_bit (negsuc n) = refl
    by_bit (pos n) = elim (Bool-cases (leb n 62)) [
      | inl y ↦
          let low : n ≤ 62 = ground (arith, y) in
          let in_range : out_of_range (pos n) ≡ false = ground (arith, low) in
          rw (in_range, y, span_end_lem base n word low) refl
      | inr far ↦
          let past : out_of_range (pos n) ≡ true = ground (arith, far) in rw (past, far) refl
    ]

pub device_ranges-claims :
    (classes : StrMap ResolvedClass) (devices : List ResolvedDevice)
    → All (λ dev. IsWord dev.base_addr) devices
    → device_ranges classes devices ≡ claims classes devices
unfolding device_ranges
device_ranges-claims classes [] h = refl
device_ranges-claims classes (dev ∷ devs) (word, words) =
    ap (add_range dev.name (place_span dev.base_addr (class_of classes dev)))
      (device_ranges-claims classes devs words)
    ∙ span-claim dev.name dev.base_addr (class_of classes dev) (claims classes devs) word

pub reserved_regions-claims : reserved_regions ≡ memory_claims
reserved_regions-claims = refl
