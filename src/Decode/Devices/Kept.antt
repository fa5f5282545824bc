-- ===== src/Decode/Devices/Kept.antt =====
-- The devices that the decoder is built for, with the ranges that the address checks compare.
use native.Mathlib.Nat.{pow-suc, pow-le-pow_right}
use jcore_soc.Base.{
  ℕ, zero, suc, ◌+◌, ◌-◌, ◌*◌, ◌^◌, ◌≤◌, ◌<◌, ◌≡◌, refl, ap, subst, ◌∙◌, inl, inr, Bool, true,
  false, Option, none, some, List, [], ◌∷◌, arith, leb, if◌then◌else◌, Bool-cases, All, Bytes, ℤ,
  pos, negsuc, is_neg, to_nat, AllPairs,
}
use jcore_soc.Elaborate.Model.{ResolvedClass, ResolvedDevice, StrMap, class_of}
use jcore_soc.Elaborate.Address.{
  AddrRange, out_of_range, span_end, place_span, device_ranges, add_range,
}
use jcore_soc.Elaborate.Address.Claims.{span_end_lem}
use jcore_soc.Elaborate.Address.Pairs.{Disjoint}
use jcore_soc.Elaborate.Address.Accepted.{IsChecked, IsPlacedAt}
use jcore_soc.Decode.Radix.{BusDevice}
use jcore_soc.Decode.Ranges.{aligned-shr, shr}
use jcore_soc.Decode.Devices.{left_of, add_device, collect}

-- A memory-mapped device has a class and a base address of 32 bits.
abbrev pub HasWord : Option ℕ → Option ResolvedClass → Type 0
HasWord (some base) (some rc) = base < 2 ^ 32
HasWord (some base) none = ⊥
HasWord none rc = Unit

multiple : (j q : ℕ) → (r : ℕ) × (q * 2 ^ (j + 30) ≡ r * 2 ^ 30)
multiple zero q = (q, refl)
multiple (suc j) q =
    let (r, e) = multiple j (q * 2) in
    let s : 2 ^ (suc j + 30) ≡ 2 ^ (j + 30) * 2 =
      ap (λ n. 2 ^ n) {x = suc j + 30} {y = suc (j + 30)} (omega arith) ∙ pow-suc 2 (j + 30) in
    (r, ap (λ t. q * t) s ∙ reorder q (2 ^ (j + 30)) ∙ e)
  where
    reorder : (q p : ℕ) → q * (p * 2) ≡ q * 2 * p
    reorder q p = grind arith

-- The bits of 0xA in bits 31 to 28 leave at most 29 low bits that are zero.
pub low_bits : (base n : ℕ) → base < 2 ^ 32 → IsChecked base (pos n) → n ≤ 28
low_bits base n word (region, _, aligned) = elim (Bool-cases (leb n 28)) [
  | inl y ↦ ground arith
  | inr far ↦
      let above : 29 ≤ n = ground arith in
      let k : n + 1 ≡ (n - 29) + 30 = omega arith in
      let (r, e) = multiple (n - 29) (shr base (n + 1)) in
      let whole : base ≡ r * 2 ^ 30 =
        aligned-shr base (n + 1) aligned ∙ ap (λ m. shr base (n + 1) * 2 ^ m) k ∙ e in
      absurd (omega (arith, whole, region, word))
]

span_end-word :
    (base n : ℕ) → base < 2 ^ 32 → n ≤ 28 → span_end base (n + 1) ≡ base + 2 ^ (n + 1) - 1
span_end-word base n word low =
    let top : 2 ^ (n + 1) ≤ 2 ^ 29 =
      pow-le-pow_right {n = 2} (omega arith) {i = n + 1} {j = 29} (omega arith) in
    span_end_lem base n (omega arith) (omega arith) ∙ ground (arith, top)

-- The devices kept by the loop, for resolutions whose LeftAddrBits are not negative.
abbrev pub keep : Bytes → Bool → Option ℕ → Option ResolvedClass → List BusDevice → List BusDevice
keep name true (some base) (some rc) rest =
    record { name = name; base_addr = base; left_addr_bit = to_nat rc.left_addr_bit } ∷ rest
keep name _ _ _ rest = rest

abbrev pub kept : StrMap ResolvedClass → List ResolvedDevice → List BusDevice
kept classes [] = []
kept classes (dev ∷ devs) =
    keep dev.name dev.data_bus dev.base_addr (class_of classes dev) (kept classes devs)

abbrev pub range_of : BusDevice → AddrRange
range_of d = record {
  name = d.name;
  lo = d.base_addr;
  hi = d.base_addr + 2 ^ (d.left_addr_bit + 1) - 1;
}

abbrev pub IsReady : Option ℕ → Option ResolvedClass → Type 0
IsReady base rc = IsPlacedAt base rc × HasWord base rc

left_of-checked :
    (base : ℕ) (rc : ResolvedClass)
    → IsChecked base rc.left_addr_bit
    → left_of (some rc) ≡ some (to_nat rc.left_addr_bit)
left_of-checked base rc h = by_bit rc.left_addr_bit h
  where
    by_bit :
        (i : ℤ) → IsChecked base i → (if is_neg i then none else some (to_nat i)) ≡ some (to_nat i)
    by_bit (pos n) h = refl
    by_bit (negsuc n) h = absurd h

abbrev spanned : ℕ → ℕ → ℕ × ℕ
spanned base hi = (base, hi)

place_span-checked :
    (base : ℕ) (rc : ResolvedClass)
    → IsChecked base rc.left_addr_bit
    → base < 2 ^ 32
    → place_span (some base) (some rc) ≡ some (base, base + 2 ^ (to_nat rc.left_addr_bit + 1) - 1)
unfolding place_span
place_span-checked base rc h word = by_bit rc.left_addr_bit h
  where
    by_bit :
        (i : ℤ)
        → IsChecked base i
        → (if out_of_range i then none else some (spanned base (span_end base (to_nat i + 1))))
          ≡ some (base, base + 2 ^ (to_nat i + 1) - 1)
    by_bit (negsuc n) h = absurd h
    by_bit (pos n) h =
        let low = low_bits base n word h in
        let in_range : out_of_range (pos n) ≡ false = ground (arith, low) in
        rw (in_range, span_end-word base n word low)

keep-collect :
    (name : Bytes) (on_bus : Bool) (base : Option ℕ) (rc : Option ResolvedClass)
    (rest : List BusDevice)
    → IsReady base rc
    → add_device name on_bus base (left_of rc) (some rest) ≡ some (keep name on_bus base rc rest)
unfolding add_device
keep-collect name false base rc rest ready = refl
keep-collect name true none rc rest ready = refl
keep-collect name true (some base) none rest ready = absurd ready.1
keep-collect name true (some base) (some rc) rest ready =
    ap (λ l. add_device name true (some base) l (some rest)) (left_of-checked base rc ready.0)

-- A property of all ranges holds of the kept devices' own.
keep-All :
    (P : AddrRange → Type 0) (name : Bytes) (on_bus : Bool) (base : Option ℕ)
    (rc : Option ResolvedClass)
    → (rest : List BusDevice) (ranges : List AddrRange) → IsReady base rc
    → (All P ranges → All (λ d. P (range_of d)) rest)
    → All P (add_range name (place_span base rc) ranges)
    → All (λ d. P (range_of d)) (keep name on_bus base rc rest)
unfolding place_span
keep-All P name on_bus none rc rest ranges ready ih h = cases on_bus
  where
    cases : (b : Bool) → All (λ d. P (range_of d)) (keep name b none rc rest)
    cases true = ih h
    cases false = ih h
keep-All P name on_bus (some base) none rest ranges ready ih h = absurd ready.1
keep-All P name on_bus (some base) (some rc) rest ranges ready ih h = cases on_bus
  where
    here : All P (add_range name (some (base, base + 2 ^ (to_nat rc.left_addr_bit + 1) - 1)) ranges)
    here =
        subst (λ s. All P (add_range name s ranges)) (place_span-checked base rc ready.0 ready.1) h

    cases : (b : Bool) → All (λ d. P (range_of d)) (keep name b (some base) (some rc) rest)
    cases true = (here.0, ih here.1)
    cases false = ih here.1

-- The kept devices of a ready list: they are what the loop collects, and the ranges are their own.
abbrev pub IsReadyDevice : StrMap ResolvedClass → ResolvedDevice → Type 0
IsReadyDevice classes dev = IsReady dev.base_addr (class_of classes dev)

pub collect-kept :
    (classes : StrMap ResolvedClass) (devices : List ResolvedDevice)
    → All (IsReadyDevice classes) devices
    → collect classes devices ≡ some (kept classes devices)
unfolding collect
collect-kept classes [] h = refl
collect-kept classes (dev ∷ devs) (r, rs) =
    rw (collect-kept classes devs rs) (
      keep-collect dev.name dev.data_bus dev.base_addr (class_of classes dev) (kept classes devs) r)

pub kept-All :
    (P : AddrRange → Type 0) (classes : StrMap ResolvedClass) (devices : List ResolvedDevice)
    → All (IsReadyDevice classes) devices
    → All P (device_ranges classes devices)
    → All (λ d. P (range_of d)) (kept classes devices)
unfolding device_ranges
kept-All P classes [] r h = tt
kept-All P classes (dev ∷ devs) (r, rs) h =
    keep-All P dev.name dev.data_bus dev.base_addr (class_of classes dev) (kept classes devs)
      (device_ranges classes devs) r (kept-All P classes devs rs) h

keep-AllPairs :
    (name : Bytes) (on_bus : Bool) (base : Option ℕ) (rc : Option ResolvedClass)
    → (rest : List BusDevice) (ranges : List AddrRange) → IsReady base rc
    → ((r : AddrRange) → All (Disjoint r) ranges → All (λ e. Disjoint r (range_of e)) rest)
    → (AllPairs Disjoint ranges → AllPairs (λ d e. Disjoint (range_of d) (range_of e)) rest)
    → AllPairs Disjoint (add_range name (place_span base rc) ranges)
    → AllPairs (λ d e. Disjoint (range_of d) (range_of e)) (keep name on_bus base rc rest)
unfolding place_span
keep-AllPairs name on_bus none rc rest ranges ready step ih h = cases on_bus
  where
    cases :
        (b : Bool) → AllPairs (λ d e. Disjoint (range_of d) (range_of e)) (keep name b none rc rest)
    cases true = ih h
    cases false = ih h
keep-AllPairs name on_bus (some base) none rest ranges ready step ih h = absurd ready.1
keep-AllPairs name on_bus (some base) (some rc) rest ranges ready step ih h = cases on_bus
  where
    own : AddrRange
    own = record { name = name; lo = base; hi = base + 2 ^ (to_nat rc.left_addr_bit + 1) - 1 }

    here : AllPairs Disjoint (own ∷ ranges)
    here =
        subst (λ s. AllPairs Disjoint (add_range name s ranges))
          (place_span-checked base rc ready.0 ready.1) h

    cases :
        (b : Bool)
        → AllPairs
            (λ d e. Disjoint (range_of d) (range_of e))
            (keep name b (some base) (some rc) rest)
    cases true = (step own here.0, ih here.1)
    cases false = ih here.1

pub kept-AllPairs :
    (classes : StrMap ResolvedClass) (devices : List ResolvedDevice)
    → All (IsReadyDevice classes) devices
    → AllPairs Disjoint (device_ranges classes devices)
    → AllPairs (λ d e. Disjoint (range_of d) (range_of e)) (kept classes devices)
unfolding device_ranges
kept-AllPairs classes [] r h = tt
kept-AllPairs classes (dev ∷ devs) (r, rs) h =
    keep-AllPairs dev.name dev.data_bus dev.base_addr (class_of classes dev) (kept classes devs)
      (device_ranges classes devs) r (λ q a. kept-All (Disjoint q) classes devs rs a)
      (kept-AllPairs classes devs rs) h
