-- ===== src/Decode/Devices/Accepted.antt =====
-- What the address checks accept is a layout that can be decoded.
use native.Mathlib.Nat.{pow-le-pow_right}
use jcore_soc.Base.{
  ℕ, ◌+◌, ◌^◌, ◌≤◌, ◌<◌, ◌≡◌, refl, sym, subst, ◌≢◌, inl, inr, Bool, true, false, Option, none,
  some, List, [], ◌∷◌, arith, All, Bytes, ℤ, pos, negsuc, to_nat, AllPairs, AllPairs-map,
  AllPairs-append_left, sort_by, All-sort_by, AllPairs-sort_by,
}
use jcore_soc.Elaborate.Model.{ResolvedClass, ResolvedDevice, Resolution, StrMap, class_of}
use jcore_soc.Elaborate.Address.{device_ranges, validate_addresses, reserved_regions}
use jcore_soc.Elaborate.Address.Pairs.{Disjoint}
use jcore_soc.Elaborate.Address.Accepted.{IsChecked, IsWellPlaced, validate_addresses-ranges}
use jcore_soc.Decode.Radix.{BusDevice}
use jcore_soc.Decode.Ranges.{IsPlaced}
use jcore_soc.Decode.Layout.{Separate, InRegion, IsLayout}
use jcore_soc.Decode.Devices.{bus_devices_of, name_less}
use jcore_soc.Decode.Devices.Kept.{
  HasWord, low_bits, keep, kept, range_of, IsReady, IsReadyDevice, collect-kept, kept-AllPairs,
}

-- What holds of every device and of each pair of devices, by what a kept device is.
keep-each :
    (P : BusDevice → Type 0) (name : Bytes) (on_bus : Bool) (base : Option ℕ)
    (rc : Option ResolvedClass)
    → (rest : List BusDevice)
    → ((b : ℕ) (c : ResolvedClass)
        → base ≡ some b
        → rc ≡ some c
        → P (record { name = name; base_addr = b; left_addr_bit = to_nat c.left_addr_bit }))
    → All P rest
    → All P (keep name on_bus base rc rest)
keep-each P name false base rc rest own ih = ih
keep-each P name true none rc rest own ih = ih
keep-each P name true (some base) none rest own ih = ih
keep-each P name true (some base) (some rc) rest own ih = (own base rc refl refl, ih)

-- A kept device can be decoded, and its base address lies in the region.
abbrev IsDecodable : BusDevice → Type 0
IsDecodable d = IsPlaced d × InRegion d.base_addr

ready-IsDecodable :
    (name : Bytes) (b : ℕ) (i : ℤ)
    → IsChecked b i
    → b < 2 ^ 32
    → IsDecodable (record { name = name; base_addr = b; left_addr_bit = to_nat i })
ready-IsDecodable name b (negsuc n) h word = absurd h
ready-IsDecodable name b (pos n) h word =
    let low = low_bits b n word h in
    (
      record { fits = omega (arith, low); word = word; aligned = h.2 },
      (omega (arith, h.0, word), omega (arith, h.0, word)),
    )

kept-IsDecodable :
    (classes : StrMap ResolvedClass) (devices : List ResolvedDevice)
    → All (IsReadyDevice classes) devices
    → All IsDecodable (kept classes devices)
kept-IsDecodable classes [] h = tt
kept-IsDecodable classes (dev ∷ devs) (r, rs) =
    keep-each IsDecodable dev.name dev.data_bus dev.base_addr (class_of classes dev)
      (kept classes devs)
      (λ b c eb ec.
        let ready =
          subst (λ x. IsReady x (some c)) eb (subst (λ x. IsReady dev.base_addr x) ec r) in
        ready-IsDecodable dev.name b c.left_addr_bit ready.0 ready.1)
      (kept-IsDecodable classes devs rs)

kept-named :
    (classes : StrMap ResolvedClass) (devices : List ResolvedDevice)
    → AllPairs (λ x y. x.name ≢ y.name) devices
    → AllPairs (λ d e. d.name ≢ e.name) (kept classes devices)
kept-named classes [] h = tt
kept-named classes (dev ∷ devs) (ne, h) =
    pairs (kept-named classes devs h) dev.data_bus dev.base_addr (class_of classes dev)
  where
    others :
        (es : List ResolvedDevice)
        → All (λ y. dev.name ≢ y.name) es
        → All (λ e. dev.name ≢ e.name) (kept classes es)
    others [] h = tt
    others (e ∷ es) (ne, h) =
        keep-each (λ d. dev.name ≢ d.name) e.name e.data_bus e.base_addr (class_of classes e)
          (kept classes es) (λ b c eb ec. ne) (others es h)

    pairs :
        AllPairs (λ d e. d.name ≢ e.name) (kept classes devs)
        → (on_bus : Bool) (base : Option ℕ) (rc : Option ResolvedClass)
        → AllPairs (λ d e. d.name ≢ e.name) (keep dev.name on_bus base rc (kept classes devs))
    pairs ih false base rc = ih
    pairs ih true none rc = ih
    pairs ih true (some b) none = ih
    pairs ih true (some b) (some c) = (others devs ne, ih)

Disjoint-Separate : (d e : BusDevice) → Disjoint (range_of d) (range_of e) → Separate d e
Disjoint-Separate d e h =
    let one : (k : ℕ) → 1 ≤ 2 ^ k =
      λ k. pow-le-pow_right {n = 2} (omega arith) {i = 0} {j = k} (omega arith) in
    let x = one (d.left_addr_bit + 1) in
    let y = one (e.left_addr_bit + 1) in
    elim h [ inl a ↦ inl (omega (arith, a, x)) | inr b ↦ inr (omega (arith, b, y)) ]

Separate-sym : (d e : BusDevice) → Separate d e → Separate e d
Separate-sym d e (inl h) = inr h
Separate-sym d e (inr h) = inl h

All-both :
    {A : Type 0} (P Q : A → Type 0) (xs : List A) → All (λ x. P x × Q x) xs → All P xs × All Q xs
All-both P Q [] h = (tt, tt)
All-both P Q (x ∷ xs) ((p, q), h) = let (ps, qs) = All-both P Q xs h in ((p, ps), (q, qs))

zip-ready :
    (classes : StrMap ResolvedClass) (devices : List ResolvedDevice)
    → All (IsWellPlaced classes) devices
    → All (λ dev. HasWord dev.base_addr (class_of classes dev)) devices
    → All (IsReadyDevice classes) devices
zip-ready classes [] p w = tt
zip-ready classes (dev ∷ devs) (p, ps) (w, ws) = ((p, w), zip-ready classes devs ps ws)

-- Where the address checks pass, device names are distinct and every memory-mapped device has a class
-- and a base address of 32 bits, the devices of the decoder are a layout: in the region, aligned,
-- pairwise apart and with slices of the address that are in range.
pub bus_devices_of-IsLayout :
    (res : Resolution)
    → validate_addresses (some res) ≡ []
    → All (λ dev. HasWord dev.base_addr (class_of res.classes dev)) res.devices
    → AllPairs (λ x y. x.name ≢ y.name) res.devices
    → (devs : List BusDevice) × ((bus_devices_of res ≡ some devs) × IsLayout devs)
unfolding bus_devices_of
bus_devices_of-IsLayout res valid words names =
    let (placed, apart) = (validate_addresses-ranges res).0 valid in
    let ready = zip-ready res.classes res.devices placed words in
    let ks = kept res.classes res.devices in
    let fine =
      (All-sort_by name_less IsDecodable ks).1 (kept-IsDecodable res.classes res.devices ready) in
    let (is_placed, in_region) =
      All-both IsPlaced (λ d. InRegion d.base_addr) (sort_by name_less ks) fine in
    let ranges =
      AllPairs-append_left Disjoint (device_ranges res.classes res.devices) reserved_regions
        apart in
    let pairs =
      AllPairs-map _ Separate Disjoint-Separate ks
        (kept-AllPairs res.classes res.devices ready ranges) in
    (
      sort_by name_less ks,
      (
        rw (collect-kept res.classes res.devices ready, bus_devices_of),
        record {
          placed = is_placed;
          region = in_region;
          separate = (AllPairs-sort_by name_less Separate Separate-sym ks).1 pairs;
          named =
              (AllPairs-sort_by name_less (λ d e. d.name ≢ e.name) (λ d e ne eq. ne (sym eq)) ks).1
                (kept-named res.classes res.devices names);
        },
      ),
    )
