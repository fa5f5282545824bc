-- ===== src/Decode/Layout.antt =====
-- The layouts of devices that can be decoded, and the prefixes that the decoder gives them.
use mathlib.Core.Path.{ap₂}
use jcore_soc.Base.{
  ℕ, ◌+◌, ◌^◌, ◌≤◌, ◌<◌, ◌≡◌, refl, sym, ◌∙◌, ◌≢◌, ◌⊎◌, inl, inr, true, false, ◌&&◌, Option, none,
  some, List, [], ◌∷◌, arith, ltb, leb, if◌then◌else◌, Bool-cases, All, AllPairs, all, Bytes, codes,
  str_eq, str_eq_iff, str_eq_refl,
}
use jcore_soc.Decode.Bits.{bin32}
use jcore_soc.Decode.Radix.{BusDevice}
use jcore_soc.Decode.Find.{starts}
use jcore_soc.Decode.Insert.{owner, apart, all_apart}
use jcore_soc.Decode.Ranges.{IsPlaced, starts-device_prefix, shr-Between}
use jcore_soc.Decode.{device_prefix, exact_prefixes, lookup, TextMap}

-- The ranges have no address in common.
abbrev pub Separate : BusDevice → BusDevice → Type 0
Separate d e =
    (d.base_addr + 2 ^ (d.left_addr_bit + 1) ≤ e.base_addr)
    ⊎ (e.base_addr + 2 ^ (e.left_addr_bit + 1) ≤ d.base_addr)

-- The region of the memory-mapped devices, 0xA in bits 31 to 28.
abbrev pub InRegion : ℕ → Type 0
InRegion a = (0xA000_0000 ≤ a) × (a < 0xB000_0000)

-- What the address validation and the naming of devices give: a list of decodable devices.
pub record IsLayout (devs : List BusDevice) : Type 0 where
  pub placed : All IsPlaced devs
  pub region : All (λ d. InRegion d.base_addr) devs
  pub separate : AllPairs Separate devs
  pub named : AllPairs (λ d e. d.name ≢ e.name) devs

-- The device in whose range the address lies.
abbrev pub device_at : List BusDevice → ℕ → Option BusDevice
device_at [] a = none
device_at (d ∷ ds) a =
    let rest = device_at ds a in
    if leb d.base_addr a && ltb a (d.base_addr + 2 ^ (d.left_addr_bit + 1)) then some d else rest

-- The literal of the selected device, or that of "none".
abbrev pub literal_of : TextMap → Option BusDevice → Bytes
literal_of lits none = lookup lits (codes "none")
literal_of lits (some d) = lookup lits d.name

lookup-exact_prefixes :
    (ds : List BusDevice) (m : TextMap) (k : Bytes)
    → All (λ d. k ≢ d.name) ds
    → lookup (exact_prefixes ds m) k ≡ lookup m k
unfolding exact_prefixes lookup
lookup-exact_prefixes [] m k h = refl
lookup-exact_prefixes (d ∷ ds) m k (ne, h) =
    lookup-exact_prefixes ds ((d.name, device_prefix d) ∷ m) k h
    ∙ elim (Bool-cases (str_eq d.name k)) [
      | inl y ↦ absurd (ne (sym ((str_eq_iff d.name k).0 y)))
      | inr n ↦ rw n
    ]

pub exact_prefixes-lem :
    (ds : List BusDevice) (m : TextMap)
    → AllPairs (λ d e. d.name ≢ e.name) ds
    → All (λ d. lookup (exact_prefixes ds m) d.name ≡ device_prefix d) ds
unfolding exact_prefixes lookup
exact_prefixes-lem [] m h = tt
exact_prefixes-lem (d ∷ ds) m (ne, h) = (
  lookup-exact_prefixes ds ((d.name, device_prefix d) ∷ m) d.name ne ∙ rw (str_eq_refl d.name),
  exact_prefixes-lem ds ((d.name, device_prefix d) ∷ m) h,
)

pub owner-cong :
    (f g : BusDevice → Bytes) (ds : List BusDevice) (bits : Bytes)
    → All (λ d. f d ≡ g d) ds
    → owner f ds bits ≡ owner g ds bits
owner-cong f g [] bits h = refl
owner-cong f g (d ∷ ds) bits (e, h) = rw (e, owner-cong f g ds bits h)

pub all_apart-cong :
    (f g : BusDevice → Bytes) (ds : List BusDevice)
    → All (λ d. f d ≡ g d) ds
    → all_apart f ds ≡ all_apart g ds
all_apart-cong f g [] h = refl
all_apart-cong f g (d ∷ ds) (e, h) = ap₂ (λ a b. a && b) (heads ds h) (all_apart-cong f g ds h)
  where
    heads :
        (es : List BusDevice) → All (λ x. f x ≡ g x) es → all (apart f d) es ≡ all (apart g d) es
    heads [] h = refl
    heads (x ∷ es) (ex, h) = rw (e, ex, heads es h)

starts_trans : (p q s : Bytes) → starts p q ≡ true → starts q s ≡ true → starts p s ≡ true
starts_trans [] q s h k = refl
starts_trans (x ∷ p) [] s h k = cc
starts_trans (x ∷ p) (y ∷ q) [] h k = cc
starts_trans (x ∷ p) (y ∷ q) (z ∷ s) h k = ground (arith, starts_trans p q s)

apart-device_prefix :
    (d e : BusDevice) → IsPlaced d → IsPlaced e → Separate d e → apart device_prefix d e ≡ true
apart-device_prefix d e pd pe s = rw (not_starts d e pd pe s, not_starts e d pe pd (swap s))
  where
    swap : Separate d e → Separate e d
    swap (inl h) = inr h
    swap (inr h) = inl h

    not_starts :
        (x y : BusDevice)
        → IsPlaced x
        → IsPlaced y
        → Separate x y
        → starts (device_prefix x) (device_prefix y) ≡ false
    not_starts x y px py s = elim (Bool-cases (starts (device_prefix x) (device_prefix y))) [
      | inr n ↦ n
      | inl h ↦
          let w = shr-Between 0 (y.left_addr_bit + 1) in
          let size : 0 < 2 ^ (y.left_addr_bit + 1) = omega (arith, w.low, w.high) in
          let own = (starts-device_prefix y py y.base_addr py.word).1 (omega arith, omega arith) in
          let both =
            (starts-device_prefix x px y.base_addr py.word).0
              (starts_trans (device_prefix x) (device_prefix y) (bin32 y.base_addr) h own) in
          absurd (omega (arith, both.0, both.1, size, s))
    ]

pub all_apart-device_prefix :
    (ds : List BusDevice)
    → All IsPlaced ds
    → AllPairs Separate ds
    → all_apart device_prefix ds ≡ true
all_apart-device_prefix [] p s = refl
all_apart-device_prefix (d ∷ ds) (pd, p) (sd, s) =
    rw (heads ds p sd, all_apart-device_prefix ds p s)
  where
    heads :
        (es : List BusDevice)
        → All IsPlaced es
        → All (Separate d) es
        → all (apart device_prefix d) es ≡ true
    heads [] p s = refl
    heads (e ∷ es) (pe, p) (se, s) = rw (apart-device_prefix d e pd pe se, heads es p s)

pub owner-device_at :
    (ds : List BusDevice) (a : ℕ)
    → a < 2 ^ 32
    → All IsPlaced ds
    → owner device_prefix ds (bin32 a) ≡ device_at ds a
owner-device_at [] a w h = refl
owner-device_at (d ∷ ds) a w (p, h) =
    ground (arith, owner-device_at ds a w h, starts-device_prefix d p a w)
