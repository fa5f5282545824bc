-- ===== src/Decode/Ranges.antt =====
-- The prefix of a device is shared by exactly the addresses of its range.
use native.Mathlib.Nat.{pow-suc, div-add-mod'}
use mathlib.Core.Path.{ap₂}
use jcore_soc.Base.{
  ℕ, zero, suc, ◌+◌, ◌-◌, ◌*◌, ◌/◌, ◌%◌, ◌^◌, ◌≤◌, ◌<◌, ◌≡◌, refl, sym, ap, subst, ◌∙◌, ◌↔◌, ◌⊎◌,
  inl, inr, Bool, true, false, ◌∷◌, arith, ltb, ◌==◌, Bool-cases, length, take, str_eq, str_eq_iff,
}
use jcore_soc.Decode.Bits.{test_bit, bit_char, bin_from, bin32}
use jcore_soc.Decode.Radix.{BusDevice}
use jcore_soc.Decode.Find.{starts, IsBits}
use jcore_soc.Decode.Ifs.{str_eq-take}
use jcore_soc.Decode.{device_prefix}

-- v >> k, by halving.
abbrev pub shr : ℕ → ℕ → ℕ
shr v zero = v
shr v (suc k) = shr (v / 2) k

-- The value has at most n bits.
abbrev pub small : ℕ → ℕ → Bool
small v zero = v == 0
small v (suc n) = small (v / 2) n

pub IsBits-bin_from : (n v : ℕ) → IsBits (bin_from n v)
unfolding bin_from
IsBits-bin_from zero v = tt
IsBits-bin_from (suc n) v = (bit_char-bit (test_bit v n), IsBits-bin_from n v)
  where
    bit_char-bit : (b : Bool) → (bit_char b ≡ b'0') ⊎ (bit_char b ≡ b'1')
    bit_char-bit true = inr refl
    bit_char-bit false = inl refl

pub length-bin_from : (n v : ℕ) → length (bin_from n v) ≡ n
unfolding bin_from
length-bin_from zero v = refl
length-bin_from (suc n) v = ap suc (length-bin_from n v)

test_bit-shr : (v n k : ℕ) → test_bit (shr v k) n ≡ test_bit v (n + k)
test_bit-shr v n zero = ap (test_bit v) {x = n} {y = n + zero} (omega arith)
test_bit-shr v n (suc k) =
    test_bit-shr (v / 2) n k
    ∙ sym (unfold test_bit in ap (test_bit v) {x = n + suc k} {y = suc (n + k)} (omega arith))

-- The leading bits are the bits of the value shifted.
pub take-bin_from : (m k v : ℕ) → take m (bin_from (m + k) v) ≡ bin_from m (shr v k)
unfolding bin_from
take-bin_from zero k v = refl
take-bin_from (suc m) k v =
    ap (λ n. take (suc m) (bin_from n v)) {x = suc m + k} {y = suc (m + k)} (omega arith)
    ∙ ap₂ (λ c s. c ∷ s) (ap bit_char (sym (test_bit-shr v m k))) (take-bin_from m k v)

bit_char-injective : (a b : Bool) → bit_char a ≡ bit_char b → a ≡ b
bit_char-injective a b h = ground arith

test_bit-bin_from :
    (n u v i : ℕ) → bin_from n u ≡ bin_from n v → i < n → test_bit u i ≡ test_bit v i
unfolding bin_from
test_bit-bin_from zero u v i e h = absurd (omega arith)
test_bit-bin_from (suc n) u v i e h = elim (Bool-cases (ltb i n)) [
  | inl lt ↦ test_bit-bin_from n u v i (cc e) (ground arith)
  | inr ge ↦
      let last : i ≡ n = ground arith in
      rw last (bit_char-injective (test_bit u n) (test_bit v n) (cc e))
]

eq_of_bits :
    (n u v : ℕ)
    → small u n ≡ true
    → small v n ≡ true
    → ((i : ℕ) → i < n → test_bit u i ≡ test_bit v i)
    → u ≡ v
unfolding test_bit
eq_of_bits zero u v su sv h = ground arith
eq_of_bits (suc n) u v su sv h =
    let halves = eq_of_bits n (u / 2) (v / 2) su sv (λ i lt. h (suc i) (omega arith)) in
    let low = h 0 (omega arith) in ground (arith, halves, low)

-- Bits determine a value that has no more.
bin_from-injective :
    (n u v : ℕ) → small u n ≡ true → small v n ≡ true → bin_from n u ≡ bin_from n v → u ≡ v
bin_from-injective n u v su sv e = eq_of_bits n u v su sv (λ i h. test_bit-bin_from n u v i e h)

lt-small : (n v : ℕ) → v < 2 ^ n → small v n ≡ true
lt-small zero v h = ground arith
lt-small (suc n) v h =
    let e : 2 ^ suc n ≡ 2 ^ n * 2 = pow-suc 2 n in lt-small n (v / 2) (omega (arith, e))

small-shr : (m k v : ℕ) → small v (m + k) ≡ true → small (shr v k) m ≡ true
small-shr m zero v h = ap (small v) {x = m} {y = m + zero} (omega arith) ∙ h
small-shr m (suc k) v h =
    small-shr m k (v / 2) (ap (small v) {x = suc (m + k)} {y = m + suc k} (omega arith) ∙ h)

pub record Between (v k : ℕ) : Type 0 where
  pub low : shr v k * 2 ^ k ≤ v
  pub high : v < shr v k * 2 ^ k + 2 ^ k

pub shr-Between : (v k : ℕ) → Between v k
shr-Between v zero = omega arith
shr-Between v (suc k) =
    let q = shr (v / 2) k in
    let ih = shr-Between (v / 2) k in
    let e : 2 ^ suc k ≡ 2 ^ k * 2 = pow-suc 2 k in
    let m : q * 2 ^ suc k ≡ q * (2 ^ k * 2) = ap (λ t. q * t) e in
    record { low = omega (arith, ih.low, m); high = omega (arith, ih.high, e, m) }

quotient_unique : (p q r a : ℕ) → q * p ≤ a → a < q * p + p → r * p ≤ a → a < r * p + p → q ≡ r
quotient_unique p q r a h1 h2 h3 h4 = grind arith

-- A device that the decoder can select: its prefix is a slice of the 32 bits, and its base address
-- has 32 bits and no bit set within the device's own range.
pub record IsPlaced (d : BusDevice) : Type 0 where
  pub fits : d.left_addr_bit ≤ 31
  pub word : d.base_addr < 2 ^ 32
  pub aligned : d.base_addr % 2 ^ (d.left_addr_bit + 1) ≡ 0

-- The address lies in the range of the device.
abbrev pub Covers : BusDevice → ℕ → Type 0
Covers d a = (d.base_addr ≤ a) × (a < d.base_addr + 2 ^ (d.left_addr_bit + 1))

pub aligned-shr : (b k : ℕ) → b % 2 ^ k ≡ 0 → b ≡ shr b k * 2 ^ k
aligned-shr b k h =
    let p = 2 ^ k in
    let w = shr-Between b k in
    let pos : 0 < p = omega (arith, w.low, w.high) in
    let e : b / p * p ≡ b = omega (arith, div-add-mod' b p) in
    sym e
    ∙ ap (λ q. q * p)
        (quotient_unique p (b / p) (shr b k) b (omega (arith, e)) (omega (arith, e)) w.low w.high)

module _ (d : BusDevice) (placed : IsPlaced d) (a : ℕ) (word : a < 2 ^ 32) where
  k : ℕ
  k = d.left_addr_bit + 1

  m : ℕ
  m = 31 - d.left_addr_bit

  whole : m + k ≡ 32
  unfolding m k
  whole = omega (arith, placed.fits)

  take-bin32 : (v : ℕ) → take m (bin32 v) ≡ bin_from m (shr v k)
  unfolding bin32
  take-bin32 v = ap (λ n. take m (bin_from n v)) (sym whole) ∙ take-bin_from m k v

  device_prefix-bin_from : device_prefix d ≡ bin_from m (shr d.base_addr k)
  unfolding device_prefix m
  device_prefix-bin_from =
      ap (λ n. take n (bin32 d.base_addr)) {x = 32 - d.left_addr_bit - 1} {y = 31 - d.left_addr_bit}
        (omega arith)
      ∙ take-bin32 d.base_addr

  small-word : (v : ℕ) → v < 2 ^ 32 → small (shr v k) m ≡ true
  small-word v h = small-shr m k v (ap (small v) whole ∙ lt-small 32 v h)

  prefix_test :
      starts (device_prefix d) (bin32 a)
      ≡ str_eq (bin_from m (shr a k)) (bin_from m (shr d.base_addr k))
  unfolding m
  prefix_test =
      let p = bin_from m (shr d.base_addr k) in
      let n : length p ≡ m = length-bin_from m (shr d.base_addr k) in
      let l : length (bin32 a) ≡ 32 = unfold bin32 in length-bin_from 32 a in
      ap (λ s. starts s (bin32 a)) device_prefix-bin_from
      ∙ sym (str_eq-take p (bin32 a) (omega (arith, n, l)))
      ∙ ap (λ s. str_eq s p) (ap (λ n. take n (bin32 a)) n ∙ take-bin32 a)

  starts-shr : (starts (device_prefix d) (bin32 a) ≡ true) ↔ (shr a k ≡ shr d.base_addr k)
  starts-shr =
      let same = str_eq_iff (bin_from m (shr a k)) (bin_from m (shr d.base_addr k)) in
      (
        λ h.
            bin_from-injective m (shr a k) (shr d.base_addr k) (small-word a word)
              (small-word d.base_addr placed.word) (same.0 (sym prefix_test ∙ h)),
        λ e. prefix_test ∙ same.1 (ap (bin_from m) e),
      )

  Covers-shr : (shr a k ≡ shr d.base_addr k) ↔ Covers d a
  unfolding k
  Covers-shr =
      let n = d.left_addr_bit + 1 in
      let p = 2 ^ n in
      let w = shr-Between a n in
      let b = aligned-shr d.base_addr n placed.aligned in
      (
        λ e.
            let t : shr a n * p ≡ shr d.base_addr n * p = ap (λ q. q * p) e in
            (omega (arith, w.low, b, t), omega (arith, w.high, b, t)),
        λ c.
            quotient_unique p (shr a n) (shr d.base_addr n) a w.low w.high (omega (arith, b, c.0))
              (omega (arith, b, c.1)),
      )

  -- An address has the prefix of a device exactly when it lies in its range.
  pub starts-device_prefix : (starts (device_prefix d) (bin32 a) ≡ true) ↔ Covers d a
  starts-device_prefix = (λ h. Covers-shr.0 (starts-shr.0 h), λ c. starts-shr.1 (Covers-shr.1 c))

  pub length-device_prefix : length (device_prefix d) ≤ 32
  length-device_prefix =
      let n : length (device_prefix d) ≡ m =
        ap length device_prefix-bin_from ∙ length-bin_from m (shr d.base_addr k) in
      omega (arith, n, whole)

  pub IsBits-device_prefix : IsBits (device_prefix d)
  IsBits-device_prefix =
      subst IsBits (sym device_prefix-bin_from) (IsBits-bin_from m (shr d.base_addr k))
