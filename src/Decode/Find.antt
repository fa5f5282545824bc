-- ===== src/Decode/Find.antt =====
-- The device that the bits of an address lead to in a trie, and the tries that arise.
use jcore_soc.Base.{
  ℕ, suc, ◌+◌, ◌≤◌, max, ◌≡◌, refl, ◌⊎◌, Bool, true, false, ◌&&◌, Option, none, some, [], ◌∷◌,
  arith, ◌==◌, if◌then◌else◌, length, drop, All, Bytes,
}
use jcore_soc.Decode.Radix.{BusDevice, Trie, absent, node, extract_prefix}

-- The first leaf on the path of the bits.
abbrev pub find : Trie → Bytes → Option BusDevice
find absent bits = none
find (node (some d) z o) bits = some d
find (node none z o) [] = none
find (node none z o) (b ∷ bits) =
    let left = find z bits in
    let right = find o bits in elim (b == b'0') [ true ↦ left | false ↦ right ]

abbrev pub starts : Bytes → Bytes → Bool
starts [] s = true
starts (x ∷ p) [] = false
starts (x ∷ p) (y ∷ s) = x == y && starts p s

abbrev pub IsBits : Bytes → Type 0
IsBits = All (λ b. (b ≡ b'0') ⊎ (b ≡ b'1'))

-- Every path of the trie ends in a leaf.
abbrev pub Grown : Trie → Type 0
Grown absent = ⊥
Grown (node (some d) z o) = Unit
Grown (node none absent absent) = ⊥
Grown (node none (node d z o) absent) = Grown (node d z o)
Grown (node none absent (node d z o)) = Grown (node d z o)
Grown (node none (node d z o) (node d' z' o')) = Grown (node d z o) × Grown (node d' z' o')

-- The node is a leaf or has both children.
abbrev pub IsSplit : Trie → Type 0
IsSplit (node (some d) z o) = Unit
IsSplit (node none (node d z o) (node d' z' o')) = Unit
IsSplit _ = ⊥

abbrev pub height : Trie → ℕ
height absent = 0
height (node (some d) z o) = 0
height (node none z o) = suc (max (height z) (height o))

abbrev pub prefix_of : Trie → Bytes
prefix_of t = (extract_prefix t).0

abbrev pub inner_of : Trie → Trie
inner_of t = (extract_prefix t).1

-- Following the single children of a trie is testing their keys at once.
pub find-extract_prefix :
    (t : Trie) (bits : Bytes)
    → IsBits bits
    → find t bits ≡ (
        if starts (prefix_of t) bits
        then find (inner_of t) (drop (length (prefix_of t)) bits)
        else none)
unfolding extract_prefix
find-extract_prefix (node none (node d z o) absent) [] h = refl
find-extract_prefix (node none (node d z o) absent) (b ∷ bits) h =
    ground (arith, find-extract_prefix (node d z o) bits h.1)
find-extract_prefix (node none absent (node d z o)) [] h = refl
find-extract_prefix (node none absent (node d z o)) (b ∷ bits) h =
    ground (arith, find-extract_prefix (node d z o) bits h.1)
find-extract_prefix (node none (node d z o) (node d' z' o')) bits h = refl
find-extract_prefix absent bits h = refl
find-extract_prefix (node (some d) z o) bits h = refl
find-extract_prefix (node none absent absent) bits h = refl

pub record Extracts (t : Trie) : Type 0 where
  pub split : IsSplit (inner_of t)
  pub grown : Grown (inner_of t)
  pub shorter : height (inner_of t) + length (prefix_of t) ≤ height t

pub Grown-Extracts : (t : Trie) → Grown t → Extracts t
unfolding extract_prefix
Grown-Extracts absent g = absurd g
Grown-Extracts (node (some d) z o) g = record { split = tt; grown = tt; shorter = omega arith }
Grown-Extracts (node none absent absent) g = absurd g
Grown-Extracts (node none (node d z o) absent) g =
    let e = Grown-Extracts (node d z o) g in
    record { split = e.split; grown = e.grown; shorter = omega (arith, e.shorter) }
Grown-Extracts (node none absent (node d z o)) g =
    let e = Grown-Extracts (node d z o) g in
    record { split = e.split; grown = e.grown; shorter = omega (arith, e.shorter) }
Grown-Extracts (node none (node d z o) (node d' z' o')) g = record {
  split = tt;
  grown = g;
  shorter = omega arith;
}
