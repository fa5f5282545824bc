-- ===== src/Decode/Radix.antt =====
-- tools/socgen/emit/databus.go: the trie over address prefixes. A prefix holds the bytes '0' and '1'
-- alone, so the map of children is the two places for them, `absent` for a key that is not there.
use jcore_soc.Base.{ℕ, true, false, Option, none, some, [], ◌∷◌, ◌==◌, if◌then◌else◌, Bytes}

pub record BusDevice : Type 0 where
  pub name : Bytes
  pub base_addr : ℕ
  pub left_addr_bit : ℕ

pub data Trie : Type 0 where
  absent : Trie
  node : Option BusDevice → Trie → Trie → Trie

abbrev pub new_trie : Trie
new_trie = node none absent absent

abbrev pub leaf_of : Trie → Option BusDevice
leaf_of absent = none
leaf_of (node d z o) = d

abbrev pub zero_kid : Trie → Trie
zero_kid absent = absent
zero_kid (node d z o) = z

abbrev pub one_kid : Trie → Trie
one_kid absent = absent
one_kid (node d z o) = o

-- `insert` makes the nodes of its path that are absent.
unfoldable pub insert : Bytes → BusDevice → Trie → Trie
insert [] dev t = node (some dev) (zero_kid t) (one_kid t)
insert (k ∷ prefix) dev t =
    let left = insert prefix dev (zero_kid t) in
    let right = insert prefix dev (one_kid t) in
    elim (k == b'0') [
      | true ↦ node (leaf_of t) left (one_kid t)
      | false ↦ node (leaf_of t) (zero_kid t) right
    ]

-- The node without the child `k`; the copy has no leaf.
unfoldable pub without : ℕ → Trie → Trie
without k t = if k == b'0' then node none absent (one_kid t) else node none (zero_kid t) absent

abbrev pub cons_prefix : ℕ → Bytes × Trie → Bytes × Trie
cons_prefix k (p, t) = (k ∷ p, t)

-- Follows the nodes with one child and no leaf.
unfoldable pub extract_prefix : Trie → Bytes × Trie
extract_prefix (node none (node d z o) absent) = cons_prefix b'0' (extract_prefix (node d z o))
extract_prefix (node none absent (node d z o)) = cons_prefix b'1' (extract_prefix (node d z o))
extract_prefix t = ([], t)
