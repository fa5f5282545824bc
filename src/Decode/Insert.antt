-- ===== src/Decode/Insert.antt =====
-- What the insertions into a trie lead to.
use jcore_soc.Base.{
  ℕ, ◌≤◌, max, ◌≡◌, refl, ap, ◌∙◌, inl, inr, Bool, true, false, not, ◌&&◌, ◌||◌, Option, none, some,
  List, [], ◌∷◌, arith, ◌==◌, if◌then◌else◌, Bool-cases, &&-elim, length, All, all, any, Bytes,
}
use jcore_soc.Decode.Radix.{BusDevice, Trie, absent, node, new_trie, insert}
use jcore_soc.Decode.Find.{find, starts, IsBits, Grown, height}
use jcore_soc.Decode.{insert_all, lookup, TextMap}

-- No leaf stands on the path of the prefix, its end included.
abbrev free : Bytes → Trie → Bool
free p absent = true
free p (node (some d) z o) = false
free [] (node none z o) = true
free (k ∷ p) (node none z o) =
    let left = free p z in let right = free p o in elim (k == b'0') [ true ↦ left | false ↦ right ]

find-insert :
    (p : Bytes) (d : BusDevice) (t : Trie) (bits : Bytes)
    → free p t ≡ true
    → IsBits p
    → IsBits bits
    → find (insert p d t) bits ≡ (if starts p bits then some d else find t bits)
unfolding insert
find-insert p d (node (some e) z o) bits f hp hb = cc
find-insert [] d absent bits f hp hb = refl
find-insert [] d (node none z o) bits f hp hb = refl
find-insert (k ∷ p) d absent [] f hp hb = ground arith
find-insert (k ∷ p) d absent (b ∷ bits) f hp hb =
    ground (arith, find-insert p d absent bits refl hp.1 hb.1, hp.0, hb.0)
find-insert (k ∷ p) d (node none z o) [] f hp hb = ground arith
find-insert (k ∷ p) d (node none z o) (b ∷ bits) f hp hb =
    ground (arith, find-insert p d z bits, find-insert p d o bits, hp.0, hp.1, hb.0, hb.1)

free-insert :
    (p q : Bytes) (d : BusDevice) (t : Trie)
    → free p t ≡ true
    → IsBits p
    → IsBits q
    → starts q p ≡ false
    → free p (insert q d t) ≡ true
unfolding insert
free-insert p [] d t f hp hq ap = cc
free-insert p (k ∷ q) d (node (some e) z o) f hp hq ap = cc
free-insert [] (k ∷ q) d absent f hp hq ap = ground arith
free-insert [] (k ∷ q) d (node none z o) f hp hq ap = ground arith
free-insert (j ∷ p) (k ∷ q) d absent f hp hq ap =
    ground (arith, free-insert p q d absent refl hp.1 hq.1, hp.0, hq.0)
free-insert (j ∷ p) (k ∷ q) d (node none z o) f hp hq ap =
    ground (arith, free-insert p q d z, free-insert p q d o, hp.0, hp.1, hq.0, hq.1)

abbrev is_node : Trie → Bool
is_node absent = false
is_node (node d z o) = true

is_node-insert : (p : Bytes) (d : BusDevice) (t : Trie) → is_node (insert p d t) ≡ true
unfolding insert
is_node-insert [] d t = refl
is_node-insert (k ∷ p) d t = ground arith

-- A node grows when its children do and it has one.
Grown-node :
    (z o : Trie)
    → (is_node z ≡ true → Grown z)
    → (is_node o ≡ true → Grown o)
    → is_node z || is_node o ≡ true
    → Grown (node none z o)
Grown-node absent absent gz go any = cc
Grown-node absent (node d u v) gz go any = go refl
Grown-node (node d u v) absent gz go any = gz refl
Grown-node (node d u v) (node e x y) gz go any = (gz refl, go refl)

-- Empty, or every path ends in a leaf.
abbrev IsFine : Trie → Type 0
IsFine absent = Unit
IsFine (node none absent absent) = Unit
IsFine t = Grown t

fine : (t : Trie) → Grown t → IsFine t
fine absent h = tt
fine (node none absent absent) h = tt
fine (node (some d) z o) h = h
fine (node none (node d z o) absent) h = h
fine (node none absent (node d z o)) h = h
fine (node none (node d z o) (node e u v)) h = h

kids-IsFine :
    (z o : Trie)
    → IsFine (node none z o)
    → (IsFine z × IsFine o) × ((is_node z ≡ true → Grown z) × (is_node o ≡ true → Grown o))
kids-IsFine absent absent h = ((tt, tt), (λ e. cc e, λ e. cc e))
kids-IsFine absent (node d u v) h = ((tt, fine (node d u v) h), (λ e. cc e, λ e. h))
kids-IsFine (node d u v) absent h = ((fine (node d u v) h, tt), (λ e. h, λ e. cc e))
kids-IsFine (node d u v) (node e x y) h =
    ((fine (node d u v) h.0, fine (node e x y) h.1), (λ e. h.0, λ e. h.1))

pub Grown-insert :
    (p : Bytes) (d : BusDevice) (t : Trie) → IsFine t → free p t ≡ true → Grown (insert p d t)
unfolding insert
Grown-insert [] d t h f = tt
Grown-insert (k ∷ p) d (node (some e) z o) h f = cc
Grown-insert (k ∷ p) d absent h f =
    let g = Grown-insert p d absent tt refl in
    let n = is_node-insert p d absent in
    elim (Bool-cases (k == b'0')) [
      | inl y ↦
          rw (y, insert, Grown) (Grown-node (insert p d absent) absent (λ _. g) (λ e. cc e) (rw n))
      | inr y ↦
          rw (y, insert, Grown) (Grown-node absent (insert p d absent) (λ e. cc e) (λ _. g) (rw n))
    ]
Grown-insert (k ∷ p) d (node none z o) h f =
    let ((fz, fo), (gz, go)) = kids-IsFine z o h in
    elim (Bool-cases (k == b'0')) [
      | inl y ↦
          let left : free p z ≡ true = ground arith in
          rw (y, insert, Grown)
            (Grown-node (insert p d z) o (λ _. Grown-insert p d z fz left) go
              (rw (is_node-insert p d z)))
      | inr y ↦
          let right : free p o ≡ true = ground arith in
          rw (y, insert, Grown)
            (Grown-node z (insert p d o) gz (λ _. Grown-insert p d o fo right)
              (ground (arith, is_node-insert p d o)))
    ]

pub height-insert :
    (p : Bytes) (d : BusDevice) (t : Trie) → height (insert p d t) ≤ max (height t) (length p)
unfolding insert
height-insert [] d t = omega arith
height-insert (k ∷ p) d absent = ground (arith, height-insert p d absent)
height-insert (k ∷ p) d (node (some e) z o) = ground arith
height-insert (k ∷ p) d (node none z o) = ground (arith, height-insert p d z, height-insert p d o)

-- The first device of the list whose prefix the bits start with.
abbrev pub owner : (BusDevice → Bytes) → List BusDevice → Bytes → Option BusDevice
owner pre [] bits = none
owner pre (d ∷ ds) bits =
    let rest = owner pre ds bits in if starts (pre d) bits then some d else rest

starts-comparable :
    (p q s : Bytes) → starts p s ≡ true → starts q s ≡ true → starts p q || starts q p ≡ true
starts-comparable [] q s hp hq = refl
starts-comparable (x ∷ p) [] s hp hq = ground arith
starts-comparable (x ∷ p) (y ∷ q) [] hp hq = cc
starts-comparable (x ∷ p) (y ∷ q) (z ∷ s) hp hq = ground (arith, starts-comparable p q s)

-- No prefix of the list starts another.
abbrev pub apart : (BusDevice → Bytes) → BusDevice → BusDevice → Bool
apart pre d e = not (starts (pre d) (pre e)) && not (starts (pre e) (pre d))

abbrev pub all_apart : (BusDevice → Bytes) → List BusDevice → Bool
all_apart pre [] = true
all_apart pre (d ∷ ds) = all (apart pre d) ds && all_apart pre ds

-- Beside a device whose prefix fits, no other of the list fits.
owner-apart :
    (pre : BusDevice → Bytes) (d : BusDevice) (ds : List BusDevice) (bits : Bytes)
    → all (apart pre d) ds ≡ true
    → starts (pre d) bits ≡ true
    → owner pre ds bits ≡ none
owner-apart pre d [] bits a s = refl
owner-apart pre d (e ∷ ds) bits a s =
    ground (arith, owner-apart pre d ds bits, starts-comparable (pre d) (pre e) bits)

abbrev pub or_device : Option BusDevice → Option BusDevice → Option BusDevice
or_device (some d) o = some d
or_device none o = o

or_device-none : (o : Option BusDevice) → or_device o none ≡ o
or_device-none none = refl
or_device-none (some d) = refl

find-new_trie : (bits : Bytes) → find new_trie bits ≡ none
find-new_trie [] = refl
find-new_trie (b ∷ bits) = ground arith

free-new_trie : (p : Bytes) → free p new_trie ≡ true
free-new_trie [] = refl
free-new_trie (k ∷ p) = ground arith

module _ (prefixes : TextMap) where
  abbrev pub prefix_in : BusDevice → Bytes
  prefix_in d = lookup prefixes d.name

  all-free-insert :
      (d : BusDevice) (ds : List BusDevice) (t : Trie)
      → All (λ e. IsBits (prefix_in e)) ds
      → IsBits (prefix_in d)
      → all (apart prefix_in d) ds ≡ true
      → all (λ e. free (prefix_in e) t) ds ≡ true
      → all (λ e. free (prefix_in e) (insert (prefix_in d) d t)) ds ≡ true
  all-free-insert d [] t hs h a f = refl
  all-free-insert d (e ∷ ds) t hs h a f = ground (
    arith,
    all-free-insert d ds t hs.1 h,
    free-insert (prefix_in e) (prefix_in d) d t (&&-elim _ _ f).0 hs.0 h,
  )

  -- The trie of all devices leads to the owner of the bits.
  pub find-insert_all :
      (ds : List BusDevice) (t : Trie) (bits : Bytes)
      → IsBits bits
      → All (λ e. IsBits (prefix_in e)) ds
      → all_apart prefix_in ds ≡ true
      → all (λ e. free (prefix_in e) t) ds ≡ true
      → find (insert_all prefixes ds t) bits ≡ or_device (owner prefix_in ds bits) (find t bits)
  unfolding insert_all
  find-insert_all [] t bits hb hs a f = refl
  find-insert_all (d ∷ ds) t bits hb hs a f =
      let (a_head, a_rest) = &&-elim _ _ a in
      let (f_head, f_rest) = &&-elim _ _ f in
      let t' = insert (prefix_in d) d t in
      let ih =
        find-insert_all ds t' bits hb hs.1 a_rest
          (all-free-insert d ds t hs.1 hs.0 a_head f_rest) in
      ih
      ∙ ap (or_device (owner prefix_in ds bits)) (find-insert (prefix_in d) d t bits f_head hs.0 hb)
      ∙ elim (Bool-cases (starts (prefix_in d) bits)) [
        | inl y ↦ rw (y, owner-apart prefix_in d ds bits a_head y)
        | inr n ↦ rw n
      ]

  pub Grown-insert_all :
      (ds : List BusDevice) (t : Trie)
      → Grown t
      → All (λ e. IsBits (prefix_in e)) ds
      → all_apart prefix_in ds ≡ true
      → all (λ e. free (prefix_in e) t) ds ≡ true
      → Grown (insert_all prefixes ds t)
  unfolding insert_all
  Grown-insert_all [] t g hs a f = g
  Grown-insert_all (d ∷ ds) t g hs a f =
      let (a_head, a_rest) = &&-elim _ _ a in
      let (f_head, f_rest) = &&-elim _ _ f in
      Grown-insert_all ds (insert (prefix_in d) d t)
        (Grown-insert (prefix_in d) d t (fine t g) f_head) hs.1 a_rest
        (all-free-insert d ds t hs.1 hs.0 a_head f_rest)

  pub height-insert_all :
      (ds : List BusDevice) (t : Trie) (n : ℕ)
      → height t ≤ n
      → All (λ e. length (prefix_in e) ≤ n) ds
      → height (insert_all prefixes ds t) ≤ n
  unfolding insert_all
  height-insert_all [] t n h hs = h
  height-insert_all (d ∷ ds) t n h hs =
      height-insert_all ds (insert (prefix_in d) d t) n
        (omega (arith, height-insert (prefix_in d) d t, hs.0)) hs.1

  all-free-new_trie : (ds : List BusDevice) → all (λ e. free (prefix_in e) new_trie) ds ≡ true
  all-free-new_trie [] = refl
  all-free-new_trie (d ∷ ds) = ground (arith, all-free-new_trie ds, free-new_trie (prefix_in d))

  -- The trie of a non-empty list, from the empty trie.
  pub record IsDecoder (ds : List BusDevice) (bits : Bytes) : Type 0 where
    pub leads : find (insert_all prefixes ds new_trie) bits ≡ owner prefix_in ds bits
    pub grown : Grown (insert_all prefixes ds new_trie)
    pub low : height (insert_all prefixes ds new_trie) ≤ 32

  pub insertions-IsDecoder :
      (d : BusDevice) (ds : List BusDevice) (bits : Bytes)
      → IsBits bits
      → All (λ e. IsBits (prefix_in e)) (d ∷ ds)
      → All (λ e. length (prefix_in e) ≤ 32) (d ∷ ds)
      → all_apart prefix_in (d ∷ ds) ≡ true
      → IsDecoder (d ∷ ds) bits
  unfolding insert_all
  insertions-IsDecoder d ds bits hb hs hl a = record {
    leads =
        find-insert_all (d ∷ ds) new_trie bits hb hs a (all-free-new_trie (d ∷ ds))
        ∙ ap (or_device (owner prefix_in (d ∷ ds) bits)) (find-new_trie bits)
        ∙ or_device-none (owner prefix_in (d ∷ ds) bits);
    grown =
        Grown-insert_all ds (insert (prefix_in d) d new_trie)
          (Grown-insert (prefix_in d) d new_trie tt (free-new_trie (prefix_in d))) hs.1
          (&&-elim _ _ a).1
          (all-free-insert d ds new_trie hs.1 hs.0 (&&-elim _ _ a).0 (all-free-new_trie ds));
    low = height-insert_all (d ∷ ds) new_trie 32 (omega arith) hl;
  }
