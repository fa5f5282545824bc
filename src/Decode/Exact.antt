-- ===== src/Decode/Exact.antt =====
-- In exact mode the decoder selects the device in whose range the address lies.
use mathlib.Core.Path.{ap₂}
use jcore_soc.Base.{
  ℕ, zero, suc, ◌+◌, ◌^◌, ◌≤◌, ◌<◌, ◌≡◌, refl, sym, ap, subst, ◌∙◌, inl, inr, Bool, true, false,
  ◌&&◌, Option, none, some, List, [], ◌∷◌, arith, leb, ◌==◌, if◌then◌else◌, Bool-cases, length,
  take, drop, All, all, Bytes, codes,
}
use jcore_soc.Vhdl.Ast.{Stmts, comment, cons, append}
use jcore_soc.Vhdl.Ast.Run.{or_else, run_stmts, run_stmts-append}
use jcore_soc.Decode.Bits.{bin32, bin_from}
use jcore_soc.Decode.Radix.{BusDevice, Trie, new_trie}
use jcore_soc.Decode.Find.{
  find, starts, IsBits, height, prefix_of, inner_of, Grown-Extracts, find-extract_prefix, Grown,
}
use jcore_soc.Decode.Ifs.{
  NamesAddress, holds-build_cond, run-build_ifs, name_text, found, length-drop, or_else-none,
}
use jcore_soc.Decode.Insert.{prefix_in, IsDecoder, insertions-IsDecoder}
use jcore_soc.Decode.Ranges.{
  IsPlaced, length-device_prefix, IsBits-device_prefix, IsBits-bin_from, length-bin_from,
  take-bin_from, shr, shr-Between,
}
use jcore_soc.Decode.Layout.{
  InRegion, IsLayout, device_at, literal_of, exact_prefixes-lem, owner-cong, all_apart-cong,
  all_apart-device_prefix, owner-device_at,
}
use jcore_soc.Decode.{
  device_prefix, device_prefixes, exact_prefixes, insert_all, lookup, TextMap, decode_trie,
  decode_function, return_none, device_fits,
}

-- The address bits past the common prefix. The first 4 bits of the prefix are not tested.
short_prefix :
    (p s t : Bytes) (n : ℕ) → take n s ≡ take n t → length p ≤ n → starts p s ≡ starts p t
short_prefix [] s t n e h = refl
short_prefix (x ∷ p) s t zero e h = absurd (omega arith)
short_prefix (x ∷ p) [] [] (suc n) e h = refl
short_prefix (x ∷ p) [] (c ∷ t) (suc n) e h = cc e
short_prefix (x ∷ p) (b ∷ s) [] (suc n) e h = cc e
short_prefix (x ∷ p) (b ∷ s) (c ∷ t) (suc n) e h =
    ap₂ (λ y z. x == y && z) (cc e) (short_prefix p s t n (cc e) (omega arith))

long_prefix :
    (p s t : Bytes) (n : ℕ)
    → take n s ≡ take n t
    → starts p t ≡ true
    → n ≤ length p
    → starts p s ≡ starts (drop n p) (drop n s)
long_prefix p s t zero e st h = refl
long_prefix [] s t (suc n) e st h = absurd (omega arith)
long_prefix (x ∷ p) [] [] (suc n) e st h = cc
long_prefix (x ∷ p) [] (c ∷ t) (suc n) e st h = cc e
long_prefix (x ∷ p) (b ∷ s) [] (suc n) e st h = cc e
long_prefix (x ∷ p) (b ∷ s) (c ∷ t) (suc n) e st h =
    let head : b ≡ c = cc e in ground (arith, long_prefix p s t n (cc e), head)

-- The first 4 bits of an address of the region are those of 0xA.
take-bin32_region : (a : ℕ) → InRegion a → take 4 (bin32 a) ≡ bin_from 4 10
unfolding bin32
take-bin32_region a (lo, hi) =
    let w = shr-Between a 28 in
    let nibble : shr a 28 ≡ 10 = omega (arith, w.low, w.high) in
    take-bin_from 4 28 a ∙ ap (bin_from 4) nibble

name_text-if :
    (lits : TextMap) (c : Bool) (o : Option BusDevice)
    → name_text lits (if c then o else none) ≡ (if c then name_text lits o else none)
name_text-if lits true o = refl
name_text-if lits false o = refl

module _ (names : Bytes → Bytes) (a : ℕ) (named : NamesAddress names (bin32 a)) (lits : TextMap)
    (t : Trie) (grown : Grown t) (low : height t ≤ 32) (b : ℕ)
    (same : take 4 (bin32 a) ≡ take 4 (bin32 b))
    (leads : starts (prefix_of t) (bin32 b) ≡ true) where
  full : length (bin32 a) ≡ 32
  unfolding bin32
  full = length-bin_from 32 a

  binary : IsBits (bin32 a)
  unfolding bin32
  binary = IsBits-bin_from 32 a

  -- The statements for the trie return what the whole address leads to.
  run-decode_trie : run_stmts names (decode_trie t lits) ≡ found lits t (bin32 a)
  unfolding decode_trie run_stmts
  run-decode_trie =
      let p = prefix_of t in
      let x = Grown-Extracts t grown in
      let inner =
        run-build_ifs names (bin32 a) named full binary lits 33 (length p) (inner_of t) x.split
          x.grown (omega (arith, x.shorter)) (omega (arith, x.shorter)) in
      let whole = ap (name_text lits) (find-extract_prefix t (bin32 a) binary) in
      elim (Bool-cases (leb (length p) 4)) [
        | inl y ↦
            let s = short_prefix p (bin32 a) (bin32 b) 4 same (ground arith) ∙ leads in
            rw y (inner ∙ sym (whole ∙ rw s))
        | inr n ↦
            let s = long_prefix p (bin32 a) (bin32 b) 4 same leads (ground arith) in
            let room : length (drop 4 p) ≤ 28 = omega (arith, x.shorter, length-drop 4 p) in
            let more : 0 < length (drop 4 p) = ground (arith, length-drop 4 p) in
            let test =
              holds-build_cond names (bin32 a) named full 27 (drop 4 p) (omega arith) more room in
            rw n (
              or_else-none _
              ∙ ap₂ (λ c o. if c then o else none) (test ∙ sym s) inner
              ∙ sym (whole ∙ name_text-if lits (starts p (bin32 a)) _))
      ]

prefixes-IsBits :
    (m : TextMap) (ds : List BusDevice)
    → All (λ d. prefix_in m d ≡ device_prefix d) ds
    → All IsPlaced ds
    → All (λ d. IsBits (prefix_in m d)) ds
prefixes-IsBits m [] e h = tt
prefixes-IsBits m (d ∷ ds) (e, es) (p, h) =
    (subst IsBits (sym e) (IsBits-device_prefix d p d.base_addr p.word), prefixes-IsBits m ds es h)

prefixes_length :
    (m : TextMap) (ds : List BusDevice)
    → All (λ d. prefix_in m d ≡ device_prefix d) ds
    → All IsPlaced ds
    → All (λ d. length (prefix_in m d) ≤ 32) ds
prefixes_length m [] e h = tt
prefixes_length m (d ∷ ds) (e, es) (p, h) = (
  subst (λ s. length s ≤ 32) (sym e) (length-device_prefix d p d.base_addr p.word),
  prefixes_length m ds es h,
)

all-device_fits : (ds : List BusDevice) → All IsPlaced ds → all device_fits ds ≡ true
all-device_fits [] h = refl
all-device_fits (d ∷ ds) (p, h) = ground (arith, all-device_fits ds h, p.fits)

device_at-first : (d : BusDevice) (ds : List BusDevice) → device_at (d ∷ ds) d.base_addr ≡ some d
device_at-first d ds =
    let w = shr-Between 0 (d.left_addr_bit + 1) in
    let size : 0 < 2 ^ (d.left_addr_bit + 1) = omega (arith, w.low, w.high) in ground (arith, size)

starts-found :
    (t : Trie) (bits : Bytes) (d : BusDevice)
    → IsBits bits
    → find t bits ≡ some d
    → starts (prefix_of t) bits ≡ true
starts-found t bits d h e = elim (Bool-cases (starts (prefix_of t) bits)) [
  | inl y ↦ y
  | inr n ↦
      let nothing : find t bits ≡ none = find-extract_prefix t bits h ∙ rw n in cc (e, nothing)
]

IsBits-bin32 : (v : ℕ) → IsBits (bin32 v)
unfolding bin32
IsBits-bin32 v = IsBits-bin_from 32 v

module _ (d : BusDevice) (ds : List BusDevice) (layout : IsLayout (d ∷ ds)) where
  -- The trie of a layout leads an address to the device in whose range it lies.
  abbrev exact_trie : Trie
  exact_trie = insert_all (exact_prefixes (d ∷ ds) []) (d ∷ ds) new_trie

  exact_trie-IsDecoder :
      (bits : Bytes) → IsBits bits → IsDecoder (exact_prefixes (d ∷ ds) []) (d ∷ ds) bits
  exact_trie-IsDecoder bits binary =
      let m = exact_prefixes (d ∷ ds) [] in
      let eqs = exact_prefixes-lem (d ∷ ds) [] layout.named in
      insertions-IsDecoder m d ds bits binary (prefixes-IsBits m (d ∷ ds) eqs layout.placed)
        (prefixes_length m (d ∷ ds) eqs layout.placed)
        (all_apart-cong (prefix_in m) device_prefix (d ∷ ds) eqs
          ∙ all_apart-device_prefix (d ∷ ds) layout.placed layout.separate)

  find-exact_trie : (a : ℕ) → a < 2 ^ 32 → find exact_trie (bin32 a) ≡ device_at (d ∷ ds) a
  find-exact_trie a word =
      let m = exact_prefixes (d ∷ ds) [] in
      let eqs = exact_prefixes-lem (d ∷ ds) [] layout.named in
      (exact_trie-IsDecoder (bin32 a) (IsBits-bin32 a)).leads
      ∙ owner-cong (prefix_in m) device_prefix (d ∷ ds) (bin32 a) eqs
      ∙ owner-device_at (d ∷ ds) a word layout.placed

named_or_none :
    (lits : TextMap) (o : Option BusDevice)
    → or_else (name_text lits o) (some (lookup lits (codes "none"))) ≡ some (literal_of lits o)
named_or_none lits none = refl
named_or_none lits (some d) = refl

module _ (d : BusDevice) (ds : List BusDevice) (layout : IsLayout (d ∷ ds)) (names : Bytes → Bytes)
    (a : ℕ) (region : InRegion a) (named : NamesAddress names (bin32 a)) (lits : TextMap) where
  run-exact_trie :
      run_stmts names (decode_trie (exact_trie d ds layout) lits)
      ≡ name_text lits (device_at (d ∷ ds) a)
  run-exact_trie =
      let t = exact_trie d ds layout in
      let b = d.base_addr in
      let bits = IsBits-bin32 b in
      let x = exact_trie-IsDecoder d ds layout (bin32 b) bits in
      let first = find-exact_trie d ds layout b layout.placed.0.word ∙ device_at-first d ds in
      let same = take-bin32_region a region ∙ sym (take-bin32_region b layout.region.0) in
      run-decode_trie names a named lits t x.grown x.low b same
        (starts-found t (bin32 b) d bits first)
      ∙ ap (name_text lits) (find-exact_trie d ds layout a (omega (arith, region.1)))

  -- Run on an address of the device region, the statements for a layout in exact mode, which are there,
  -- return the literal of the device in whose range the address lies, and that of none where it lies
  -- in no range.
  pub decode_function-exact :
      (body : Stmts) × (decode_function (d ∷ ds) lits false ≡ some body)
      × (run_stmts names body ≡ some (literal_of lits (device_at (d ∷ ds) a)))
  unfolding decode_function device_prefixes run_stmts
  decode_function-exact =
      let devs = d ∷ ds in
      let t = exact_trie d ds layout in
      let inner = append (decode_trie t lits) (return_none lits) in
      (
        cons (comment (codes "Assumes addr(31 downto 28) = x\"a\"."))
            (cons (comment (codes "Address decoding closer to CPU checks those bits.")) inner),
        rw (all-device_fits devs layout.placed),
        run_stmts-append names (decode_trie t lits) (return_none lits)
            ∙ ap (λ o. or_else o (some (lookup lits (codes "none")))) run-exact_trie
            ∙ named_or_none lits (device_at devs a),
      )
