-- ===== src/Decode/Ifs.antt =====
-- The statements of `build_ifs` return what the trie leads to.
use mathlib.Core.Path.{ap₂}
use jcore_soc.Base.{
  ℕ, zero, suc, ◌+◌, ◌-◌, ◌≤◌, ◌<◌, ◌≡◌, refl, sym, ap, ◌∙◌, inl, inr, true, ◌&&◌, Option, none,
  some, [], ◌∷◌, ◌++◌, arith, ◌==◌, if◌then◌else◌, Bool-cases, &&-elim, length, take, drop,
  length-append, take-append, Bytes, codes, str_eq, str_eq_iff, itoa,
}
use jcore_soc.Vhdl.Ast.{Stmts}
use jcore_soc.Vhdl.Ast.Run.{unquoted, holds, or_else, run_stmts}
use jcore_soc.Decode.Radix.{BusDevice, Trie, absent, node, extract_prefix, without}
use jcore_soc.Decode.Find.{
  find, starts, IsBits, Grown, IsSplit, height, prefix_of, inner_of, find-extract_prefix, Extracts,
  Grown-Extracts,
}
use jcore_soc.Decode.{build_cond, build_ifs, sides_stmts, leaf_stmts, lookup, TextMap}

-- The texts of the name of one bit and of a slice of the address.
abbrev pub index_name : ℕ → Bytes
index_name i = codes "addr(" ++ itoa i ++ codes ")"

abbrev pub slice_name : ℕ → ℕ → Bytes
slice_name hi lo = codes "addr(" ++ itoa hi ++ codes " downto " ++ itoa lo ++ codes ")"

-- What VHDL says of the names: in an address of the bits `bits`, bit 31 first, `addr(i)` is one bit
-- and `addr(hi downto lo)` the bits from `hi` down to `lo`.
pub record NamesAddress (names : Bytes → Bytes) (bits : Bytes) : Type 0 where
  pub index : (i : ℕ) → i ≤ 31 → names (index_name i) ≡ take 1 (drop (31 - i) bits)
  pub slice :
      (hi lo : ℕ)
      → lo ≤ hi
      → hi ≤ 31
      → names (slice_name hi lo) ≡ take (hi + 1 - lo) (drop (31 - hi) bits)

pub str_eq-take : (p s : Bytes) → length p ≤ length s → str_eq (take (length p) s) p ≡ starts p s
unfolding str_eq
str_eq-take [] s h = refl
str_eq-take (x ∷ p) [] h = absurd (omega arith)
str_eq-take (x ∷ p) (y ∷ s) h = ground (arith, str_eq-take p s)

unquoted-quote : (q : ℕ) (p : Bytes) → unquoted (q ∷ (p ++ q ∷ [])) ≡ p
unquoted-quote q p =
    ap (λ n. take n (p ++ q ∷ [])) {x = length (p ++ q ∷ []) - 1} {y = length p}
      (omega (arith, length-append p (q ∷ [])))
    ∙ take-append p (q ∷ [])

drop-nil : (n : ℕ) → drop {A = ℕ} n [] ≡ []
drop-nil zero = refl
drop-nil (suc n) = refl

pub drop-drop : (m n : ℕ) (s : Bytes) → drop n (drop m s) ≡ drop (m + n) s
drop-drop zero n s = ap (λ k. drop k s) {x = n} {y = 0 + n} (omega arith)
drop-drop (suc m) n [] = drop-nil n ∙ sym (drop-nil (suc m + n))
drop-drop (suc m) n (x ∷ s) =
    drop-drop m n s ∙ ap (λ k. drop k (x ∷ s)) {x = suc (m + n)} {y = suc m + n} (omega arith)

pub length-drop : (n : ℕ) (s : Bytes) → length (drop n s) ≡ length s - n
length-drop zero s = omega arith
length-drop (suc n) [] = omega arith
length-drop (suc n) (x ∷ s) = omega (arith, length-drop n s)

pub IsBits-drop : (n : ℕ) (s : Bytes) → IsBits s → IsBits (drop n s)
IsBits-drop zero s h = h
IsBits-drop (suc n) [] h = tt
IsBits-drop (suc n) (x ∷ s) h = IsBits-drop n s h.1

module _ (names : Bytes → Bytes) (bits : Bytes) (named : NamesAddress names bits)
    (full : length bits ≡ 32) where
  -- A condition tests whether the address goes on with the expected bits.
  pub holds-build_cond :
      (index : ℕ) (p : Bytes)
      → index ≤ 31
      → 0 < length p
      → length p ≤ index + 1
      → holds names (build_cond index p) ≡ starts p (drop (31 - index) bits)
  unfolding build_cond
  holds-build_cond index [] le pos fits = absurd (omega arith)
  holds-build_cond index (b ∷ []) le pos fits =
      ap (λ s. str_eq s (b ∷ [])) (named.index index le)
      ∙ str_eq-take (b ∷ []) (drop (31 - index) bits) (omega (arith, length-drop (31 - index) bits))
  holds-build_cond index (b ∷ c ∷ p) le pos fits =
      let q : Bytes = b ∷ c ∷ p in
      ap₂ (λ s t. str_eq s t)
        (named.slice index (index + 1 - length q) (omega arith) le
          ∙ ap (λ n. take n (drop (31 - index) bits)) {x = index + 1 - (index + 1 - length q)}
              {y = length q} (omega arith))
        (unquoted-quote b'"' q)
      ∙ str_eq-take q (drop (31 - index) bits) (omega (arith, length-drop (31 - index) bits))

-- The branching on the first bit: behind it the bits have to go on with `p`, or with `q`.
abbrev by_first_bit : Bytes → Bytes → Option Bytes → Option Bytes → Bytes → Option Bytes
by_first_bit p q l r [] = none
by_first_bit p q l r (b ∷ s) =
    if b == b'0'
    then (if starts p s then l else none)
    else if b == b'1'
    then (if starts q s then r else none)
    else none

-- The `if` for the two sides of a branching: the bits go on with `0 ∷ p` or with `1 ∷ q`.
sides-elsif :
    (p q : Bytes) (l r : Option Bytes) (s : Bytes)
    → (if starts (b'0' ∷ p) s then l else if starts (b'1' ∷ q) s then r else none)
      ≡ by_first_bit p q l r s
sides-elsif p q l r [] = refl
sides-elsif p q l r (b ∷ s) = ground arith

sides-else :
    (p q : Bytes) (l r : Option Bytes) (s : Bytes)
    → p ≡ []
    → q ≡ []
    → 0 < length s
    → IsBits s
    → (if starts (b'0' ∷ p) s then l else r) ≡ by_first_bit p q l r s
sides-else p q l r [] ep eq h bits = absurd (omega arith)
sides-else p q l r (b ∷ s) ep eq h (b_bit, _) = ground (arith, b_bit)

-- The test of `build_ifs`: nothing follows the one bit of a side.
one_bit : (c : ℕ) (p : Bytes) → str_eq (c ∷ p) (c ∷ []) ≡ true → p ≡ []
one_bit c p h = cc ((str_eq_iff (c ∷ p) (c ∷ [])).0 h)

abbrev pub name_text : TextMap → Option BusDevice → Option Bytes
name_text lits none = none
name_text lits (some d) = some (lookup lits d.name)

abbrev pub found : TextMap → Trie → Bytes → Option Bytes
found lits t s = name_text lits (find t s)

-- The node of two children by the first bit, and each child by its prefix.
found-sides :
    (lits : TextMap) (z o : Trie) (s : Bytes)
    → IsBits s
    → found lits (node none z o) s
      ≡ by_first_bit
          (prefix_of z)
          (prefix_of o)
          (found lits (inner_of z) (drop (suc (length (prefix_of z))) s))
          (found lits (inner_of o) (drop (suc (length (prefix_of o))) s))
          s
found-sides lits z o [] h = refl
found-sides lits z o (b ∷ s) h =
    ground (arith, h.0, find-extract_prefix z s h.1, find-extract_prefix o s h.1)

pub or_else-none : (o : Option Bytes) → or_else o none ≡ o
or_else-none none = refl
or_else-none (some v) = refl

module _ (names : Bytes → Bytes) (bits : Bytes) (named : NamesAddress names bits)
    (full : length bits ≡ 32) (binary : IsBits bits) (lits : TextMap) where
  -- The test of one side, at the index that `build_ifs` computes from the offset.
  test_at :
      (offset : ℕ) (p : Bytes)
      → 0 < length p
      → offset + length p ≤ 32
      → holds names (build_cond (31 - offset) p) ≡ starts p (drop offset bits)
  test_at offset p pos fits =
      holds-build_cond names bits named full (31 - offset) p (omega arith) pos (omega arith)
      ∙ ap (λ n. starts p (drop n bits)) {x = 31 - (31 - offset)} {y = offset} (omega arith)

  module _ (offset : ℕ) (z o : Trie) (l r : Stmts) where
    -- Both forms of the statement for two children, whose own statements are right.
    run-sides_stmts :
        offset + suc (height z) ≤ 32
        → offset + suc (height o) ≤ 32
        → Extracts z
        → Extracts o
        → run_stmts names l
          ≡ found lits (inner_of z) (drop (offset + suc (length (prefix_of z))) bits)
        → run_stmts names r
          ≡ found lits (inner_of o) (drop (offset + suc (length (prefix_of o))) bits)
        → run_stmts names (sides_stmts (31 - offset) (b'0' ∷ prefix_of z) (b'1' ∷ prefix_of o) l r)
          ≡ found lits (node none z o) (drop offset bits)
    unfolding sides_stmts run_stmts
    run-sides_stmts hz ho ez eo il ir =
        let p = prefix_of z in
        let q = prefix_of o in
        let s = drop offset bits in
        let left =
          il ∙ ap (found lits (inner_of z)) (sym (drop-drop offset (suc (length p)) bits)) in
        let right =
          ir ∙ ap (found lits (inner_of o)) (sym (drop-drop offset (suc (length q)) bits)) in
        let t0 = test_at offset (b'0' ∷ p) (omega arith) (omega (arith, ez.shorter)) in
        let t1 = test_at offset (b'1' ∷ q) (omega arith) (omega (arith, eo.shorter)) in
        let goal = found-sides lits z o s (IsBits-drop offset bits binary) in
        elim (Bool-cases (str_eq (b'0' ∷ p) (codes "0") && str_eq (b'1' ∷ q) (codes "1"))) [
          | inl y ↦ rw y (
              or_else-none _
              ∙ rw (t0, left, right)
                  (sides-else p q _ _ s (one_bit b'0' p (&&-elim _ _ y).0)
                    (one_bit b'1' q (&&-elim _ _ y).1) (omega (arith, length-drop offset bits))
                    (IsBits-drop offset bits binary))
              ∙ sym goal)
          | inr n ↦
              rw n (or_else-none _ ∙ rw (t0, t1, left, right) (sides-elsif p q _ _ s) ∙ sym goal)
        ]

  leaf_run : (d : BusDevice) → run_stmts names (leaf_stmts d lits) ≡ some (lookup lits d.name)
  unfolding leaf_stmts run_stmts
  leaf_run d = refl

  -- Where the trie branches first, all its paths end in leaves, and the fuel and the bits left cover its
  -- height, the statements return the text of the device that the bits from the offset on lead to, or
  -- end without a return where they lead to none.
  pub run-build_ifs :
      (fuel offset : ℕ) (t : Trie)
      → IsSplit t
      → Grown t
      → height t < fuel
      → offset + height t ≤ 32
      → run_stmts names (build_ifs fuel offset t lits) ≡ found lits t (drop offset bits)
  unfolding build_ifs extract_prefix without
  run-build_ifs zero offset t split grown fuelled fits = absurd (omega arith)
  run-build_ifs (suc fuel) offset absent split grown fuelled fits = absurd split
  run-build_ifs (suc fuel) offset (node (some d) z o) split grown fuelled fits = leaf_run d
  run-build_ifs (suc fuel) offset (node none (node d z o) (node e u v)) split (gz, go) fuelled
        fits =
      let a = node d z o in
      let b = node e u v in
      let ea = Grown-Extracts a gz in
      let eb = Grown-Extracts b go in
      run-sides_stmts offset a b _ _ (omega arith) (omega arith) ea eb
        (run-build_ifs fuel (offset + suc (length (prefix_of a))) (inner_of a) ea.split ea.grown
          (omega (arith, ea.shorter)) (omega (arith, ea.shorter)))
        (run-build_ifs fuel (offset + suc (length (prefix_of b))) (inner_of b) eb.split eb.grown
          (omega (arith, eb.shorter)) (omega (arith, eb.shorter)))
  run-build_ifs (suc fuel) offset _ split grown fuelled fits = absurd split
