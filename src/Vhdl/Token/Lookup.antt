-- ===== src/Vhdl/Token/Lookup.antt =====
-- `LookupKeyword` finds the keyword kinds by their texts, whatever the case.
use jcore_soc.Base.{
  Bytes, str_eq, str_eq_iff, true, false, List, [], ◌∷◌, some, ◌≡◌, refl, inl, inr, all, &&-elim,
  ap, sym, ◌∙◌, ◌↔◌, arith, Bool-cases,
}
use jcore_soc.Vhdl.Kind.{Kind, kind_str, keyword_kinds, is_keyword}
use jcore_soc.Vhdl.Token.{has_upper, lower, find_keyword, keywords, lookup_keyword}

lower-unchanged : (s : Bytes) → has_upper s ≡ false → lower s ≡ s
unfolding has_upper lower
lower-unchanged [] h = refl
lower-unchanged (c ∷ s) h = ground (arith, lower-unchanged s)

-- The fast path for lower-case text gives what the general path gives.
lookup_keyword-lower : (s : Bytes) → lookup_keyword s ≡ keywords (lower s)
unfolding lookup_keyword
lookup_keyword-lower s = elim (Bool-cases (has_upper s)) [
  | inl h ↦ rw h
  | inr h ↦ rw h (ap keywords (sym (lower-unchanged s h)))
]

find_keyword_sound :
    (ks : List Kind) (s : Bytes) (k : Kind) → find_keyword ks s ≡ some k → kind_str k ≡ s
unfolding find_keyword
find_keyword_sound [] s k h = cc
find_keyword_sound (j ∷ ks) s k h =
    ground (arith, find_keyword_sound ks s k, str_eq_iff (kind_str j) s)

find_keyword-is_keyword :
    (ks : List Kind) (s : Bytes) (k : Kind)
    → find_keyword ks s ≡ some k
    → (is_all : all is_keyword ks ≡ true) → is_keyword k ≡ true
unfolding find_keyword
find_keyword-is_keyword [] s k h a = cc
find_keyword-is_keyword (j ∷ ks) s k h a =
    let both = &&-elim (is_keyword j) (all is_keyword ks) a in
    elim (Bool-cases (str_eq (kind_str j) s)) [
      | inl e ↦ cc (rw e at h, both.0)
      | inr e ↦ find_keyword-is_keyword ks s k (rw e at h) both.1
    ]

keyword_kinds-is_keyword : all is_keyword keyword_kinds ≡ true
unfolding is_keyword
keyword_kinds-is_keyword = refl

keywords-kind_str : (k : Kind) → is_keyword k ≡ true → keywords (kind_str k) ≡ some k
unfolding is_keyword find_keyword kind_str str_eq
keywords-kind_str Kind.illegal h = cc
keywords-kind_str Kind.eof h = cc
keywords-kind_str Kind.comment h = cc
keywords-kind_str Kind.ident h = cc
keywords-kind_str Kind.ext_ident h = cc
keywords-kind_str Kind.int_lit h = cc
keywords-kind_str Kind.real_lit h = cc
keywords-kind_str Kind.based_lit h = cc
keywords-kind_str Kind.char_lit h = cc
keywords-kind_str Kind.string_lit h = cc
keywords-kind_str Kind.bit_string_lit h = cc
keywords-kind_str Kind.lparen h = cc
keywords-kind_str Kind.rparen h = cc
keywords-kind_str Kind.lbracket h = cc
keywords-kind_str Kind.rbracket h = cc
keywords-kind_str Kind.comma h = cc
keywords-kind_str Kind.semicolon h = cc
keywords-kind_str Kind.colon h = cc
keywords-kind_str Kind.assign h = cc
keywords-kind_str Kind.arrow h = cc
keywords-kind_str Kind.less_eq h = cc
keywords-kind_str Kind.greater_eq h = cc
keywords-kind_str Kind.not_eq h = cc
keywords-kind_str Kind.less h = cc
keywords-kind_str Kind.greater h = cc
keywords-kind_str Kind.equal h = cc
keywords-kind_str Kind.plus h = cc
keywords-kind_str Kind.minus h = cc
keywords-kind_str Kind.star h = cc
keywords-kind_str Kind.slash h = cc
keywords-kind_str Kind.exp h = cc
keywords-kind_str Kind.amp h = cc
keywords-kind_str Kind.bar h = cc
keywords-kind_str Kind.dot h = cc
keywords-kind_str Kind.tick h = cc
keywords-kind_str Kind.box h = cc
keywords-kind_str _ h = refl

-- A text is found exactly when its lower-case form is the text of a keyword kind.
pub lookup_keyword_iff :
    (s : Bytes) (k : Kind)
    → (lookup_keyword s ≡ some k) ↔ ((is_keyword k ≡ true) × (lower s ≡ kind_str k))
lookup_keyword_iff s k = (
  λ h.
      let found : keywords (lower s) ≡ some k = sym (lookup_keyword-lower s) ∙ h in
      (
        find_keyword-is_keyword keyword_kinds (lower s) k found keyword_kinds-is_keyword,
        sym (find_keyword_sound keyword_kinds (lower s) k found),
      ),
  λ h. lookup_keyword-lower s ∙ ap keywords h.1 ∙ keywords-kind_str k h.0,
)
