-- ===== src/Vhdl/Token.antt =====
-- tools/socgen/vhdl/token.go: `LookupKeyword` and what it calls.
pub mod Lookup
use jcore_soc.Base.{
  ℕ, ◌+◌, ◌-◌, Bytes, str_eq, Bool, true, false, ◌&&◌, ◌||◌, List, [], ◌∷◌, Option, none, some, leb,
  if◌then◌else◌,
}
use jcore_soc.Vhdl.Kind.{Kind, kind_str, keyword_kinds}

abbrev pub is_upper : ℕ → Bool
is_upper c = leb b'A' c && leb c b'Z'

unfoldable pub has_upper : Bytes → Bool
has_upper [] = false
has_upper (c ∷ s) = is_upper c || has_upper s

unfoldable pub lower_byte : ℕ → ℕ
lower_byte c = if is_upper c then c + (b'a' - b'A') else c

-- A Go string has bytes below 256, and none of the bytes that change passes that.
unfoldable pub lower : Bytes → Bytes
unfolding lower_byte
lower [] = []
lower (c ∷ s) = lower_byte c ∷ lower s

-- The map `keywords`: the texts of the keyword kinds are distinct, so the first hit is the entry.
unfoldable pub find_keyword : List Kind → Bytes → Option Kind
find_keyword [] s = none
find_keyword (k ∷ ks) s = if str_eq (kind_str k) s then some k else find_keyword ks s

abbrev pub keywords : Bytes → Option Kind
keywords = find_keyword keyword_kinds

unfoldable pub lookup_keyword : Bytes → Option Kind
lookup_keyword s = if has_upper s then keywords (lower s) else keywords s
