-- ===== src/Vhdl/Source.antt =====
-- tools/socgen/vhdl/token.go: `Pos`, `Position`, `File`, `FileSet` and `Token`. A `Pos` is a number.
-- A set holds its files as values: the line starts that a lexer adds through a pointer to a file are
-- in the value that the lexer threads, and not in the set.
pub mod Lines
pub mod Sets
use jcore_soc.Base.{
  ℕ, zero, suc, ◌+◌, ◌-◌, ◌*◌, ◌/◌, ◌%◌, ◌^◌, ◌≤◌, ◌<◌, max, String, ◌≡◌, refl, sym, ap, subst, ◌∙◌,
  ◌≢◌, ◌↔◌, ◌⊎◌, inl, inr, Bool, true, false, not, ◌&&◌, ◌||◌, Option, none, some, List, [], ◌∷◌,
  ◌++◌, map, append_assoc, append-nil, arith, ltb, leb, ◌==◌, if◌then◌else◌, ==_iff, Bool-cases,
  Option-cases, &&-elim, is_some, length, get_elem?, get_or, take, drop, replicate, length-append,
  take-append, All, All-append, all, any, select, Bytes, codes, str_eq, str_eq_iff, str_eq_refl,
  str_lt, digits, itoa,
}
use jcore_soc.Vhdl.Kind.{Kind}

pub record Position : Type 0 where
  pub filename : Bytes
  pub offset : ℕ
  pub line : ℕ
  pub column : ℕ

pub record File : Type 0 where
  pub name : Bytes
  pub base : ℕ
  pub size : ℕ
  pub lines : List ℕ

unfoldable pub add_line : File → ℕ → File
add_line f offset = record f { lines = f.lines ++ offset ∷ [] }

abbrev pub pos : File → ℕ → ℕ
pos f offset = f.base + offset

-- One round of `sort.Search`: the bounds `i` and `j` close in on the first index that passes.
-- The fuel is the distance between them; each round halves it.
unfoldable pub search_from : ℕ → (ℕ → Bool) → ℕ → ℕ → ℕ
search_from zero p i j = i
search_from (suc fuel) p i j =
    let h = (i + j) / 2 in
    let upper = search_from fuel p (h + 1) j in
    let lower = search_from fuel p i h in
    elim (ltb i j) [ true ↦ elim (p h) [ true ↦ lower | false ↦ upper ] | false ↦ i ]

-- `sort.Search(n, p)` of the standard library.
unfoldable pub sort_search : ℕ → (ℕ → Bool) → ℕ
unfolding search_from
sort_search n p = search_from (n + 1) p 0 n

-- The test of `Position`: the line at index `i` starts behind `off`.
abbrev pub starts_behind : File → ℕ → ℕ → Bool
starts_behind f off i = ltb off (get_or f.lines i 0)

-- `Position` of a file. The subtraction is of a position in the file, at least its base; an index
-- below 0 becomes 0, which is what the truncated subtraction gives.
unfoldable pub position : File → ℕ → Position
unfolding sort_search
position f p =
    let off = p - f.base in
    let i = sort_search (length f.lines) (starts_behind f off) - 1 in
    record { filename = f.name; offset = off; line = i + 1; column = off - get_or f.lines i 0 + 1 }

pub record FileSet : Type 0 where
  pub base : ℕ
  pub files : List File

abbrev pub new_file_set : FileSet
new_file_set = record { base = 1; files = [] }

unfoldable pub add_file : FileSet → Bytes → ℕ → File × FileSet
add_file s name size =
    let f : File = record { name = name; base = s.base; size = size; lines = 0 ∷ [] } in
    (f, record { base = s.base + size + 1; files = s.files ++ f ∷ [] })

abbrev pub no_position : Position
no_position = record { filename = []; offset = 0; line = 0; column = 0 }

unfoldable pub find_file : List File → ℕ → Option File
find_file [] p = none
find_file (f ∷ fs) p = if leb f.base p && leb p (f.base + f.size) then some f else find_file fs p

unfoldable pub set_position : FileSet → ℕ → Position
unfolding find_file
set_position s p = elim (find_file s.files p) [ none ↦ no_position | some f ↦ position f p ]

pub record Token : Type 0 where
  pub kind : Kind
  pub lit : Bytes
  pub pos : ℕ
