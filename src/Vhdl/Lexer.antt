-- ===== src/Vhdl/Lexer.antt =====
-- tools/socgen/vhdl/lexer.go. The lexer's source and offset are the bytes still to read and their
-- offset, `rest` = src[off:]; the line starts go to `file`, which the caller shares.
pub mod Scan
pub mod Advances
pub mod Spelling
pub mod Literals
pub mod Delimiters
pub mod Next
use jcore_soc.Base.{
  ℕ, zero, suc, ◌+◌, ◌-◌, ◌*◌, ◌/◌, ◌%◌, ◌^◌, ◌≤◌, ◌<◌, max, String, ◌≡◌, refl, sym, ap, subst, ◌∙◌,
  ◌≢◌, ◌↔◌, ◌⊎◌, inl, inr, Bool, true, false, not, ◌&&◌, ◌||◌, Option, none, some, List, [], ◌∷◌,
  ◌++◌, map, append_assoc, append-nil, arith, ltb, leb, ◌==◌, if◌then◌else◌, ==_iff, Bool-cases,
  Option-cases, &&-elim, is_some, length, get_elem?, get_or, take, drop, replicate, length-append,
  take-append, All, All-append, all, any, select, Bytes, codes, str_eq, str_eq_iff, str_eq_refl,
  str_lt, digits, itoa,
}
use jcore_soc.Vhdl.Kind.{
  Kind, illegal, eof, comment, ident, ext_ident, int_lit, real_lit, based_lit, char_lit, string_lit,
  bit_string_lit, lparen, rparen, lbracket, rbracket, comma, semicolon, colon, assign, arrow,
  less_eq, greater_eq, not_eq, less, greater, equal, plus, minus, star, slash, exp, amp, bar, dot,
  tick, box,
}
use jcore_soc.Vhdl.Token.{lookup_keyword}
use jcore_soc.Vhdl.Source.{File, pos, Token}
use jcore_soc.Vhdl.Lexer.Scan.{
  Lexer, peek, peek_at, advance, skip, advance_while, quoted, lexeme, optional, is_letter, is_digit,
  is_ident_cont, is_bit_string_base, is_blank, is_name_end, is_digit_cont, is_based_digit,
}

-- The literal of a byte: Go's string(c) of a byte is the UTF-8 text of the code point c.
unfoldable pub rune_text : ℕ → Bytes
rune_text c = if ltb c 128 then c ∷ [] else (192 + c / 64) ∷ (128 + c % 64) ∷ []

-- `emit` of the token of kind `k` that starts at `start` and has the text up to `l` for its literal.
abbrev pub emit_text : Kind → Lexer → Lexer → Token × Lexer
emit_text k start l = (
  record { kind = k; lit = lexeme start l; pos = pos start.file start.off },
  record l { prev_kind = k },
)

-- `emit` of a token with a given literal.
abbrev pub emit_lit : Kind → Bytes → Lexer → Lexer → Token × Lexer
emit_lit k lit start l =
    (record { kind = k; lit = lit; pos = pos start.file start.off }, record l { prev_kind = k })

abbrev pub emit_bare : Kind → Lexer → Lexer → Token × Lexer
emit_bare k start l = emit_lit k [] start l

unfoldable pub lex_comment : Lexer → Token × Lexer
lex_comment l = emit_text comment l (advance_while (λ c. not (c == b'\n')) l)

unfoldable pub lex_ext_ident : Lexer → Token × Lexer
lex_ext_ident l = emit_text ext_ident l (quoted b'\\' (skip l))

unfoldable pub lex_string : Lexer → Token × Lexer
lex_string l = emit_text string_lit l (quoted b'"' (skip l))

-- `len(lit) == 1 && isBitstringBase(lit[0])`
unfoldable pub is_base_letter : Bytes → Bool
is_base_letter (c ∷ []) = is_bit_string_base c
is_base_letter _ = false

abbrev pub word_kind : Option Kind → Kind
word_kind (some k) = k
word_kind none = ident

unfoldable pub lex_word : Lexer → Token × Lexer
unfolding is_base_letter
lex_word l =
    let e = advance_while is_ident_cont l in
    let lit = lexeme l e in
    if is_base_letter lit && peek e == b'"'
    then emit_text bit_string_lit l (quoted b'"' (skip e))
    else emit_text (word_kind (lookup_keyword lit)) l e

abbrev pub is_exp_mark : ℕ → Bool
is_exp_mark c = c == b'e' || c == b'E'

abbrev pub is_sign : ℕ → Bool
is_sign c = c == b'+' || c == b'-'

abbrev pub is_hash : ℕ → Bool
is_hash c = c == b'#'

-- The exponent: the mark, an optional sign, digits.
unfoldable pub exponent : Lexer → Lexer
exponent l = advance_while is_digit (optional is_sign (skip l))

abbrev pub optional_exponent : Lexer → Lexer
optional_exponent l = if is_exp_mark (peek l) then exponent l else l

unfoldable pub lex_number : Lexer → Token × Lexer
unfolding exponent
lex_number l =
    let e = advance_while is_digit_cont l in
    if peek e == b'#'
    then emit_text based_lit l
        (optional_exponent (optional is_hash (advance_while is_based_digit (skip e))))
    else if peek e == b'.' && is_digit (peek_at e 1)
    then emit_text real_lit l (optional_exponent (advance_while is_digit_cont (skip e)))
    else if is_exp_mark (peek e)
    then emit_text real_lit l (exponent e)
    else emit_text int_lit l e

-- The case of the single quote, with the quote consumed.
unfoldable pub lex_tick : Lexer → Lexer → Token × Lexer
unfolding rune_text
lex_tick start l =
    if is_name_end l.prev_kind
    then emit_bare tick start l
    else if peek_at l 1 == b'\''
    then (let (ch, l1) = advance l in
        emit_lit char_lit (b'\'' ∷ (rune_text ch ++ b'\'' ∷ [])) start (skip l1))
    else emit_bare tick start l

-- The cases of the switch that return one kind.
unfoldable pub single_kind : ℕ → Option Kind
single_kind c =
    if c == b'('
    then some lparen
    else if c == b')'
    then some rparen
    else if c == b'['
    then some lbracket
    else if c == b']'
    then some rbracket
    else if c == b','
    then some comma
    else if c == b';'
    then some semicolon
    else if c == b'+'
    then some plus
    else if c == b'-'
    then some minus
    else if c == b'&'
    then some amp
    else if c == b'|'
    then some bar
    else if c == b'.'
    then some dot
    else none

-- The kind of two bytes if the byte `second` follows, and of one byte if not.
pub record Munch : Type 0 where
  pub second : ℕ
  pub long : Kind
  pub short : Kind

-- The cases of the switch with one such test.
unfoldable pub munch_of : ℕ → Option Munch
munch_of c =
    if c == b':'
    then some (record { second = b'='; long = assign; short = colon })
    else if c == b'='
    then some (record { second = b'>'; long = arrow; short = equal })
    else if c == b'>'
    then some (record { second = b'='; long = greater_eq; short = greater })
    else if c == b'/'
    then some (record { second = b'='; long = not_eq; short = slash })
    else if c == b'*'
    then some (record { second = b'*'; long = exp; short = star })
    else none

unfoldable pub munch : Munch → Lexer → Lexer → Token × Lexer
munch m start l =
    if peek l == m.second then emit_bare m.long start (skip l) else emit_bare m.short start l

-- The case of `<`, with two tests.
unfoldable pub lex_less : Lexer → Lexer → Token × Lexer
lex_less start l =
    if peek l == b'='
    then emit_bare less_eq start (skip l)
    else if peek l == b'>'
    then emit_bare box start (skip l)
    else emit_bare less start l

-- The cases of more than one kind, and the default.
unfoldable pub lex_compound : Option Munch → ℕ → Lexer → Lexer → Token × Lexer
unfolding lex_tick lex_less munch rune_text
lex_compound (some m) c start l = munch m start l
lex_compound none c start l =
    if c == b'\''
    then lex_tick start l
    else if c == b'<'
    then lex_less start l
    else emit_lit illegal (rune_text c) start l

-- The switch over the first byte `c`, which is consumed.
unfoldable pub lex_delimiter : ℕ → Lexer → Lexer → Token × Lexer
unfolding single_kind munch_of lex_compound
lex_delimiter c start l = elim (single_kind c) [
  | some k ↦ emit_bare k start l
  | none ↦ lex_compound (munch_of c) c start l
]

-- `Next` behind the white space, at the byte `c`.
unfoldable pub lex_at : ℕ → Lexer → Token × Lexer
unfolding lex_comment lex_ext_ident lex_string lex_word lex_number lex_delimiter
lex_at c l =
    if c == b'-' && peek_at l 1 == b'-'
    then lex_comment l
    else if c == b'\\'
    then lex_ext_ident l
    else if c == b'"'
    then lex_string l
    else if is_letter c
    then lex_word l
    else if is_digit c
    then lex_number l
    else lex_delimiter c l (skip l)

-- `Next` with the white space skipped.
unfoldable pub lex_token : Bytes → Lexer → Token × Lexer
unfolding lex_at
lex_token [] l = emit_bare eof l l
lex_token (c ∷ _) l = lex_at c l

abbrev pub skip_blanks : Lexer → Lexer
skip_blanks l = advance_while is_blank l

unfoldable pub next : Lexer → Token × Lexer
unfolding lex_token
next l = let l0 = skip_blanks l in lex_token l0.rest l0
