-- ===== src/Vhdl/Lexer/Scan.antt =====
-- tools/socgen/vhdl/lexer.go: the lexer's state, its character classes, and the loops of `Next`,
-- each a function over the bytes still to read.
use jcore_soc.Base.{
  ℕ, ◌+◌, ◌-◌, Bool, true, false, ◌&&◌, ◌||◌, [], ◌∷◌, leb, ◌==◌, if◌then◌else◌, get_or, take,
  Bytes,
}
use jcore_soc.Vhdl.Kind.{Kind, illegal, ident, ext_ident, rparen, tick}
use jcore_soc.Vhdl.Source.{File, add_line}

pub record Lexer : Type 0 where
  pub rest : Bytes
  pub off : ℕ
  pub prev_kind : Kind
  pub file : File

-- Go's zero value of `Kind` is ILLEGAL.
abbrev pub new_lexer : Bytes → File → Lexer
new_lexer src f = record { rest = src; off = 0; prev_kind = illegal; file = f }

abbrev pub peek_at : Lexer → ℕ → ℕ
peek_at l n = get_or l.rest n 0

abbrev pub peek : Lexer → ℕ
peek l = peek_at l 0

-- Consumes the byte `c` and leaves `cs`.
unfoldable pub consume : ℕ → Bytes → Lexer → Lexer
unfolding add_line
consume c cs l =
    let off = l.off + 1 in
    record l { rest = cs; off = off; file = if c == b'\n' then add_line l.file off else l.file }

unfoldable pub advance_in : Bytes → Lexer → ℕ × Lexer
unfolding consume
advance_in [] l = (0, l)
advance_in (c ∷ cs) l = (c, consume c cs l)

abbrev pub advance : Lexer → ℕ × Lexer
advance l = advance_in l.rest l

-- `advance` for its effect.
abbrev pub skip : Lexer → Lexer
skip l = (advance l).1

abbrev within : ℕ → ℕ → ℕ → Bool
within lo hi c = leb lo c && leb c hi

unfoldable pub is_letter : ℕ → Bool
is_letter c = within b'a' b'z' c || within b'A' b'Z' c

unfoldable pub is_digit : ℕ → Bool
is_digit c = within b'0' b'9' c

unfoldable pub is_ident_cont : ℕ → Bool
unfolding is_letter is_digit
is_ident_cont c = is_letter c || is_digit c || c == b'_'

unfoldable pub is_bit_string_base : ℕ → Bool
is_bit_string_base c = c == b'b' || c == b'B' || c == b'o' || c == b'O' || c == b'x' || c == b'X'

unfoldable pub is_name_end : Kind → Bool
is_name_end ident = true
is_name_end ext_ident = true
is_name_end rparen = true
is_name_end tick = true
is_name_end _ = false

-- The classes that the loops of `Next` write out.
abbrev pub is_blank : ℕ → Bool
is_blank c = c == b' ' || c == b'\t' || c == b'\r' || c == b'\n'

abbrev pub is_digit_cont : ℕ → Bool
is_digit_cont c = is_digit c || c == b'_'

abbrev pub is_based_digit : ℕ → Bool
is_based_digit c = is_digit c || within b'a' b'f' c || within b'A' b'F' c || c == b'_'

-- `for l.off < len(l.src) && p(l.peek()) { l.advance() }`
unfoldable pub while_from : (ℕ → Bool) → Bytes → Lexer → Lexer
while_from p [] l = l
while_from p (c ∷ cs) l =
    let on = while_from p cs (consume c cs l) in elim (p c) [ true ↦ on | false ↦ l ]

abbrev pub advance_while : (ℕ → Bool) → Lexer → Lexer
advance_while p l = while_from p l.rest l

-- The loop of a text that ends with `q` and writes `q` itself twice.
unfoldable pub quoted_from : ℕ → Bytes → Lexer → Lexer
quoted_from q [] l = l
quoted_from q (c ∷ []) l = consume c [] l
quoted_from q (c ∷ d ∷ cs) l =
    let l1 = consume c (d ∷ cs) l in
    let escaped = quoted_from q cs (consume d cs l1) in
    let plain = quoted_from q (d ∷ cs) l1 in
    elim (c == q) [ true ↦ elim (d == q) [ true ↦ escaped | false ↦ l1 ] | false ↦ plain ]

abbrev pub quoted : ℕ → Lexer → Lexer
quoted q l = quoted_from q l.rest l

-- `if p(l.peek()) { l.advance() }`; the classes used never hold of the 0 that stands for the end.
abbrev pub optional : (ℕ → Bool) → Lexer → Lexer
optional p l = if p (peek l) then skip l else l

-- `string(l.src[start:l.off])` for the lexer `s` at the start.
unfoldable pub lexeme : Lexer → Lexer → Bytes
lexeme s l = take (l.off - s.off) s.rest
