-- ===== src/Tests/Vhdl.antt =====
-- A small VHDL text, lexed.
use jcore_soc.Base.{
  leb, ◌&&◌, if◌then◌else◌, ◌+◌, arith, ◌≡◌, refl, ◌↔◌, true, some, [], ◌∷◌, ◌++◌, Bytes, codes,
  str_eq,
}
use jcore_soc.Vhdl.Kind.{Kind, is_keyword, kind_str}
use jcore_soc.Vhdl.Source.{File, pos, position}
use jcore_soc.Vhdl.Source.{FileSet, new_file_set, add_file, find_file}
use jcore_soc.Vhdl.Source.Sets.{IsBelow, find_file-add_file}
use jcore_soc.Vhdl.Source.Lines.{position_lem}
use jcore_soc.Vhdl.Token.{lower, lookup_keyword, keywords}
use jcore_soc.Vhdl.Token.Lookup.{lookup_keyword_iff}
use jcore_soc.Vhdl.Lexer.{next}
use jcore_soc.Vhdl.Lexer.Scan.{Lexer, new_lexer}
use jcore_soc.Vhdl.Lexer.Next.{Reads, next-Reads}
use jcore_soc.Vhdl.TokenStream.{new_parser}
use jcore_soc.Vhdl.TokenStream.Tiles.{Tiles, new_parser-Tiles, lines-new_parser}

abbrev a_file : File
a_file = record { name = codes "a.vhd"; base = 1; size = 22; lines = 0 ∷ [] }

-- Two lines, with a comment, a keyword in capitals and a tick that is no character literal.
abbrev a_text : Bytes
a_text = codes "BEGIN -- x" ++ b'\n' ∷ codes "a'b <= '1';"

first_token : (next (new_lexer a_text a_file)).0.kind ≡ Kind.kw_begin
unfolding next jcore_soc.Vhdl.Lexer.Scan.while_from jcore_soc.Vhdl.Lexer.Scan.is_letter
    jcore_soc.Vhdl.Lexer.Scan.lexeme jcore_soc.Vhdl.Lexer.Scan.is_ident_cont
    jcore_soc.Vhdl.Lexer.Scan.consume lookup_keyword jcore_soc.Vhdl.Token.has_upper
    jcore_soc.Vhdl.Token.find_keyword str_eq kind_str lower
first_token = refl

next-Reads_example :
    Reads
      (new_lexer a_text a_file)
      (next (new_lexer a_text a_file)).0
      (next (new_lexer a_text a_file)).1
next-Reads_example = next-Reads (new_lexer a_text a_file)

new_parser-Tiles_example : Tiles 1 a_text (new_parser a_text a_file).toks
new_parser-Tiles_example = new_parser-Tiles a_text a_file

lines-new_parser_example : (new_parser a_text a_file).file ≡ record a_file { lines = 0 ∷ 11 ∷ [] }
lines-new_parser_example = lines-new_parser a_text a_file

-- The file as the lexer leaves it.
abbrev read_file : File
read_file = record a_file { lines = 0 ∷ 11 ∷ [] }

position_lem_example :
    position read_file (pos read_file 15)
    ≡ record { filename = codes "a.vhd"; offset = 15; line = 2; column = 5 }
position_lem_example = position_lem read_file a_text 15 refl (omega arith)

lookup_keyword_iff_example :
    (lookup_keyword (codes "BeGin") ≡ some Kind.kw_begin)
    ↔ ((is_keyword Kind.kw_begin ≡ true) × (lower (codes "BeGin") ≡ kind_str Kind.kw_begin))
lookup_keyword_iff_example = lookup_keyword_iff (codes "BeGin") Kind.kw_begin

-- A set of one file, and a second one added.
abbrev one_file : FileSet
one_file = (add_file new_file_set (codes "a.vhd") 22).1

one_file-IsBelow : IsBelow one_file
unfolding add_file
one_file-IsBelow = (omega arith, tt)

find_file-add_file_example :
    (find_file (add_file one_file (codes "b.vhd") 5).1.files 25 ≡ (
      if leb one_file.base 25 && leb 25 (one_file.base + 5)
      then some (add_file one_file (codes "b.vhd") 5).0
      else find_file one_file.files 25))
    × IsBelow (add_file one_file (codes "b.vhd") 5).1
find_file-add_file_example = find_file-add_file one_file (codes "b.vhd") 5 25 one_file-IsBelow
