-- ===== src/Vhdl/Parser/Text.antt =====
-- tools/socgen/vhdl/parser.go: the parser that `newParser` starts on a source text.
use jcore_soc.Base.{ℕ, ◌≡◌, refl, ap, ◌∙◌, true, List, [], ◌∷◌, ◌++◌, all, Bytes}
use jcore_soc.Vhdl.Source.{File, Token}
use jcore_soc.Vhdl.Ast.{Expr}
use jcore_soc.Vhdl.TokenStream.{new_parser}
use jcore_soc.Vhdl.TokenStream.Tiles.{Tiles, ends, drops, takes, new_parser-Tiles}
use jcore_soc.Vhdl.Parser.{State, start}
use jcore_soc.Vhdl.Parser.Steps.{Ends, IsEnded, Steps-IsEnded, is_message}
use jcore_soc.Vhdl.Parser.Expr.{parse_expr}
use jcore_soc.Vhdl.Parser.Expr.Total.{parse_expr_reports, parse_expr-Steps}

-- `newParserFromExpr(src).parseExpr()`.
abbrev pub parse_text : Bytes → File → Expr × State
parse_text src f = parse_expr (start (new_parser src f).toks)

abbrev IsClosed : List Token → Type 0
IsClosed [] = ⊥
IsClosed (t ∷ ts) = Ends t ts

IsClosed-cons : (t : Token) (ts : List Token) → IsClosed ts → Ends t ts
unfolding Ends
IsClosed-cons t [] h = absurd h
IsClosed-cons t (u ∷ us) h = h

Tiles-IsClosed : {p : ℕ} {s : Bytes} {ts : List Token} → Tiles p s ts → IsClosed ts
unfolding Ends
Tiles-IsClosed (ends b e q) = e
Tiles-IsClosed (drops t b x r e bl c s d) = Tiles-IsClosed d
Tiles-IsClosed (takes {t = t} {ts} b x r e bl c n s q d) = IsClosed-cons t ts (Tiles-IsClosed d)

start-IsEnded' : (ts : List Token) → IsClosed ts → IsEnded (start ts)
unfolding start
start-IsEnded' [] h = absurd h
start-IsEnded' (t ∷ ts) h = h

-- The parser that is started on a source has EOF at the end of its tokens.
pub start-IsEnded : (src : Bytes) (f : File) → IsEnded (start (new_parser src f).toks)
start-IsEnded src f = start-IsEnded' _ (Tiles-IsClosed (new_parser-Tiles src f))

pub errs-start : (ts : List Token) → (start ts).errs ≡ []
unfolding start
errs-start [] = refl
errs-start (t ∷ ts) = refl

-- On any source text, the parser of expressions that is started on the tokens of the text ends with
-- messages of the source alone, and so with no loop cut short, and EOF is still at the end of its
-- tokens.
pub parse_text_reports :
    (src : Bytes) (f : File)
    → (all is_message (parse_text src f).1.errs ≡ true) × IsEnded (parse_text src f).1
parse_text_reports src f =
    let s : State = start (new_parser src f).toks in
    let h : IsEnded s = start-IsEnded src f in
    let (new, e, m) = parse_expr_reports s h in
    (
      ap (all is_message) (e ∙ ap (λ es. es ++ new) (errs-start (new_parser src f).toks)) ∙ m,
      Steps-IsEnded h (parse_expr-Steps s h),
    )
