-- ===== src/Tests/Parser.antt =====
-- Parsing VHDL expressions at concrete inputs.
use jcore_soc.Base.{
  ℕ, suc, ◌+◌, ◌<◌, String, ◌≡◌, refl, ap, ◌∙◌, ◌⊎◌, true, false, List, [], ◌∷◌, ◌++◌, arith,
  length, all, Bytes, codes, pos,
}
use jcore_soc.Vhdl.Kind.{Kind, is_eof, is_comment}
use jcore_soc.Vhdl.Kind.Code.{tier, primary_class, is_sign, is_abs_not, PrimaryClass}
use jcore_soc.Vhdl.Source.{Token, File}
use jcore_soc.Vhdl.Parser.Units.Total.{parse_source, parse_source_reports, parse_source_ends}
use jcore_soc.Vhdl.TokenStream.{new_parser, collect, push, max_iters}
use jcore_soc.Vhdl.Parser.{start}
use jcore_soc.Vhdl.Parser.Units.{parse_file}
use jcore_soc.Vhdl.TokenStream.{new_parser, collect, push, max_iters}
use jcore_soc.Vhdl.Lexer.Scan.{Lexer, new_lexer}
use jcore_soc.Vhdl.Lexer.{next}
use jcore_soc.Vhdl.Parser.{start}
use jcore_soc.Vhdl.Parser.Units.{parse_file}
use jcore_soc.Vhdl.Parser.Text.{parse_text, parse_text_reports}
use jcore_soc.Vhdl.Ast.{Expr}
use jcore_soc.Vhdl.Parser.{State, ParseError, unexpected, errorf, left, ensure_progress}
use jcore_soc.Vhdl.Parser.Steps.{
  IsEnded, Steps, here, Steps-tokens, ensure_progress-left, is_message,
}
use jcore_soc.Vhdl.Parser.Expr.{parse_expr}
use jcore_soc.Vhdl.Parser.Expr.Grammar
use jcore_soc.Vhdl.Parser.Expr.Grammar.{
  Level, Expression, Tier, Chain, Primary, Dots, Ticks, Call, level_tier,
}
use jcore_soc.Vhdl.Parser.Expr.Rules.{resume, binding}
use jcore_soc.Vhdl.Parser.Expr.Complete.{parse_expr-Expression}
use jcore_soc.Vhdl.Parser.Expr.Rejects.{parse_expr_unexpected}
use jcore_soc.Vhdl.Parser.Expr.Progress.{parse_expr_consumes}

abbrev token : Kind → String → ℕ → Token
token k text p = record { kind = k; lit = codes text; pos = p }

abbrev id_a : Token
id_a = token Kind.ident "a" 1

abbrev plus_sign : Token
plus_sign = token Kind.plus "" 3

abbrev id_b : Token
id_b = token Kind.ident "b" 5

abbrev end_token : Token
end_token = token Kind.eof "" 6

-- `a + b`, and the end of the file.
abbrev sum_tokens : List Token
sum_tokens = id_a ∷ plus_sign ∷ id_b ∷ end_token ∷ []

a_name : Tier Level.factor id_a [] (Expr.ident (codes "a"))
unfolding primary_class
a_name = Tier.primary (Primary.name refl Dots.done Ticks.done Call.no_call)

b_name : Tier Level.factor id_b [] (Expr.ident (codes "b"))
unfolding primary_class
b_name = Tier.primary (Primary.name refl Dots.done Ticks.done Call.no_call)

sum_phrase :
    Expression id_a
      (plus_sign ∷ id_b ∷ [])
      (Expr.binary_expr (Expr.ident (codes "a")) Kind.plus (Expr.ident (codes "b")))
unfolding level_tier tier jcore_soc.Vhdl.Parser.Expr.Grammar.tighter
sum_phrase = Expression.plain (
    Tier.chain Level.logical (omega arith)
      (Tier.chain Level.relation (omega arith)
        (Tier.chain Level.shift (omega arith)
          (Tier.chain Level.simple (omega arith)
            (Tier.chain Level.term (omega arith) a_name Chain.end_chain)
            (Chain.operator plus_sign refl
              (Tier.chain Level.term (omega arith) b_name Chain.end_chain) Chain.end_chain))
          Chain.end_chain)
        Chain.end_chain)
      Chain.end_chain)

parse_expr-Expression_example : parse_expr (resume [] sum_tokens) ≡ (
  Expr.binary_expr (Expr.ident (codes "a")) Kind.plus (Expr.ident (codes "b")),
  resume [] (end_token ∷ []),
)
unfolding binding
parse_expr-Expression_example =
    parse_expr-Expression id_a (plus_sign ∷ id_b ∷ []) _ [] (end_token ∷ []) sum_phrase
      (omega arith)

sum-IsEnded : IsEnded (resume [] sum_tokens)
unfolding jcore_soc.Vhdl.Parser.Steps.Ends
sum-IsEnded = refl

parse_expr_consumes_example :
    (used : List Token) × (new : List ParseError) × (sum_tokens
      ≡ used
        ++ (parse_expr (resume [] sum_tokens)).1.cur ∷ (parse_expr (resume [] sum_tokens)).1.rest)
    × ((parse_expr (resume [] sum_tokens)).1.errs ≡ [] ++ new)
    × ((0 < length used) ⊎ (0 < length new))
    × IsEnded (parse_expr (resume [] sum_tokens)).1
parse_expr_consumes_example = parse_expr_consumes (resume [] sum_tokens) sum-IsEnded

abbrev close_token : Token
close_token = token Kind.rparen "" 4

parse_expr_unexpected_example : parse_expr (resume [] (close_token ∷ end_token ∷ [])) ≡ (
  Expr.basic_lit Kind.rparen [],
  errorf (unexpected 4 Kind.rparen [] (codes "primary")) (resume [] (close_token ∷ end_token ∷ [])),
)
unfolding primary_class is_sign is_abs_not binding
parse_expr_unexpected_example =
    parse_expr_unexpected close_token (end_token ∷ []) [] refl refl refl refl

ensure_progress-left_example :
    (left (ensure_progress 3 (codes "list") (resume [] sum_tokens)) < 3)
    ⊎ (is_eof (ensure_progress 3 (codes "list") (resume [] sum_tokens)).cur.kind ≡ true)
ensure_progress-left_example =
    ensure_progress-left (resume [] sum_tokens) (resume [] sum_tokens) (codes "list") sum-IsEnded
      here

abbrev no_file : File
no_file = record { name = []; base = 1; size = 0; lines = 0 ∷ [] }

parse_text_reports_example :
    (all is_message (parse_text (codes "a + )") no_file).1.errs ≡ true)
    × IsEnded (parse_text (codes "a + )") no_file).1
parse_text_reports_example = parse_text_reports (codes "a + )") no_file

-- A clause and a declaration that ends too early.
abbrev short_source : Bytes
short_source = codes "library ieee; entity e is port ( end"

parse_source_reports_example :
    (all is_message (parse_source short_source no_file).1.errs ≡ true)
    × IsEnded (parse_source short_source no_file).1
parse_source_reports_example = parse_source_reports short_source no_file

abbrev whole_source : Bytes
whole_source = codes "use a;"

abbrev at_use : Lexer
at_use = new_lexer whole_source no_file

abbrev behind_use : Lexer
behind_use = record { rest = codes " a;"; off = 3; prev_kind = Kind.kw_use; file = no_file }

next-use : next at_use ≡ (token Kind.kw_use "use" 1, behind_use)
unfolding jcore_soc.Vhdl.Lexer.next jcore_soc.Vhdl.Lexer.Scan.consume
    jcore_soc.Vhdl.Lexer.Scan.is_ident_cont jcore_soc.Vhdl.Lexer.Scan.while_from
    jcore_soc.Vhdl.Lexer.Scan.lexeme jcore_soc.Vhdl.Token.has_upper
    jcore_soc.Vhdl.Token.find_keyword jcore_soc.Vhdl.Token.lookup_keyword
    jcore_soc.Vhdl.Kind.kind_str jcore_soc.Base.str_eq
next-use = refl

abbrev behind_name : Lexer
behind_name = record { rest = codes ";"; off = 5; prev_kind = Kind.ident; file = no_file }

next-name : next behind_use ≡ (token Kind.ident "a" 5, behind_name)
unfolding jcore_soc.Vhdl.Lexer.next jcore_soc.Vhdl.Lexer.Scan.consume
    jcore_soc.Vhdl.Lexer.Scan.is_ident_cont jcore_soc.Vhdl.Lexer.Scan.is_bit_string_base
    jcore_soc.Vhdl.Lexer.Scan.while_from jcore_soc.Vhdl.Lexer.Scan.lexeme
    jcore_soc.Vhdl.Token.has_upper jcore_soc.Vhdl.Token.find_keyword
    jcore_soc.Vhdl.Token.lookup_keyword jcore_soc.Vhdl.Kind.kind_str jcore_soc.Base.str_eq
next-name = refl

abbrev behind_semicolon : Lexer
behind_semicolon = record { rest = codes ""; off = 6; prev_kind = Kind.semicolon; file = no_file }

next-semicolon : next behind_name ≡ (token Kind.semicolon "" 6, behind_semicolon)
unfolding jcore_soc.Vhdl.Lexer.next jcore_soc.Vhdl.Lexer.Scan.advance_in
    jcore_soc.Vhdl.Lexer.Scan.is_ident_cont jcore_soc.Vhdl.Lexer.Scan.while_from
next-semicolon = refl

abbrev behind_all : Lexer
behind_all = record { rest = codes ""; off = 6; prev_kind = Kind.eof; file = no_file }

next-all : next behind_semicolon ≡ (token Kind.eof "" 7, behind_all)
unfolding jcore_soc.Vhdl.Lexer.next jcore_soc.Vhdl.Lexer.Scan.while_from
next-all = refl

next-collect :
    (fuel : ℕ) (l : Lexer) {m : Lexer} {t : Token} {k : List Token × Lexer}
    → next l ≡ (t, m)
    → is_comment t.kind ≡ false
    → is_eof t.kind ≡ false
    → collect fuel m ≡ k
    → collect (suc fuel) l ≡ push t k
unfolding collect
next-collect fuel l e c f on =
    rw (collect, ap (λ r. is_comment r.0.kind) e ∙ c, ap (λ r. is_eof r.0.kind) e ∙ f)
      (ap (λ r. push r.0 (collect fuel r.1)) e ∙ ap (push _) on)

abbrev whole_tokens : List Token
whole_tokens =
    token Kind.kw_use "use" 1
    ∷ token Kind.ident "a" 5
    ∷ token Kind.semicolon "" 6
    ∷ token Kind.eof "" 7
    ∷ []

next-collect_end :
    (fuel : ℕ) (l : Lexer) {m : Lexer} {t : Token}
    → next l ≡ (t, m)
    → is_comment t.kind ≡ false
    → is_eof t.kind ≡ true
    → collect (suc fuel) l ≡ (t ∷ [], m)
unfolding collect
next-collect_end fuel l e c f =
    rw (collect, ap (λ r. is_comment r.0.kind) e ∙ c, ap (λ r. is_eof r.0.kind) e ∙ f)
      (ap (λ r. (r.0 ∷ [], r.1)) e)

toks-new_parser :
    (src : Bytes) (f : File) (k : List Token × Lexer)
    → collect (suc (max_iters src)) (new_lexer src f) ≡ k
    → (new_parser src f).toks ≡ k.0
unfolding new_parser
toks-new_parser src f k e = ap (λ r. r.0) e

whole_source_tokens : (new_parser whole_source no_file).toks ≡ whole_tokens
whole_source_tokens =
    toks-new_parser whole_source no_file (whole_tokens, behind_all)
      (next-collect _ _ next-use refl refl (
        next-collect _ _ next-name refl refl
          (next-collect _ _ next-semicolon refl refl (next-collect_end _ _ next-all refl refl))))

whole_tokens_errs : (parse_file (start whole_tokens)).1.errs ≡ []
unfolding jcore_soc.Vhdl.Kind.Code.same_kind jcore_soc.Vhdl.Parser.start
    jcore_soc.Vhdl.Parser.expect jcore_soc.Vhdl.Parser.ensure_progress
    jcore_soc.Vhdl.Parser.Monad.◌>>=◌ jcore_soc.Vhdl.Parser.Monad.value
    jcore_soc.Vhdl.Parser.Monad.current jcore_soc.Vhdl.Parser.Monad.advancing
    jcore_soc.Vhdl.Parser.Monad.expecting jcore_soc.Vhdl.Parser.Common.is_plain
    jcore_soc.Vhdl.Parser.Common.dotted_behind jcore_soc.Vhdl.Parser.Common.parse_dotted_name
    jcore_soc.Vhdl.Parser.Common.parse_use_clause jcore_soc.Vhdl.Parser.Units.unit_class
    jcore_soc.Vhdl.Parser.Units.parse_part jcore_soc.Vhdl.Parser.Units.parse_file
    jcore_soc.Vhdl.Parser.Loop.items
whole_tokens_errs = refl

whole_source_reports : (parse_source whole_source no_file).1.errs ≡ []
whole_source_reports =
    ap (λ ts. (parse_file (start ts)).1.errs) whole_source_tokens ∙ whole_tokens_errs

parse_source_ends_example : is_eof (parse_source whole_source no_file).1.cur.kind ≡ true
parse_source_ends_example = parse_source_ends whole_source no_file whole_source_reports
