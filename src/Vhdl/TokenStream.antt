-- ===== src/Vhdl/TokenStream.antt =====
-- tools/socgen/vhdl/parser.go: `newParser` up to the token list, with its cap on the rounds.
pub mod Tiles
use jcore_soc.Base.{
  ℕ, zero, suc, ◌+◌, ◌-◌, ◌*◌, ◌/◌, ◌%◌, ◌^◌, ◌≤◌, ◌<◌, max, String, ◌≡◌, refl, sym, ap, subst, ◌∙◌,
  ◌≢◌, ◌↔◌, ◌⊎◌, inl, inr, Bool, true, false, not, ◌&&◌, ◌||◌, Option, none, some, List, [], ◌∷◌,
  ◌++◌, map, append_assoc, append-nil, arith, ltb, leb, ◌==◌, if◌then◌else◌, ==_iff, Bool-cases,
  Option-cases, &&-elim, is_some, length, get_elem?, get_or, take, drop, replicate, length-append,
  take-append, All, All-append, all, any, select, Bytes, codes, str_eq, str_eq_iff, str_eq_refl,
  str_lt, digits, itoa,
}
use jcore_soc.Vhdl.Kind.{eof, is_eof, is_comment}
use jcore_soc.Vhdl.Source.{File, Token}
use jcore_soc.Vhdl.Lexer.{next}
use jcore_soc.Vhdl.Lexer.Scan.{Lexer, new_lexer}

abbrev pub cap_token : Token
cap_token = record { kind = eof; lit = []; pos = 0 }

abbrev pub push : Token → List Token × Lexer → List Token × Lexer
push t (ts, l) = (t ∷ ts, l)

-- The loop, with the rounds left before the cap. The tokens come with the lexer after the last.
unfoldable pub collect : ℕ → Lexer → List Token × Lexer
collect zero l = (cap_token ∷ [], l)
collect (suc rounds) l =
    let (tok, l') = next l in
    let on = collect rounds l' in
    elim (is_comment tok.kind) [
      | true ↦ on
      | false ↦ elim (is_eof tok.kind) [ true ↦ (tok ∷ [], l') | false ↦ push tok on ]
    ]

-- Rounds 0 to maxIters call `Next`.
abbrev pub max_iters : Bytes → ℕ
max_iters src = length src * 2 + 16

pub record Parser : Type 0 where
  pub toks : List Token
  pub i : ℕ
  pub file : File

unfoldable pub new_parser : Bytes → File → Parser
unfolding collect
new_parser src f =
    let (toks, l) = collect (suc (max_iters src)) (new_lexer src f) in
    record { toks = toks; i = 0; file = l.file }
