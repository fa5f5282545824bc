-- ===== src/Vhdl/Parser.antt =====
-- tools/socgen/vhdl/parser.go: the parser's state and the steps on it that every parsing function is
-- made of. The tokens before the current one are never read again, so the state holds `toks[i]` as
-- `cur` and `toks[i+1:]` as `rest`; an error holds the arguments of its message and the `Pos` that the
-- file renders.
pub mod Steps
pub mod Loop
pub mod Expr
pub mod Text
pub mod Monad
pub mod Common
pub mod Sequential
pub mod Declarations
pub mod Concurrent
pub mod Units
use jcore_soc.Base.{
  ℕ, Bool, not, ◌&&◌, Option, none, some, List, [], ◌∷◌, ◌++◌, ◌==◌, if◌then◌else◌, length,
  get_elem?, Bytes,
}
use jcore_soc.Vhdl.Kind.{Kind}
use jcore_soc.Vhdl.Kind.Code.{same_kind}
use jcore_soc.Vhdl.Source.{Token}
use jcore_soc.Vhdl.TokenStream.{cap_token}

-- The messages. `out_of_fuel` is none of the source's: a loop of the model leaves it when its rounds
-- are used up.
pub data ParseError : Type 0 where
  expected : ℕ → Kind → Kind → Bytes → ParseError
  skipping : ℕ → Kind → Bytes → Bytes → ParseError
  unexpected : ℕ → Kind → Bytes → Bytes → ParseError
  out_of_fuel : ParseError

pub record State : Type 0 where
  pub cur : Token
  pub rest : List Token
  pub errs : List ParseError

-- The parser of a token list, which `newParser` never leaves empty.
unfoldable pub start : List Token → State
start [] = record { cur = cap_token; rest = []; errs = [] }
start (t ∷ ts) = record { cur = t; rest = ts; errs = [] }

-- A function of the parser: it changes the state and returns a value.
abbrev pub Parse : Type 0 → Type 0
Parse A = State → A × State

unfoldable pub errorf : ParseError → State → State
errorf e s = record s { errs = s.errs ++ e ∷ [] }

unfoldable pub at : Kind → State → Bool
at k s = same_kind s.cur.kind k

-- `advance` returns the current token, which a caller reads before it.
unfoldable pub advance : State → State
advance s = elim s.rest [ [] ↦ s | t ∷ ts ↦ record s { cur = t; rest = ts } ]

-- `accept`: whether the kind was there is `at`.
unfoldable pub accept : Kind → State → State
unfolding at advance
accept k s = if at k s then advance s else s

unfoldable pub expect : Kind → State → State
unfolding at advance errorf
expect k s = if at k s then advance s else errorf (expected s.cur.pos k s.cur.kind s.cur.lit) s

unfoldable pub kind_or_eof : Option Token → Kind
kind_or_eof none = Kind.eof
kind_or_eof (some t) = t.kind

unfoldable pub peek_kind : ℕ → State → Kind
unfolding kind_or_eof
peek_kind n s = kind_or_eof (get_elem? (s.cur ∷ s.rest) n)

-- The tokens behind the current one: the index has not moved just when as many are left.
abbrev pub left : State → ℕ
left s = length s.rest

-- `ensureProgress(start, where)`, with the tokens left at the start.
unfoldable pub ensure_progress : ℕ → Bytes → State → State
unfolding at advance errorf
ensure_progress start place s =
    if (left s == start) && not (at Kind.eof s)
    then advance (errorf (skipping s.cur.pos s.cur.kind s.cur.lit place) s)
    else s
