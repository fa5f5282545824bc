-- ===== src/Vhdl/Parser/Monad.antt =====
-- tools/socgen/vhdl/parser.go: the parsing functions as `do` blocks over the parser's state. `value x`
-- returns `x`; a condition on the current token is read by `at_kind` or `current`.
pub mod Moves
use jcore_soc.Base.{
  ℕ, zero, suc, Bool, true, false, ◌&&◌, ◌||◌, Option, none, some, List, [], ◌∷◌, if◌then◌else◌,
  Bytes,
}
use jcore_soc.Vhdl.Kind.{Kind, is_eof}
use jcore_soc.Vhdl.Kind.Code.{same_kind}
use jcore_soc.Vhdl.Source.{Token}
use jcore_soc.Vhdl.Parser.{
  State, ParseError, Parse, at, advance, accept, expect, errorf, unexpected, expected, out_of_fuel,
  left, peek_kind, ensure_progress,
}
use jcore_soc.Vhdl.Parser.Loop.{items}

infixl 5 ◌>>=◌ ◌>>◌
unfoldable pub ◌>>=◌ : {A B : Type 0} → Parse A → (A → Parse B) → Parse B
◌>>=◌ m f s = f (m s).0 (m s).1

abbrev pub ◌>>◌ : {A B : Type 0} → Parse A → Parse B → Parse B
m >> k = m >>= λ _. k

unfoldable pub value : {A : Type 0} → A → Parse A
value x s = (x, s)

-- `p.cur()` and `p.at(k)`.
unfoldable pub current : Parse Token
current s = (s.cur, s)

unfoldable pub at_kind : Kind → Parse Bool
at_kind k s = (at k s, s)

-- `p.peekKind(1)`.
unfoldable pub next_kind : Parse Kind
next_kind s = (peek_kind 1 s, s)

unfoldable pub advancing : Parse Token
advancing s = (s.cur, advance s)

unfoldable pub accepting : Kind → Parse Bool
accepting k s = (at k s, accept k s)

unfoldable pub expecting : Kind → Parse Token
expecting k s = (s.cur, expect k s)

-- `p.expect(IDENT).Lit`.
abbrev pub identifier : Parse Bytes
identifier = do t ← expecting Kind.ident; value t.lit

-- An error at the current token.
unfoldable pub reporting : Bytes → Parse Unit
reporting place s = (tt, errorf (unexpected s.cur.pos s.cur.kind s.cur.lit place) s)

-- `if p.at(k) { p.advance(); ... }`, which is also `if p.accept(k) { ... }`.
unfoldable pub when_at : {A : Type 0} → Kind → Parse A → Parse A → Parse A
when_at k f g s = if at k s then f (advance s) else g s

-- `if p.accept(k) { x = f() }` of a part that may be missing.
abbrev pub optional : {A : Type 0} → Kind → Parse A → Parse (Option A)
optional k f = when_at k (do x ← f; value (some x)) (value none)

-- `if p.at(IDENT) { p.advance() }`, a closing name, and `p.accept(k)` without its result.
abbrev pub skipping_kind : Kind → Parse Unit
skipping_kind k = when_at k (value tt) (value tt)

-- A nil result is not kept.
unfoldable pub keep : {A : Type 0} → Option A → List A → List A
keep none xs = xs
keep (some x) xs = x ∷ xs

-- `for !p.at(EOF) && !stop { x := item(); ...; p.ensureProgress(start, place) }`: each round ends with
-- fewer tokens left, so there are fewer rounds than tokens.
module _ {A : Type 0} (stop : Kind → Bool) (place : Bytes) (item : Parse (Option A)) where
  unfoldable pub guarded_from : ℕ → Parse (List A)
  unfolding errorf
  guarded_from zero s = ([], errorf out_of_fuel s)
  guarded_from (suc fuel) s =
      let (x, s') = item s in
      let (xs, s'') = guarded_from fuel (ensure_progress (left s) place s') in
      if at Kind.eof s || stop s.cur.kind then ([], s) else (keep x xs, s'')

  unfoldable pub guarded : Parse (List A)
  unfolding guarded_from
  guarded s = guarded_from (suc (left s)) s

-- `for p.at(k) { x = append(x, item()) }`, whose items consume the token of kind `k`.
module _ {A : Type 0} (k : Kind) (item : Parse A) where
  unfoldable pub while_at_from : ℕ → Parse (List A)
  unfolding errorf
  while_at_from zero s = ([], errorf out_of_fuel s)
  while_at_from (suc fuel) s =
      let (x, s') = item (advance s) in
      let (xs, s'') = while_at_from fuel s' in if at k s then (x ∷ xs, s'') else ([], s)

  unfoldable pub while_at : Parse (List A)
  unfolding while_at_from
  while_at s = while_at_from (suc (left s)) s

-- `for p.accept(COMMA) { append(item()) }` behind a first item.
abbrev pub comma_list : {A : Type 0} → Parse A → Parse (List A)
comma_list item = items Kind.comma (λ _. false) item

-- `switch p.cur().Kind`.
unfoldable pub dispatch : {A : Type 0} → (Kind → Parse A) → Parse A
dispatch f s = f s.cur.kind s

-- An error at a token that is passed.
unfoldable pub reporting_at : Token → Bytes → Parse Unit
reporting_at t place s = (tt, errorf (unexpected t.pos t.kind t.lit place) s)

-- `if p.at(IDENT) { name = p.advance().Lit }`.
unfoldable pub optional_name : Parse Bytes
optional_name = do
  t ← current
  ident ← at_kind Kind.ident
  if ident then (do advancing; value t.lit) else value []

-- `end k [name] ;`.
unfoldable pub closing : Kind → Parse Unit
closing k = do
  expecting Kind.kw_end
  expecting k
  skipping_kind Kind.ident
  expecting Kind.semicolon
  value tt

-- `[label :]`, an identifier that a colon follows.
unfoldable pub parse_label : Parse Bytes
parse_label = do
  t ← current
  ident ← at_kind Kind.ident
  next ← next_kind
  if ident && same_kind next Kind.colon then (do advancing; advancing; value t.lit) else value []

unfoldable pub is_end : Kind → Bool
is_end Kind.kw_end = true
is_end _ = false

unfoldable pub is_begin_end : Kind → Bool
is_begin_end Kind.kw_begin = true
is_begin_end Kind.kw_end = true
is_begin_end _ = false
