-- ===== src/Vhdl/Parser/Steps.antt =====
-- tools/socgen/vhdl/parser.go: the parser's state changes only by `advance` and `errorf`, and what
-- follows from that of the tokens and the errors.
use jcore_soc.Base.{
  ◌≤◌, ◌<◌, ◌≡◌, refl, sym, ap, ◌∙◌, ◌⊎◌, inl, inr, Bool, true, false, not, ◌&&◌, List, [], ◌∷◌,
  ◌++◌, append_assoc, append-nil, arith, ◌==◌, ==_iff, Bool-cases, &&-elim, length, all, Bytes,
}
use jcore_soc.Vhdl.Kind.{Kind, is_eof}
use jcore_soc.Vhdl.Kind.Code.{kind_code, same_kind, tier}
use jcore_soc.Vhdl.Source.{Token}
use jcore_soc.Vhdl.Parser.{
  State, ParseError, skipping, out_of_fuel, at, advance, accept, expect, errorf, left,
  ensure_progress,
}

-- A message of the source.
unfoldable pub is_message : ParseError → Bool
is_message out_of_fuel = false
is_message _ = true

pub data Steps : State → State → Type 0 where
  here : {s : State} → Steps s s
  move : {s t : State} → Steps (advance s) t → Steps s t
  fail : {s t : State} (e : ParseError) → is_message e ≡ true → Steps (errorf e s) t → Steps s t

pub Steps-trans : {s t u : State} → Steps s t → Steps t u → Steps s u
Steps-trans here r = r
Steps-trans (move q) r = move (Steps-trans q r)
Steps-trans (fail e m q) r = fail e m (Steps-trans q r)

-- The last token is EOF.
unfoldable pub Ends : Token → List Token → Type 0
Ends t [] = is_eof t.kind ≡ true
Ends t (u ∷ us) = Ends u us

abbrev pub IsEnded : State → Type 0
IsEnded s = Ends s.cur s.rest

advance-IsEnded' :
    (t : Token) (ts : List Token) (es : List ParseError)
    → Ends t ts
    → IsEnded (advance (record { cur = t; rest = ts; errs = es }))
unfolding advance Ends
advance-IsEnded' t [] es h = h
advance-IsEnded' t (u ∷ us) es h = h

pub advance-IsEnded : (s : State) → IsEnded s → IsEnded (advance s)
advance-IsEnded s h = advance-IsEnded' s.cur s.rest s.errs h

left-advance' :
    (t : Token) (ts : List Token) (es : List ParseError)
    → left (advance (record { cur = t; rest = ts; errs = es })) ≤ length ts
unfolding advance
left-advance' t [] es = omega arith
left-advance' t (u ∷ us) es = omega arith

pub left-advance : (s : State) → left (advance s) ≤ left s
left-advance s = left-advance' s.cur s.rest s.errs

left_lt :
    (t : Token) (ts : List Token) (es : List ParseError)
    → Ends t ts
    → is_eof t.kind ≡ false
    → left (advance (record { cur = t; rest = ts; errs = es })) < length ts
unfolding advance Ends
left_lt t [] es h n = cc
left_lt t (u ∷ us) es h n = omega arith

pub left-advance_lt :
    (s : State) → IsEnded s → is_eof s.cur.kind ≡ false → left (advance s) < left s
left-advance_lt s h n = left_lt s.cur s.rest s.errs h n

pub Steps-IsEnded : {s t : State} → IsEnded s → Steps s t → IsEnded t
unfolding errorf
Steps-IsEnded h here = h
Steps-IsEnded {s} h (move q) = Steps-IsEnded (advance-IsEnded s h) q
Steps-IsEnded h (fail e m q) = Steps-IsEnded h q

pub Steps-left : {s t : State} → Steps s t → left t ≤ left s
unfolding errorf
Steps-left here = omega arith
Steps-left {s} (move q) = omega (arith, Steps-left q, left-advance s)
Steps-left (fail e m q) = Steps-left q

errs_advance :
    (t : Token) (ts : List Token) (es : List ParseError)
    → (advance (record { cur = t; rest = ts; errs = es })).errs ≡ es
unfolding advance
errs_advance t [] es = refl
errs_advance t (u ∷ us) es = refl

pub errs-advance : (s : State) → (advance s).errs ≡ s.errs
errs-advance s = errs_advance s.cur s.rest s.errs

tokens_advance :
    (t : Token) (ts : List Token) (es : List ParseError)
    → (used : List Token) × (t ∷ ts
        ≡ used
          ++ (advance (record { cur = t; rest = ts; errs = es })).cur
            ∷ (advance (record { cur = t; rest = ts; errs = es })).rest)
unfolding advance
tokens_advance t [] es = ([], refl)
tokens_advance t (u ∷ us) es = (t ∷ [], refl)

-- The tokens left are the end of those before.
pub Steps-tokens :
    {s t : State} → Steps s t → (used : List Token) × (s.cur ∷ s.rest ≡ used ++ t.cur ∷ t.rest)
unfolding errorf
Steps-tokens here = ([], refl)
Steps-tokens {s} {t} (move q) =
    let (used, e) = Steps-tokens q in
    let (first, e') = tokens_advance s.cur s.rest s.errs in
    (first ++ used, e' ∙ ap (λ z. first ++ z) e ∙ sym (append_assoc first used (t.cur ∷ t.rest)))
Steps-tokens (fail e m q) = Steps-tokens q

-- The errors before are kept, and those that come behind them are messages of the source.
pub Steps-errs :
    {s t : State}
    → Steps s t
    → (new : List ParseError) × (t.errs ≡ s.errs ++ new) × (all is_message new ≡ true)
unfolding errorf
Steps-errs {s} here = ([], sym (append-nil s.errs), refl)
Steps-errs {s} (move q) =
    let (new, e, m) = Steps-errs q in (new, e ∙ ap (λ es. es ++ new) (errs-advance s), m)
Steps-errs {s} (fail e m q) =
    let (new, e', m') = Steps-errs q in
    (e ∷ new, e' ∙ append_assoc s.errs (e ∷ []) new, rw (m, m') refl)

-- Kinds.
is_eof_code : (k : Kind) → is_eof k ≡ (kind_code k == 1)
unfolding kind_code
is_eof_code Kind.eof = refl
is_eof_code _ = refl

pub same_kind-is_eof : (j k : Kind) → same_kind j k ≡ true → is_eof j ≡ is_eof k
unfolding same_kind
same_kind-is_eof j k h = is_eof_code j ∙ ap (λ c. c == 1) ((==_iff _ _).0 h) ∙ sym (is_eof_code k)

pub tier-is_eof : (k : Kind) → 0 < tier k → is_eof k ≡ false
unfolding tier
tier-is_eof Kind.eof h = absurd (omega arith)
tier-is_eof _ h = refl

pub at-left_lt :
    (k : Kind) (s : State)
    → IsEnded s
    → at k s ≡ true
    → is_eof k ≡ false
    → left (advance s) < left s
unfolding at
at-left_lt k s h a n = left-advance_lt s h (same_kind-is_eof s.cur.kind k a ∙ n)

-- The steps of the helpers.
pub advance-Steps : (s : State) → Steps s (advance s)
advance-Steps s = move here

pub expect-Steps : (k : Kind) (s : State) → Steps s (expect k s)
unfolding expect is_message
expect-Steps k s = elim (Bool-cases (at k s)) [
  | inl y ↦ rw y (move here)
  | inr n ↦ rw n (fail _ refl here)
]

pub accept-Steps : (k : Kind) (s : State) → Steps s (accept k s)
unfolding accept
accept-Steps k s = elim (Bool-cases (at k s)) [ inl y ↦ rw y (move here) | inr n ↦ rw n here ]

not-elim : (b : Bool) → not b ≡ true → b ≡ false
not-elim true h = cc
not-elim false h = refl

pub eof_code : (k : Kind) → is_eof k ≡ same_kind k Kind.eof
unfolding same_kind kind_code
eof_code k = is_eof_code k

-- From a state that the parser reaches while EOF is at the end of its tokens, `ensureProgress` leaves
-- fewer tokens than there were at the round's start, or EOF is the current token.
pub ensure_progress-left :
    (s t : State) (place : Bytes)
    → IsEnded s
    → Steps s t
    → (left (ensure_progress (left s) place t) < left s)
      ⊎ (is_eof (ensure_progress (left s) place t).cur.kind ≡ true)
unfolding ensure_progress errorf at
ensure_progress-left s t place h q =
    let le : left t ≤ left s = Steps-left q in
    let no_eof : not (at Kind.eof t) ≡ true → is_eof t.cur.kind ≡ false =
      λ y. eof_code t.cur.kind ∙ not-elim _ y in
    elim (Bool-cases ((left t == left s) && not (at Kind.eof t))) [
      | inl y ↦ rw y (
          inl (
            let e : left t ≡ left s = (==_iff _ _).0 (&&-elim _ _ y).0 in
            let shorter : left (advance (errorf (skipping t.cur.pos t.cur.kind t.cur.lit place) t))
                < left t =
              left-advance_lt (errorf (skipping t.cur.pos t.cur.kind t.cur.lit place) t)
                (Steps-IsEnded h q) (no_eof (&&-elim _ _ y).1) in
            omega arith))
      | inr y ↦ rw y (elim (Bool-cases (at Kind.eof t)) [
        | inl z ↦ inr (eof_code t.cur.kind ∙ z)
        | inr z ↦ inl (ground (arith, le))
      ])
    ]
