-- ===== src/Vhdl/Parser/Monad/Moves.antt =====
-- tools/socgen/vhdl/parser.go: `do` blocks of the parser only advance and report, if their parts do.
use jcore_soc.Base.{
  ℕ, zero, suc, ◌≤◌, ◌<◌, ◌≡◌, refl, ◌∙◌, ◌⊎◌, inl, inr, Bool, true, false, not, ◌&&◌, ◌||◌, Option,
  arith, ◌==◌, if◌then◌else◌, Bool-cases, Bytes,
}
use jcore_soc.Vhdl.Kind.{Kind, is_eof}
use jcore_soc.Vhdl.Source.{Token}
use jcore_soc.Vhdl.Parser.{State, Parse, at, advance, expect, left, ensure_progress}
use jcore_soc.Vhdl.Parser.Steps.{
  Steps, here, move, fail, is_message, Steps-trans, IsEnded, advance-IsEnded, Steps-IsEnded,
  Steps-left, left-advance_lt, at-left_lt, expect-Steps, accept-Steps, ensure_progress-left,
  eof_code,
}
use jcore_soc.Vhdl.Parser.Loop.Moves.{Moves, after_advance}
use jcore_soc.Vhdl.Parser.Expr.{parse_expr}
use jcore_soc.Vhdl.Parser.Expr.Total.{parse_expr-Steps}
use jcore_soc.Vhdl.Parser.Monad.{
  ◌>>=◌, value, current, at_kind, next_kind, advancing, accepting, expecting, reporting, when_at,
  guarded_from, guarded, while_at_from, while_at, reporting_at, optional_name, closing, parse_label,
  dispatch,
}

pub bind-Moves :
    {A B : Type 0} {n : ℕ} (m : Parse A) (f : A → Parse B)
    → Moves n m
    → ((a : A) → Moves n (f a))
    → Moves n (m >>= f)
unfolding ◌>>=◌
bind-Moves m f p q s h lt =
    let r : Steps s (m s).1 = p s h lt in
    let le : left (m s).1 ≤ left s = Steps-left r in
    Steps-trans r (q (m s).0 (m s).1 (Steps-IsEnded h r) (omega arith))

pub value-Moves : {A : Type 0} {n : ℕ} (x : A) → Moves n (value x)
unfolding value
value-Moves x s h lt = here

pub current-Moves : {n : ℕ} → Moves n current
unfolding current
current-Moves s h lt = here

pub at_kind-Moves : {n : ℕ} (k : Kind) → Moves n (at_kind k)
unfolding at_kind
at_kind-Moves k s h lt = here

pub next_kind-Moves : {n : ℕ} → Moves n next_kind
unfolding next_kind
next_kind-Moves s h lt = here

pub advancing-Moves : {n : ℕ} → Moves n advancing
unfolding advancing
advancing-Moves s h lt = move here

pub accepting-Moves : {n : ℕ} (k : Kind) → Moves n (accepting k)
unfolding accepting
accepting-Moves k s h lt = accept-Steps k s

pub expecting-Moves : {n : ℕ} (k : Kind) → Moves n (expecting k)
unfolding expecting
expecting-Moves k s h lt = expect-Steps k s

pub reporting-Moves : {n : ℕ} (place : Bytes) → Moves n (reporting place)
unfolding reporting is_message
reporting-Moves place s h lt = fail _ refl here

pub parse_expr-Moves : {n : ℕ} → Moves n parse_expr
parse_expr-Moves s h lt = parse_expr-Steps s h

pub if-Moves :
    {A : Type 0} {n : ℕ} (b : Bool) (f g : Parse A)
    → Moves n f
    → Moves n g
    → Moves n (if b then f else g)
if-Moves true f g p q = p
if-Moves false f g p q = q

-- Behind its token, `f` may take one token less.
pub when_at-suc :
    {A : Type 0} {n : ℕ} (k : Kind) (f g : Parse A)
    → is_eof k ≡ false
    → Moves n f
    → Moves (suc n) g
    → Moves (suc n) (when_at k f g)
unfolding when_at
when_at-suc k f g e p q s h lt = elim (Bool-cases (at k s)) [
  | inl y ↦ rw y (move (after_advance f p s h (omega arith) (at-left_lt k s h y e)))
  | inr y ↦ rw y (q s h lt)
]

pub when_at-Moves :
    {A : Type 0} {n : ℕ} (k : Kind) (f g : Parse A)
    → Moves n f
    → Moves n g
    → Moves n (when_at k f g)
unfolding when_at
when_at-Moves k f g p q s h lt = elim (Bool-cases (at k s)) [
  | inl y ↦ rw y (
      move (
        p (advance s) (advance-IsEnded s h)
          (let le : left (advance s) ≤ left s = Steps-left (move here) in omega arith)))
  | inr y ↦ rw y (q s h lt)
]

pub ensure_progress-Steps :
    (start : ℕ) (place : Bytes) (s : State) → Steps s (ensure_progress start place s)
unfolding ensure_progress is_message
ensure_progress-Steps start place s = elim (Bool-cases ((left s == start) && not (at Kind.eof s))) [
  | inl y ↦ rw y (fail _ refl (move here))
  | inr y ↦ rw y here
]

pub eof_at : (s : State) → is_eof s.cur.kind ≡ at Kind.eof s
unfolding at
eof_at s = eof_code s.cur.kind

-- `f` steps from the states whose current token is not EOF.
abbrev pub MovesOn : {A : Type 0} → ℕ → Parse A → Type 0
MovesOn n f = (s : State) → IsEnded s → left s < n → is_eof s.cur.kind ≡ false → Steps s (f s).1

pub ||-false_right : (a b : Bool) → a || b ≡ false → b ≡ false
||-false_right a b h = ground arith

||-false : (a b : Bool) → a || b ≡ false → a ≡ false
||-false a b h = ground arith

module _ {A : Type 0} {n : ℕ} (stop : Kind → Bool) (place : Bytes) (item : Parse (Option A))
    (item-MovesOn : MovesOn n item) where
  -- The rounds are enough where fewer tokens are left, or EOF is current and a round is.
  guarded_from-Steps :
      (fuel : ℕ) (s : State)
      → IsEnded s
      → left s < n
      → ((left s < fuel) ⊎ ((is_eof s.cur.kind ≡ true) × (0 < fuel)))
      → Steps s (guarded_from stop place item fuel s).1
  unfolding guarded_from
  guarded_from-Steps zero s h lt (inl l) = elim l [ ]
  guarded_from-Steps zero s h lt (inr l) = absurd (omega arith)
  guarded_from-Steps (suc fuel) s h lt enough =
      elim (Bool-cases (at Kind.eof s || stop s.cur.kind)) [
        | inl y ↦ rw y here
        | inr y ↦
            let s' : State = (item s).1 in
            let t : State = ensure_progress (left s) place s' in
            let no_eof : is_eof s.cur.kind ≡ false =
              eof_at s ∙ ||-false (at Kind.eof s) (stop s.cur.kind) y in
            let q : Steps s s' = item-MovesOn s h lt no_eof in
            let q' : Steps s t = Steps-trans q (ensure_progress-Steps (left s) place s') in
            let le : left t ≤ left s = Steps-left q' in
            let some_left : left (advance s) < left s = left-advance_lt s h no_eof in
            rw y (
              Steps-trans q' (
                guarded_from-Steps fuel t (Steps-IsEnded h q') (omega arith) (
                  IsEnough-left fuel s t enough no_eof (omega arith)
                    (ensure_progress-left s s' place h q))))
      ]
    where
      IsEnough-left :
          (fuel : ℕ) (s t : State)
          → ((left s < suc fuel) ⊎ ((is_eof s.cur.kind ≡ true) × (0 < suc fuel)))
          → is_eof s.cur.kind ≡ false
          → 0 < left s
          → ((left t < left s) ⊎ (is_eof t.cur.kind ≡ true))
          → (left t < fuel) ⊎ ((is_eof t.cur.kind ≡ true) × (0 < fuel))
      IsEnough-left fuel s t (inr l) n p c = (let e : is_eof s.cur.kind ≡ true = l.0 in cc)
      IsEnough-left fuel s t (inl l) n p (inl c) = inl (omega arith)
      IsEnough-left fuel s t (inl l) n p (inr c) = inr (c, omega arith)

  pub guarded-MovesOn : Moves n (guarded stop place item)
  unfolding guarded
  guarded-MovesOn s h lt = guarded_from-Steps (suc (left s)) s h lt (inl (omega arith))

pub guarded-Moves :
    {A : Type 0} {n : ℕ} (stop : Kind → Bool) (place : Bytes) (item : Parse (Option A))
    → Moves n item
    → Moves n (guarded stop place item)
guarded-Moves stop place item p = guarded-MovesOn stop place item (λ s h lt e. p s h lt)

module _ {A : Type 0} {n : ℕ} (k : Kind) (item : Parse A) (k_not_eof : is_eof k ≡ false)
    (item-Moves : Moves n item) where
  while_at_from-Steps :
      (fuel : ℕ) (s : State)
      → IsEnded s
      → left s ≤ n
      → left s < fuel
      → Steps s (while_at_from k item fuel s).1
  unfolding while_at_from
  while_at_from-Steps zero s h le lt = elim lt [ ]
  while_at_from-Steps (suc fuel) s h le lt = elim (Bool-cases (at k s)) [
    | inl y ↦
        let shorter : left (advance s) < left s = at-left_lt k s h y k_not_eof in
        let q : Steps (advance s) (item (advance s)).1 =
          after_advance item item-Moves s h le shorter in
        let le' : left (item (advance s)).1 ≤ left (advance s) = Steps-left q in
        rw y (
          move (
            Steps-trans q (
              while_at_from-Steps fuel (item (advance s)).1 (Steps-IsEnded (advance-IsEnded s h) q)
                (omega arith) (omega arith))))
    | inr y ↦ rw y here
  ]

  pub while_at-Moves : Moves n (while_at k item)
  unfolding while_at
  while_at-Moves s h lt = while_at_from-Steps (suc (left s)) s h (omega arith) (omega arith)

pub ruleset moves = (
  bind-Moves, value-Moves, current-Moves, at_kind-Moves, next_kind-Moves, advancing-Moves,
  accepting-Moves, expecting-Moves, reporting-Moves, parse_expr-Moves, if-Moves, when_at-Moves,
)

pub reporting_at-Moves : {n : ℕ} (t : Token) (place : Bytes) → Moves n (reporting_at t place)
unfolding reporting_at is_message
reporting_at-Moves t place s h lt = fail _ refl here

pub optional_name-Moves : {n : ℕ} → Moves n optional_name
unfolding optional_name
optional_name-Moves = search moves depth 16

pub closing-Moves : {n : ℕ} (k : Kind) → Moves n (closing k)
unfolding closing
closing-Moves k = search moves depth 16

pub parse_label-Moves : {n : ℕ} → Moves n parse_label
unfolding parse_label
parse_label-Moves = search moves depth 16

-- A `switch` on the current token: each of its branches starts at a token of its kind.
pub dispatch-Moves :
    {A : Type 0} {n : ℕ} (f : Kind → Parse A)
    → ((k : Kind) (s : State) → s.cur.kind ≡ k → IsEnded s → left s < n → Steps s (f k s).1)
    → Moves n (dispatch f)
unfolding dispatch
dispatch-Moves f p s h lt = p s.cur.kind s refl h lt

-- Behind a first action that consumes a token there may be one token less.
pub bind_consumes :
    {A B : Type 0} {n : ℕ} (m : Parse A) (f : A → Parse B) (s : State)
    → IsEnded s
    → left s ≤ n
    → Steps s (m s).1
    → left (m s).1 < left s
    → ((a : A) → Moves n (f a))
    → Steps s ((m >>= f) s).1
unfolding ◌>>=◌
bind_consumes m f s h le r shorter q =
    Steps-trans r (q (m s).0 (m s).1 (Steps-IsEnded h r) (omega arith))

pub expecting_consumes :
    {B : Type 0} {n : ℕ} (k : Kind) (f : Token → Parse B) (s : State)
    → IsEnded s
    → left s ≤ n
    → at k s ≡ true
    → is_eof k ≡ false
    → ((t : Token) → Moves n (f t))
    → Steps s ((expecting k >>= f) s).1
unfolding expecting expect
expecting_consumes k f s h le y e q =
    bind_consumes (expecting k) f s h le (expect-Steps k s) (rw y (at-left_lt k s h y e)) q

-- At a state: behind its token `f` may take one token less, and `g` is reached without the token.
pub when_at_consumes :
    {A : Type 0} {n : ℕ} (k : Kind) (f g : Parse A) (s : State)
    → IsEnded s
    → left s ≤ n
    → is_eof k ≡ false
    → Moves n f
    → (at k s ≡ false → Steps s (g s).1)
    → Steps s (when_at k f g s).1
unfolding when_at
when_at_consumes k f g s h le e p q = elim (Bool-cases (at k s)) [
  | inl y ↦ rw y (move (after_advance f p s h le (at-left_lt k s h y e)))
  | inr y ↦ rw y (q y)
]

pub advancing_consumes :
    {B : Type 0} {n : ℕ} (f : Token → Parse B) (s : State)
    → IsEnded s
    → left s ≤ n
    → is_eof s.cur.kind ≡ false
    → ((t : Token) → Moves n (f t))
    → Steps s ((advancing >>= f) s).1
unfolding advancing
advancing_consumes f s h le e q =
    bind_consumes advancing f s h le (move here) (left-advance_lt s h e) q

-- A `do` block leaves no more tokens than its first action.
pub bind_left :
    {A B : Type 0} (m : Parse A) (f : A → Parse B) (s : State)
    → IsEnded (m s).1
    → ((a : A) → Moves (suc (left (m s).1)) (f a))
    → left ((m >>= f) s).1 ≤ left (m s).1
unfolding ◌>>=◌
bind_left m f s h q = Steps-left (q (m s).0 (m s).1 h (omega arith))
