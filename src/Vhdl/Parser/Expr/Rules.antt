-- ===== src/Vhdl/Parser/Expr/Rules.antt =====
-- tools/socgen/vhdl/parser.go: the functions of the expression parser, run on a token list that is
-- known to its next token.
use jcore_soc.Base.{
  ℕ, zero, suc, ◌+◌, ◌≤◌, ◌<◌, ◌≡◌, refl, ap, ◌∙◌, ◌≢◌, inl, inr, Bool, true, false, ◌||◌, List, [],
  ◌∷◌, ◌++◌, append_assoc, arith, ◌==◌, ==_iff, Bool-cases, length, length-append,
}
use jcore_soc.Vhdl.Kind.{Kind}
use jcore_soc.Vhdl.Kind.Code.{
  kind_code, same_kind, tier, is_sign, is_abs_not, is_direction, primary_class, other,
}
use jcore_soc.Vhdl.Source.{Token}
use jcore_soc.Vhdl.Ast.{Expr}
use jcore_soc.Vhdl.TokenStream.{cap_token}
use jcore_soc.Vhdl.Parser.{State, ParseError, Parse, at, advance, left}
use jcore_soc.Vhdl.Parser.Loop.{fold_from, items_from}

-- The state at a token list.
abbrev pub resume : List ParseError → List Token → State
resume es [] = record { cur = cap_token; rest = []; errs = es }
resume es (t ∷ ts) = record { cur = t; rest = ts; errs = es }

-- How deep a token of a kind continues the phrase before it: a primary 8, a factor 7, the operators
-- of a level one more than its tier, an expression 1, and none 0.
unfoldable pub binding : Kind → ℕ
binding Kind.ident = 8
binding Kind.lparen = 8
binding Kind.dot = 8
binding Kind.tick = 8
binding Kind.exp = 7
binding Kind.star = 6
binding Kind.slash = 6
binding Kind.kw_mod = 6
binding Kind.kw_rem = 6
binding Kind.plus = 5
binding Kind.minus = 5
binding Kind.amp = 5
binding Kind.kw_sll = 4
binding Kind.kw_srl = 4
binding Kind.kw_sla = 4
binding Kind.kw_sra = 4
binding Kind.kw_rol = 4
binding Kind.kw_ror = 4
binding Kind.equal = 3
binding Kind.not_eq = 3
binding Kind.less = 3
binding Kind.less_eq = 3
binding Kind.greater = 3
binding Kind.greater_eq = 3
binding Kind.kw_and = 2
binding Kind.kw_or = 2
binding Kind.kw_nand = 2
binding Kind.kw_nor = 2
binding Kind.kw_xor = 2
binding Kind.kw_xnor = 2
binding Kind.kw_to = 1
binding Kind.kw_downto = 1
binding _ = 0

-- The token list goes on with a token of at most this binding.
abbrev pub Follows : ℕ → List Token → Type 0
Follows i [] = ⊥
Follows i (t ∷ ts) = binding t.kind ≤ i

pub Follows-le : {i : ℕ} (j : ℕ) (ts : List Token) → i ≤ j → Follows i ts → Follows j ts
Follows-le j [] le h = h
Follows-le j (t ∷ ts) le h = omega arith

abbrev pub NonEmpty : List Token → Type 0
NonEmpty [] = ⊥
NonEmpty (t ∷ ts) = Unit

pub Follows-NonEmpty : (i : ℕ) (ts : List Token) → Follows i ts → NonEmpty ts
Follows-NonEmpty i [] h = h
Follows-NonEmpty i (t ∷ ts) h = tt

pub append-NonEmpty : (ts rest : List Token) → NonEmpty rest → NonEmpty (ts ++ rest)
append-NonEmpty [] rest h = h
append-NonEmpty (t ∷ ts) rest h = tt

pub advance-resume :
    (es : List ParseError) (t : Token) (ts : List Token)
    → NonEmpty ts
    → advance (resume es (t ∷ ts)) ≡ resume es ts
unfolding advance
advance-resume es t [] h = absurd h
advance-resume es t (u ∷ us) h = refl

-- Kinds that cannot continue a phrase.
pub tier-binding : (k : Kind) → 0 < tier k → binding k ≡ suc (tier k)
unfolding tier binding
tier-binding Kind.star h = refl
tier-binding Kind.slash h = refl
tier-binding Kind.kw_mod h = refl
tier-binding Kind.kw_rem h = refl
tier-binding Kind.plus h = refl
tier-binding Kind.minus h = refl
tier-binding Kind.amp h = refl
tier-binding Kind.kw_sll h = refl
tier-binding Kind.kw_srl h = refl
tier-binding Kind.kw_sla h = refl
tier-binding Kind.kw_sra h = refl
tier-binding Kind.kw_rol h = refl
tier-binding Kind.kw_ror h = refl
tier-binding Kind.equal h = refl
tier-binding Kind.not_eq h = refl
tier-binding Kind.less h = refl
tier-binding Kind.less_eq h = refl
tier-binding Kind.greater h = refl
tier-binding Kind.greater_eq h = refl
tier-binding Kind.kw_and h = refl
tier-binding Kind.kw_or h = refl
tier-binding Kind.kw_nand h = refl
tier-binding Kind.kw_nor h = refl
tier-binding Kind.kw_xor h = refl
tier-binding Kind.kw_xnor h = refl
tier-binding _ h = absurd (omega arith)

pub not_operator : (k : Kind) (i : ℕ) → 0 < i → binding k ≤ i → (tier k == i) ≡ false
not_operator k i p h = elim (Bool-cases (tier k == i)) [
  | inl y ↦
      let e : tier k ≡ i = (==_iff _ _).0 y in
      let b : binding k ≡ suc (tier k) = tier-binding k (omega arith) in absurd (omega arith)
  | inr n ↦ n
]

pub not_ident : (k : Kind) → binding k ≤ 7 → same_kind k Kind.ident ≡ false
unfolding same_kind kind_code binding
not_ident Kind.ident h = absurd (omega arith)
not_ident _ h = refl

pub not_lparen : (k : Kind) → binding k ≤ 7 → same_kind k Kind.lparen ≡ false
unfolding same_kind kind_code binding
not_lparen Kind.lparen h = absurd (omega arith)
not_lparen _ h = refl

pub not_dot : (k : Kind) → binding k ≤ 7 → same_kind k Kind.dot ≡ false
unfolding same_kind kind_code binding
not_dot Kind.dot h = absurd (omega arith)
not_dot _ h = refl

pub not_tick : (k : Kind) → binding k ≤ 7 → same_kind k Kind.tick ≡ false
unfolding same_kind kind_code binding
not_tick Kind.tick h = absurd (omega arith)
not_tick _ h = refl

pub not_exp : (k : Kind) → binding k ≤ 6 → same_kind k Kind.exp ≡ false
unfolding same_kind kind_code binding
not_exp Kind.exp h = absurd (omega arith)
not_exp _ h = refl

pub not_direction : (k : Kind) → binding k ≤ 0 → is_direction k ≡ false
unfolding is_direction binding
not_direction Kind.kw_to h = absurd (omega arith)
not_direction Kind.kw_downto h = absurd (omega arith)
not_direction _ h = refl

pub operator_binding : (k : Kind) (i : ℕ) → 0 < i → tier k ≡ i → binding k ≤ suc i
operator_binding k i p e =
    let b : binding k ≡ suc (tier k) = tier-binding k (omega arith) in omega arith

pub direction_binding : (k : Kind) → is_direction k ≡ true → binding k ≤ 1
unfolding is_direction binding
direction_binding Kind.kw_to h = omega arith
direction_binding Kind.kw_downto h = omega arith
direction_binding _ h = cc

-- What starts a primary is no sign and no abs or not.
pub starts_primary : (k : Kind) → primary_class k ≢ other → is_sign k || is_abs_not k ≡ false
unfolding primary_class is_sign is_abs_not
starts_primary Kind.plus h = absurd (h refl)
starts_primary Kind.minus h = absurd (h refl)
starts_primary Kind.kw_abs h = absurd (h refl)
starts_primary Kind.kw_not h = absurd (h refl)
starts_primary _ h = refl

pub abs_not_is_no_sign : (k : Kind) → is_abs_not k ≡ true → is_sign k ≡ false
unfolding is_sign is_abs_not
abs_not_is_no_sign Kind.kw_abs h = refl
abs_not_is_no_sign Kind.kw_not h = refl
abs_not_is_no_sign _ h = cc

pub at-same : (k j : Kind) → k ≡ j → same_kind k j ≡ true
unfolding same_kind
at-same k j e = rw e ((==_iff _ _).1 refl)

pub not_at_ident :
    (es : List ParseError) (rest : List Token)
    → Follows 7 rest
    → at Kind.ident (resume es rest) ≡ false
unfolding at
not_at_ident es [] h = absurd h
not_at_ident es (t ∷ ts) h = not_ident t.kind h

pub not_at_lparen :
    (es : List ParseError) (rest : List Token)
    → Follows 7 rest
    → at Kind.lparen (resume es rest) ≡ false
unfolding at
not_at_lparen es [] h = absurd h
not_at_lparen es (t ∷ ts) h = not_lparen t.kind h

pub not_at_dot :
    (es : List ParseError) (rest : List Token)
    → Follows 7 rest
    → at Kind.dot (resume es rest) ≡ false
unfolding at
not_at_dot es [] h = absurd h
not_at_dot es (t ∷ ts) h = not_dot t.kind h

pub not_at_tick :
    (es : List ParseError) (rest : List Token)
    → Follows 7 rest
    → at Kind.tick (resume es rest) ≡ false
unfolding at
not_at_tick es [] h = absurd h
not_at_tick es (t ∷ ts) h = not_tick t.kind h

pub not_at_exp :
    (es : List ParseError) (rest : List Token)
    → Follows 6 rest
    → at Kind.exp (resume es rest) ≡ false
unfolding at
not_at_exp es [] h = absurd h
not_at_exp es (t ∷ ts) h = not_exp t.kind h

pub not_at_direction :
    (es : List ParseError) (rest : List Token)
    → Follows 0 rest
    → is_direction (resume es rest).cur.kind ≡ false
not_at_direction es [] h = absurd h
not_at_direction es (t ∷ ts) h = not_direction t.kind h

pub at-resume :
    (es : List ParseError) (t : Token) (ts : List Token) (k : Kind)
    → t.kind ≡ k
    → at k (resume es (t ∷ ts)) ≡ true
unfolding at
at-resume es t ts k e = at-same t.kind k e

pub at_other :
    (es : List ParseError) (t : Token) (ts : List Token) (k j : Kind)
    → t.kind ≡ k
    → same_kind k j ≡ false
    → at j (resume es (t ∷ ts)) ≡ false
unfolding at
at_other es t ts k j e n = rw e n

-- A token of a kind that ends an expression.
pub ends :
    (i : ℕ) (k : Kind) (t : Token) (ts : List Token)
    → t.kind ≡ k
    → binding k ≤ i
    → Follows i (t ∷ ts)
ends i k t ts e h = rw e h

pub not_rparen : (k : Kind) → primary_class k ≢ other → same_kind k Kind.rparen ≡ false
unfolding primary_class same_kind kind_code
not_rparen Kind.rparen h = absurd (h refl)
not_rparen _ h = refl

pub unary_not_rparen :
    (k : Kind) → is_sign k || is_abs_not k ≡ true → same_kind k Kind.rparen ≡ false
unfolding is_sign is_abs_not same_kind kind_code
unary_not_rparen Kind.rparen h = cc
unary_not_rparen _ h = refl

-- The loop of a tier.
module _ (i : ℕ) (operand : Parse Expr) where
  pub fold_from-end :
      (fuel : ℕ) (x : Expr) (es : List ParseError) (rest : List Token)
      → 0 < i
      → Follows i rest
      → length rest ≤ fuel
      → fold_from fuel i operand x (resume es rest) ≡ (x, resume es rest)
  unfolding fold_from
  fold_from-end fuel x es [] p h le = absurd h
  fold_from-end zero x es (t ∷ ts) p h le = absurd (omega arith)
  fold_from-end (suc fuel) x es (t ∷ ts) p h le = rw (not_operator t.kind i p h) refl

  pub fold_from-operator :
      (fuel : ℕ) (x y : Expr) (s s' : State) (r : Expr × State)
      → tier s.cur.kind ≡ i
      → operand (advance s) ≡ (y, s')
      → fold_from fuel i operand (Expr.binary_expr x s.cur.kind y) s' ≡ r
      → fold_from (suc fuel) i operand x s ≡ r
  unfolding fold_from
  fold_from-operator fuel x y s s' r t e f = rw ((==_iff _ _).1 t, e, f) refl

module _ {A : Type 0} (sep : Kind) (stop : State → Bool) (item : Parse A) where
  pub items_from-end :
      (fuel : ℕ) (s : State) → at sep s ≡ false → items_from sep stop item (suc fuel) s ≡ ([], s)
  unfolding items_from
  items_from-end fuel s n = rw n refl

  pub items_from-item :
      (fuel : ℕ) (s s' s'' : State) (x : A) (xs : List A)
      → at sep s ≡ true
      → stop (advance s) ≡ false
      → item (advance s) ≡ (x, s')
      → items_from sep stop item fuel s' ≡ (xs, s'')
      → items_from sep stop item (suc fuel) s ≡ (x ∷ xs, s'')
  unfolding items_from
  items_from-item fuel s s' s'' x xs y n e f = rw (y, n, e, f) refl

pub left-resume :
    (es : List ParseError) (ts : List Token) → NonEmpty ts → suc (left (resume es ts)) ≡ length ts
left-resume es [] h = absurd h
left-resume es (t ∷ ts) h = refl

-- A function behind a token.
pub behind :
    {A : Type 0} (f : Parse A) (es : List ParseError) (t : Token) (ts : List Token) (r : A × State)
    → NonEmpty ts
    → f (resume es ts) ≡ r
    → f (advance (resume es (t ∷ ts))) ≡ r
behind f es t ts r h e = ap f (advance-resume es t ts h) ∙ e

pub append_assoc3 :
    (ts us vs rest : List Token) → ts ++ us ++ vs ++ rest ≡ ts ++ (us ++ (vs ++ rest))
append_assoc3 ts us vs rest = append_assoc (ts ++ us) vs rest ∙ append_assoc ts us (vs ++ rest)

pub length-split :
    (ts us rest : List Token)
    → (length (ts ++ us ++ rest) ≡ length (ts ++ (us ++ rest)))
      × (length (ts ++ (us ++ rest)) ≡ length ts + length (us ++ rest))
length-split ts us rest = (ap length (append_assoc ts us rest), length-append ts (us ++ rest))
