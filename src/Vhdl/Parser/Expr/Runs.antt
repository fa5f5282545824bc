-- ===== src/Vhdl/Parser/Expr/Runs.antt =====
-- tools/socgen/vhdl/parser.go: what each function of the expression parser returns, branch by branch,
-- from the results of the functions that it calls.
use jcore_soc.Base.{ℕ, suc, ◌≡◌, refl, Bool, true, false, ◌&&◌, ◌||◌, List, [], ◌∷◌, Bytes}
use jcore_soc.Vhdl.Kind.{Kind}
use jcore_soc.Vhdl.Kind.Code.{
  same_kind, is_sign, is_abs_not, is_direction, is_selector, primary_class, PrimaryClass,
}
use jcore_soc.Vhdl.Ast.{Expr, Assocs}
use jcore_soc.Vhdl.Parser.{State, Parse, at, advance, expect, left, peek_kind}
use jcore_soc.Vhdl.Parser.Loop.{
  fold_from, fold_tier, parse_tier, items_from, more_items, items, unless_closed,
}
use jcore_soc.Vhdl.Parser.Expr.{
  segment, at_attribute, dots_from, ticks_from, parse_element_assoc, parse_paren_or_aggregate,
  parse_assoc_element, parse_args, suffixes_from, parse_name, parse_number, parse_primary_of,
  parse_primary, parse_factor, parse_term, parse_simple, parse_logical, parse_range, to_assocs,
  paren_or_aggregate, expr_string,
}

pub parse_tier_run :
    (i : ℕ) (operand : Parse Expr) (x : Expr) (s s' : State) (r : Expr × State)
    → operand s ≡ (x, s')
    → fold_from (suc (left s')) i operand x s' ≡ r
    → parse_tier i operand s ≡ r
unfolding parse_tier fold_tier
parse_tier_run i operand x s s' r e f = rw (e, f) refl

pub expect-at : (k : Kind) (s : State) → at k s ≡ true → expect k s ≡ advance s
unfolding expect
expect-at k s y = rw y refl

module _ {A : Type 0} (sep : Kind) (stop : State → Bool) (item : Parse A) where
  pub items_run :
      (s s' s'' : State) (x : A) (xs : List A)
      → item s ≡ (x, s')
      → items_from sep stop item (suc (left s')) s' ≡ (xs, s'')
      → items sep stop item s ≡ (x ∷ xs, s'')
  unfolding items more_items
  items_run s s' s'' x xs e f = rw (e, f) refl

pub unless_closed_open :
    {A : Type 0} (list : Parse (List A)) (s : State) (r : List A × State)
    → at Kind.rparen s ≡ false
    → list s ≡ r
    → unless_closed list s ≡ r
unfolding unless_closed
unless_closed_open list s r n e = rw (n, e) refl

pub unless_closed_empty :
    {A : Type 0} (list : Parse (List A)) (s : State)
    → at Kind.rparen s ≡ true
    → unless_closed list s ≡ ([], s)
unfolding unless_closed
unless_closed_empty list s y = rw y refl

module _ (self : Parse Expr) where
  pub element_positional :
      (s s' : State) (e : Expr)
      → self s ≡ (e, s')
      → at Kind.bar s' ≡ false
      → at Kind.arrow s' ≡ false
      → parse_element_assoc self s ≡ (([], e), s')
  unfolding parse_element_assoc
  element_positional s s' e h b a = rw (h, b, a) refl

  pub element_named :
      (s s1 s2 s3 : State) (c x : Expr) (cs : List Expr)
      → self s ≡ (c, s1)
      → at Kind.bar s1 || at Kind.arrow s1 ≡ true
      → items_from Kind.bar (λ _. false) self (suc (left s1)) s1 ≡ (cs, s2)
      → at Kind.arrow s2 ≡ true
      → self (advance s2) ≡ (x, s3)
      → parse_element_assoc self s ≡ ((c ∷ cs, x), s3)
  unfolding parse_element_assoc more_items
  element_named s s1 s2 s3 c x cs h b l a h' = rw (h, b, l, expect-at Kind.arrow s2 a, h') refl

  pub parens_run :
      (s s' : State) (es : List (List Expr × Expr))
      → at Kind.lparen s ≡ true
      → unless_closed (items Kind.comma (at Kind.rparen) (parse_element_assoc self)) (advance s)
        ≡ (es, s')
      → at Kind.rparen s' ≡ true
      → parse_paren_or_aggregate self s ≡ (paren_or_aggregate es, advance s')
  unfolding parse_paren_or_aggregate
  parens_run s s' es y e c = rw (expect-at Kind.lparen s y, e, expect-at Kind.rparen s' c) refl

  pub argument_actual :
      (s s' : State) (e : Expr)
      → self s ≡ (e, s')
      → at Kind.arrow s' ≡ false
      → parse_assoc_element self s ≡ (([], e), s')
  unfolding parse_assoc_element
  argument_actual s s' e h a = rw (h, a) refl

  pub argument_formal :
      (s s' s'' : State) (f x : Expr)
      → self s ≡ (f, s')
      → at Kind.arrow s' ≡ true
      → self (advance s') ≡ (x, s'')
      → parse_assoc_element self s ≡ ((expr_string f, x), s'')
  unfolding parse_assoc_element
  argument_formal s s' s'' f x h a h' = rw (h, a, h') refl

  pub args_run :
      (s s' : State) (xs : List (Bytes × Expr))
      → unless_closed (items Kind.comma (λ _. false) (parse_assoc_element self)) s ≡ (xs, s')
      → at Kind.rparen s' ≡ true
      → parse_args self s ≡ (to_assocs xs, advance s')
  unfolding parse_args
  args_run s s' xs e c = rw (e, expect-at Kind.rparen s' c) refl

  pub suffixes_from-end :
      (fuel : ℕ) (e : Expr) (s : State)
      → at Kind.lparen s ≡ false
      → at Kind.dot s ≡ false
      → at Kind.tick s ≡ false
      → suffixes_from self (suc fuel) e s ≡ (e, s)
  unfolding suffixes_from
  suffixes_from-end fuel e s p d t = rw (p, d, t) refl

  pub suffixes_from-call :
      (fuel : ℕ) (e : Expr) (s s' : State) (args : Assocs) (r : Expr × State)
      → at Kind.lparen s ≡ true
      → parse_args self (advance s) ≡ (args, s')
      → suffixes_from self fuel (Expr.call_expr e args) s' ≡ r
      → suffixes_from self (suc fuel) e s ≡ r
  unfolding suffixes_from
  suffixes_from-call fuel e s s' args r p h f = rw (p, h, f) refl

  pub suffixes_from-select :
      (fuel : ℕ) (e : Expr) (s : State) (r : Expr × State)
      → at Kind.lparen s ≡ false
      → at Kind.dot s && is_selector (peek_kind 1 s) ≡ true
      → suffixes_from self fuel
          (Expr.selector_expr e (segment (advance s).cur))
          (advance (advance s))
        ≡ r
      → suffixes_from self (suc fuel) e s ≡ r
  unfolding suffixes_from
  suffixes_from-select fuel e s r p d f = rw (p, d, f) refl

  pub suffixes_from-attribute :
      (fuel : ℕ) (e : Expr) (s : State) (r : Expr × State)
      → at Kind.lparen s ≡ false
      → at Kind.dot s ≡ false
      → at_attribute s ≡ true
      → suffixes_from self fuel
          (Expr.attribute_name e (segment (advance s).cur))
          (advance (advance s))
        ≡ r
      → suffixes_from self (suc fuel) e s ≡ r
  unfolding suffixes_from
  suffixes_from-attribute fuel e s r p d a f = rw (p, d, a, f) refl

  pub name_plain :
      (s s1 s2 s3 : State) (dotted text : Bytes) (r : Expr × State)
      → advance s ≡ s1
      → dots_from (suc (left s1)) s.cur.lit s1 ≡ (dotted, s2)
      → ticks_from (suc (left s2)) dotted s2 ≡ (text, s3)
      → at Kind.tick s3 ≡ false
      → suffixes_from self (suc (left s3)) (Expr.ident text) s3 ≡ r
      → parse_name self s ≡ r
  unfolding parse_name
  name_plain s s1 s2 s3 dotted text r a d t n f = rw (a, d, t, n, f) refl

  pub name_qualified :
      (s s1 s2 s3 : State) (dotted text : Bytes) (x : Expr) (s4 : State)
      → advance s ≡ s1
      → dots_from (suc (left s1)) s.cur.lit s1 ≡ (dotted, s2)
      → ticks_from (suc (left s2)) dotted s2 ≡ (text, s3)
      → at Kind.tick s3 && same_kind (peek_kind 1 s3) Kind.lparen ≡ true
      → parse_paren_or_aggregate self (advance s3) ≡ (x, s4)
      → parse_name self s ≡ (Expr.qualified_expr (Expr.ident text) x, s4)
  unfolding parse_name
  name_qualified s s1 s2 s3 dotted text x s4 a d t q f = rw (a, d, t, q, f) refl

  pub number_plain :
      (s s' : State)
      → advance s ≡ s'
      → at Kind.ident s' ≡ false
      → parse_number self s ≡ (Expr.basic_lit s.cur.kind s.cur.lit, s')
  unfolding parse_number
  number_plain s s' a n = rw (a, n) refl

  pub number_physical :
      (s s' : State)
      → advance s ≡ s'
      → at Kind.ident s' ≡ true
      → parse_number self s ≡ (Expr.physical_lit s.cur.lit s'.cur.lit, advance s')
  unfolding parse_number
  number_physical s s' a n = rw (a, n) refl

  pub primary_run :
      (c : PrimaryClass) (s : State) (r : Expr × State)
      → primary_class s.cur.kind ≡ c
      → parse_primary_of self c s ≡ r
      → parse_primary self s ≡ r
  unfolding parse_primary
  primary_run c s r e f = rw (e, f) refl

  pub factor_primary :
      (s s' : State) (x : Expr)
      → is_abs_not s.cur.kind ≡ false
      → parse_primary self s ≡ (x, s')
      → at Kind.exp s' ≡ false
      → parse_factor self s ≡ (x, s')
  unfolding parse_factor
  factor_primary s s' x u e n = rw (u, e, n) refl

  pub factor_unary :
      (s s' : State) (x : Expr)
      → is_abs_not s.cur.kind ≡ true
      → parse_primary self (advance s) ≡ (x, s')
      → parse_factor self s ≡ (Expr.unary_expr s.cur.kind x, s')
  unfolding parse_factor
  factor_unary s s' x u e = rw (u, e) refl

  pub factor_power :
      (s s' s'' : State) (x y : Expr)
      → is_abs_not s.cur.kind ≡ false
      → parse_primary self s ≡ (x, s')
      → at Kind.exp s' ≡ true
      → parse_primary self (advance s') ≡ (y, s'')
      → parse_factor self s ≡ (Expr.binary_expr x s'.cur.kind y, s'')
  unfolding parse_factor
  factor_power s s' s'' x y u e p f = rw (u, e, p, f) refl

  pub simple_signed :
      (s s' : State) (x : Expr) (r : Expr × State)
      → is_sign s.cur.kind ≡ true
      → parse_term self (advance s) ≡ (x, s')
      → fold_from (suc (left s')) 4 (parse_term self) (Expr.unary_expr s.cur.kind x) s' ≡ r
      → parse_simple self s ≡ r
  unfolding parse_simple fold_tier
  simple_signed s s' x r u e f = rw (u, e, f) refl

  pub range_plain :
      (s s' : State) (x : Expr)
      → parse_logical self s ≡ (x, s')
      → is_direction s'.cur.kind ≡ false
      → parse_range self s ≡ (x, s')
  unfolding parse_range
  range_plain s s' x e n = rw (e, n) refl

  pub range_run :
      (s s' s'' : State) (x y : Expr)
      → parse_logical self s ≡ (x, s')
      → is_direction s'.cur.kind ≡ true
      → parse_logical self (advance s') ≡ (y, s'')
      → parse_range self s ≡ (Expr.range_expr x s'.cur.kind y, s'')
  unfolding parse_range
  range_run s s' s'' x y e n f = rw (e, n, f) refl

  pub simple_unsigned :
      (s : State)
      → is_sign s.cur.kind ≡ false
      → parse_simple self s ≡ parse_tier 4 (parse_term self) s
  unfolding parse_simple
  simple_unsigned s n = rw n refl
