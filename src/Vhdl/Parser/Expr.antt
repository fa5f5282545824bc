-- ===== src/Vhdl/Parser/Expr.antt =====
-- tools/socgen/vhdl/parser.go: the expression grammar, from `parseExpr` to `parsePrimary`, and names.
-- `self` stands for the recursive call of `parseExpr`; `parse_expr` ties the knot with fuel.
pub mod Moves
pub mod Total
pub mod Progress
pub mod Grammar
pub mod Names
pub mod Runs
pub mod Rules
pub mod Heads
pub mod ListPhrases
pub mod NamePhrases
pub mod Rejects
pub mod Complete
use jcore_soc.Base.{
  ℕ, zero, suc, Bool, true, false, ◌&&◌, ◌||◌, List, [], ◌∷◌, ◌++◌, if◌then◌else◌, select, Bytes,
  codes,
}
use jcore_soc.Vhdl.Kind.{Kind, kind_str, is_keyword}
use jcore_soc.Vhdl.Kind.Code.{
  PrimaryClass, number, text_literal, open_paren, name, allocator, keyword, other, primary_class,
  same_kind, is_sign, is_abs_not, is_direction, is_selector,
}
use jcore_soc.Vhdl.Source.{Token}
use jcore_soc.Vhdl.Ast.{Expr, Assocs, no_assoc, assoc, Elems, no_elem, elem, Exprs, no_expr, expr}
use jcore_soc.Vhdl.Printer.{print_expr}
use jcore_soc.Vhdl.Parser.{
  State, Parse, at, advance, expect, errorf, out_of_fuel, unexpected, peek_kind, left,
}
use jcore_soc.Vhdl.Parser.Loop.{parse_tier, fold_tier, more_items, items, unless_closed}

-- `exprString`.
abbrev pub expr_string : Expr → Bytes
expr_string e = print_expr e

unfoldable pub to_exprs : List Expr → Exprs
to_exprs [] = no_expr
to_exprs (e ∷ es) = expr e (to_exprs es)

-- An element: its choices and its expression.
unfoldable pub to_elems : List (List Expr × Expr) → Elems
unfolding to_exprs
to_elems [] = no_elem
to_elems ((choices, x) ∷ es) = elem (to_exprs choices) x (to_elems es)

unfoldable pub to_assocs : List (Bytes × Expr) → Assocs
to_assocs [] = no_assoc
to_assocs ((formal, actual) ∷ more) = assoc formal actual (to_assocs more)

-- The text of a token in a name: its literal, or its kind's text where the lexer left none.
unfoldable pub segment_of : Kind → Bytes → Bytes
segment_of k [] = kind_str k
segment_of k (c ∷ s) = c ∷ s

abbrev pub segment : Token → Bytes
unfolding segment_of
segment t = segment_of t.kind t.lit

-- `isAttrNameKind`; it is asked of IDENT, EXTIDENT and the keywords.
unfoldable pub is_attr_name : Kind → Bool
unfolding is_keyword
is_attr_name Kind.ident = true
is_attr_name Kind.ext_ident = true
is_attr_name k = is_keyword k

-- The loop over `. id` of `parseName`. A dot that nothing of a name follows is consumed.
unfoldable pub dots_from : ℕ → Bytes → Parse Bytes
unfolding errorf
dots_from zero text s = (text, errorf out_of_fuel s)
dots_from (suc fuel) text s =
    let s' = advance s in
    let on = dots_from fuel (text ++ b'.' ∷ segment s'.cur) (advance s') in
    if at Kind.dot s then if is_selector s'.cur.kind then on else (text, s') else (text, s)

abbrev pub at_attribute : State → Bool
at_attribute s = at Kind.tick s && is_attr_name (peek_kind 1 s)

-- The loop over `'attr`.
unfoldable pub ticks_from : ℕ → Bytes → Parse Bytes
unfolding errorf
ticks_from zero text s = (text, errorf out_of_fuel s)
ticks_from (suc fuel) text s =
    let s' = advance s in
    let on = ticks_from fuel (text ++ b'\'' ∷ segment s'.cur) (advance s') in
    if at_attribute s then on else (text, s)

-- What one element is: a lone positional one is a parenthesised expression.
unfoldable pub paren_or_aggregate : List (List Expr × Expr) → Expr
unfolding to_elems
paren_or_aggregate (([], x) ∷ []) = Expr.paren_expr x
paren_or_aggregate es = Expr.aggregate (to_elems es)

module _ (self : Parse Expr) where
  unfoldable pub parse_element_assoc : Parse (List Expr × Expr)
  parse_element_assoc s =
      let (first, s1) = self s in
      let (choices, s2) = more_items Kind.bar (λ _. false) self s1 in
      let (x, s3) = self (expect Kind.arrow s2) in
      if at Kind.bar s1 || at Kind.arrow s1 then ((first ∷ choices, x), s3) else (([], first), s1)

  unfoldable pub parse_paren_or_aggregate : Parse Expr
  parse_paren_or_aggregate s =
      let (es, s') =
        unless_closed (items Kind.comma (at Kind.rparen) parse_element_assoc)
          (expect Kind.lparen s) in
      (paren_or_aggregate es, expect Kind.rparen s')

  unfoldable pub parse_assoc_element : Parse (Bytes × Expr)
  parse_assoc_element s =
      let (first, s') = self s in
      let (actual, s'') = self (advance s') in
      if at Kind.arrow s' then ((expr_string first, actual), s'') else (([], first), s')

  -- `parseAssocList` from behind its opening parenthesis, as `parseName` has it for a call.
  unfoldable pub parse_args : Parse Assocs
  parse_args s =
      let (args, s') = unless_closed (items Kind.comma (λ _. false) parse_assoc_element) s in
      (to_assocs args, expect Kind.rparen s')

  unfoldable pub parse_assoc_list : Parse Assocs
  parse_assoc_list s = parse_args (expect Kind.lparen s)

  -- The suffix chain of `parseName`.
  unfoldable pub suffixes_from : ℕ → Expr → Parse Expr
  suffixes_from zero e s = (e, errorf out_of_fuel s)
  suffixes_from (suc fuel) e s =
      let s' = advance s in
      let (args, s'') = parse_args s' in
      let call = suffixes_from fuel (Expr.call_expr e args) s'' in
      let select = suffixes_from fuel (Expr.selector_expr e (segment s'.cur)) (advance s') in
      let attribute = suffixes_from fuel (Expr.attribute_name e (segment s'.cur)) (advance s') in
      if at Kind.lparen s
      then call
      else if at Kind.dot s && is_selector (peek_kind 1 s)
      then select
      else if at_attribute s
      then attribute
      else (e, s)

  unfoldable pub parse_name : Parse Expr
  parse_name s =
      let s1 = advance s in
      let (dotted, s2) = dots_from (suc (left s1)) s.cur.lit s1 in
      let (text, s3) = ticks_from (suc (left s2)) dotted s2 in
      let (x, s4) = parse_paren_or_aggregate (advance s3) in
      if at Kind.tick s3 && same_kind (peek_kind 1 s3) Kind.lparen
      then (Expr.qualified_expr (Expr.ident text) x, s4)
      else suffixes_from (suc (left s3)) (Expr.ident text) s3

  -- An abstract literal, with the unit of a physical one.
  unfoldable pub parse_number : Parse Expr
  parse_number s =
      let s' = advance s in
      if at Kind.ident s'
      then (Expr.physical_lit s.cur.lit s'.cur.lit, advance s')
      else (Expr.basic_lit s.cur.kind s.cur.lit, s')

  unfoldable pub parse_primary_of : PrimaryClass → Parse Expr
  parse_primary_of number s = parse_number s
  parse_primary_of text_literal s = (Expr.basic_lit s.cur.kind s.cur.lit, advance s)
  parse_primary_of open_paren s = parse_paren_or_aggregate s
  parse_primary_of name s = parse_name s
  parse_primary_of allocator s = let (x, s') = self (advance s) in (Expr.allocator_expr x, s')
  parse_primary_of keyword s = (Expr.ident (kind_str s.cur.kind), advance s)
  parse_primary_of other s = (
    Expr.basic_lit s.cur.kind [],
    errorf (unexpected s.cur.pos s.cur.kind s.cur.lit (codes "primary")) s,
  )

  unfoldable pub parse_primary : Parse Expr
  parse_primary s = parse_primary_of (primary_class s.cur.kind) s

  unfoldable pub parse_factor : Parse Expr
  parse_factor s =
      let (operand, s1) = parse_primary (advance s) in
      let (x, s2) = parse_primary s in
      let (y, s3) = parse_primary (advance s2) in
      if is_abs_not s.cur.kind
      then (Expr.unary_expr s.cur.kind operand, s1)
      else if at Kind.exp s2
      then (Expr.binary_expr x s2.cur.kind y, s3)
      else (x, s2)

  unfoldable pub parse_term : Parse Expr
  parse_term s = parse_tier 5 parse_factor s

  unfoldable pub parse_simple : Parse Expr
  parse_simple s =
      let (x, s') = parse_term (advance s) in
      if is_sign s.cur.kind
      then fold_tier 4 parse_term (Expr.unary_expr s.cur.kind x) s'
      else parse_tier 4 parse_term s

  unfoldable pub parse_shift : Parse Expr
  parse_shift s = parse_tier 3 parse_simple s

  unfoldable pub parse_relation : Parse Expr
  parse_relation s = parse_tier 2 parse_shift s

  unfoldable pub parse_logical : Parse Expr
  parse_logical s = parse_tier 1 parse_relation s

  -- The body of `parseExpr`.
  unfoldable pub parse_range : Parse Expr
  parse_range s =
      let (l, s1) = parse_logical s in
      let (r, s2) = parse_logical (advance s1) in
      if is_direction s1.cur.kind then (Expr.range_expr l s1.cur.kind r, s2) else (l, s1)

-- One round of fuel for each expression inside another.
unfoldable pub parse_expr_from : ℕ → Parse Expr
parse_expr_from zero s = (Expr.ident [], errorf out_of_fuel s)
parse_expr_from (suc fuel) s = parse_range (parse_expr_from fuel) s

unfoldable pub parse_expr : Parse Expr
parse_expr s = parse_expr_from (suc (left s)) s

unfoldable pub parse_discrete_range : Parse Expr
parse_discrete_range s =
    let (e, s') = parse_expr s in
    let (r, s'') = parse_expr (advance s') in
    if at Kind.kw_range s' then (Expr.range_constraint e r, s'') else (e, s')
