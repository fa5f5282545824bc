-- ===== src/Vhdl/Ast.antt =====
-- tools/socgen/vhdl/ast.go: the expressions, and the statements that the address decoder is built
-- from. Positions, and the labels that generated statements do not carry, are left out.
pub mod Run
use jcore_soc.Base.{
  ℕ, zero, suc, ◌+◌, ◌-◌, ◌*◌, ◌/◌, ◌%◌, ◌^◌, ◌≤◌, ◌<◌, max, String, ◌≡◌, refl, sym, ap, subst, ◌∙◌,
  ◌≢◌, ◌↔◌, ◌⊎◌, inl, inr, Bool, true, false, not, ◌&&◌, ◌||◌, Option, none, some, List, [], ◌∷◌,
  ◌++◌, map, append_assoc, append-nil, arith, ltb, leb, ◌==◌, if◌then◌else◌, ==_iff, Bool-cases,
  Option-cases, &&-elim, is_some, length, get_elem?, get_or, take, drop, replicate, length-append,
  take-append, All, All-append, all, any, select, Bytes, codes, str_eq, str_eq_iff, str_eq_refl,
  str_lt, digits, itoa,
}
use jcore_soc.Vhdl.Kind.{Kind}

-- `[]*AssocElement` (Formal "" for a positional one), `[]*ElementAssoc` (Choices and X, no choices
-- for a positional one) and `[]Expr` are types of the block.
mutual
  pub data Expr : Type 0 where
    ident : Bytes → Expr
    basic_lit : Kind → Bytes → Expr
    physical_lit : Bytes → Bytes → Expr
    range_expr : Expr → Kind → Expr → Expr
    binary_expr : Expr → Kind → Expr → Expr
    unary_expr : Kind → Expr → Expr
    call_expr : Expr → Assocs → Expr
    selector_expr : Expr → Bytes → Expr
    attribute_name : Expr → Bytes → Expr
    paren_expr : Expr → Expr
    aggregate : Elems → Expr
    qualified_expr : Expr → Expr → Expr
    range_constraint : Expr → Expr → Expr
    allocator_expr : Expr → Expr

  pub data Assocs : Type 0 where
    no_assoc : Assocs
    assoc : Bytes → Expr → Assocs → Assocs

  pub data Elems : Type 0 where
    no_elem : Elems
    elem : Exprs → Expr → Elems → Elems

  pub data Exprs : Type 0 where
    no_expr : Exprs
    expr : Expr → Exprs → Exprs

-- `[]Stmt` and `[]*ElsifClause` are types of the block; `if_stmt` has Cond, Then, Elsifs and Else.
mutual
  pub data Stmt : Type 0 where
    comment : Bytes → Stmt
    return_stmt : Expr → Stmt
    if_stmt : Expr → Stmts → Elsifs → Stmts → Stmt

  pub data Stmts : Type 0 where
    nil : Stmts
    cons : Stmt → Stmts → Stmts

  pub data Elsifs : Type 0 where
    no_elsif : Elsifs
    elsif : Expr → Stmts → Elsifs → Elsifs

-- `append(a, b...)`.
unfoldable pub append : Stmts → Stmts → Stmts
append nil ys = ys
append (cons x xs) ys = cons x (append xs ys)
