-- ===== src/Vhdl/Ast/Run.antt =====
-- What a VHDL function body returns: statements run in order up to the first return. The values of
-- names and of equality tests are those of a simulator, `holds` and the text of the returned name.
use jcore_soc.Base.{
  ◌-◌, ◌≡◌, refl, ap, ◌∙◌, Bool, false, Option, none, some, [], ◌∷◌, if◌then◌else◌, length, take,
  Bytes, str_eq,
}
use jcore_soc.Vhdl.Kind.{Kind}
use jcore_soc.Vhdl.Ast.{
  Expr, ident, basic_lit, binary_expr, Stmt, comment, return_stmt, if_stmt, Stmts, nil, cons,
  Elsifs, no_elsif, elsif, append,
}

-- A literal's value is its text without the quotes.
abbrev pub unquoted : Bytes → Bytes
unquoted [] = []
unquoted (q ∷ s) = take (length s - 1) s

module _ (names : Bytes → Bytes) where
  -- A test compares the bits that a name stands for with a literal.
  abbrev pub holds : Expr → Bool
  holds (binary_expr (ident n) Kind.equal (basic_lit k v)) = str_eq (names n) (unquoted v)
  holds _ = false

  abbrev pub returned : Expr → Bytes
  returned (ident n) = n
  returned _ = []

abbrev pub or_else : Option Bytes → Option Bytes → Option Bytes
or_else (some v) o = some v
or_else none o = o

-- The text returned, or `none` where the statements end without a return.
unfoldable mutual
  pub run_stmt : (Bytes → Bytes) → Stmt → Option Bytes
  run_stmt names (comment t) = none
  run_stmt names (return_stmt e) = some (returned names e)
  run_stmt names (if_stmt c then_body elsifs else_body) =
      if holds names c
      then run_stmts names then_body
      else run_elsifs names elsifs (run_stmts names else_body)

  pub run_stmts : (Bytes → Bytes) → Stmts → Option Bytes
  run_stmts names nil = none
  run_stmts names (cons s rest) = or_else (run_stmt names s) (run_stmts names rest)

  pub run_elsifs : (Bytes → Bytes) → Elsifs → Option Bytes → Option Bytes
  run_elsifs names no_elsif els = els
  run_elsifs names (elsif c body more) els =
      if holds names c then run_stmts names body else run_elsifs names more els

pub run_stmts-append :
    (names : Bytes → Bytes) (xs ys : Stmts)
    → run_stmts names (append xs ys) ≡ or_else (run_stmts names xs) (run_stmts names ys)
unfolding run_stmts append
run_stmts-append names nil ys = refl
run_stmts-append names (cons x xs) ys =
    ap (or_else (run_stmt names x)) (run_stmts-append names xs ys)
    ∙ or_else_assoc (run_stmt names x) (run_stmts names xs) (run_stmts names ys)
  where
    or_else_assoc : (a b c : Option Bytes) → or_else a (or_else b c) ≡ or_else (or_else a b) c
    or_else_assoc none b c = refl
    or_else_assoc (some v) b c = refl
