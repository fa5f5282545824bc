-- ===== src/Vhdl/Printer.antt =====
-- tools/socgen/vhdl/printer.go: the texts of expressions. What a function writes to its builder is the
-- text that it returns here.
pub mod Parts
pub mod Statements
use jcore_soc.Base.{[], ◌∷◌, ◌++◌, Bytes, codes, Option, none, some}
use jcore_soc.Vhdl.Kind.{kind_str}
use jcore_soc.Vhdl.Ast.{Expr, Assocs, no_assoc, assoc, Elems, no_elem, elem, Exprs, no_expr, expr}

-- `b.WriteString(formal)` and the arrow, unless the formal is "".
unfoldable pub formal_text : Bytes → Bytes
formal_text [] = []
formal_text (c ∷ s) = (c ∷ s) ++ codes " => "

-- The arrow of `printElementAssoc`: written when there are choices.
unfoldable pub choices_end : Exprs → Bytes
choices_end no_expr = []
choices_end (expr _ _) = codes " => "

-- The parts behind the first of a list come with their separator. The text of an element, that of
-- `print_element_assoc`, is written out in the block.
unfoldable mutual
  pub print_expr : Expr → Bytes
  print_expr (Expr.physical_lit value unit) = value ++ b' ' ∷ unit
  print_expr (Expr.basic_lit k value) = value
  print_expr (Expr.ident name) = name
  print_expr (Expr.range_expr l dir r) = print_expr l ++ b' ' ∷ kind_str dir ++ b' ' ∷ print_expr r
  print_expr (Expr.binary_expr x op y) = print_expr x ++ b' ' ∷ kind_str op ++ b' ' ∷ print_expr y
  print_expr (Expr.unary_expr op x) = kind_str op ++ b' ' ∷ print_expr x
  print_expr (Expr.call_expr f args) = print_expr f ++ b'(' ∷ print_assoc_list args ++ b')' ∷ []
  print_expr (Expr.selector_expr x sel) = print_expr x ++ b'.' ∷ sel
  print_expr (Expr.attribute_name x attr) = print_expr x ++ b'\'' ∷ attr
  print_expr (Expr.paren_expr x) = b'(' ∷ print_expr x ++ b')' ∷ []
  print_expr (Expr.aggregate es) = b'(' ∷ print_elems es ++ b')' ∷ []
  print_expr (Expr.qualified_expr mark x) = print_expr mark ++ b'\'' ∷ print_expr x
  print_expr (Expr.range_constraint mark r) = print_expr mark ++ codes " range " ++ print_expr r
  print_expr (Expr.allocator_expr x) = codes "new " ++ print_expr x

  pub print_assoc_list : Assocs → Bytes
  print_assoc_list no_assoc = []
  print_assoc_list (assoc formal actual more) =
      formal_text formal ++ print_expr actual ++ print_more_assocs more

  pub print_more_assocs : Assocs → Bytes
  print_more_assocs no_assoc = []
  print_more_assocs (assoc formal actual more) =
      codes ", " ++ formal_text formal ++ print_expr actual ++ print_more_assocs more

  pub print_elems : Elems → Bytes
  print_elems no_elem = []
  print_elems (elem choices x es) =
      (print_choices choices ++ choices_end choices ++ print_expr x) ++ print_more_elems es

  pub print_more_elems : Elems → Bytes
  print_more_elems no_elem = []
  print_more_elems (elem choices x es) =
      codes ", "
      ++ (print_choices choices ++ choices_end choices ++ print_expr x)
      ++ print_more_elems es

  pub print_choices : Exprs → Bytes
  print_choices no_expr = []
  print_choices (expr c cs) = print_expr c ++ print_more_choices cs

  pub print_more_choices : Exprs → Bytes
  print_more_choices no_expr = []
  print_more_choices (expr c cs) = codes " | " ++ print_expr c ++ print_more_choices cs

unfoldable pub print_element_assoc : Exprs → Expr → Bytes
unfolding print_expr
print_element_assoc choices x = print_choices choices ++ choices_end choices ++ print_expr x

-- The constraint of a subtype: a parenthesised one prints its own parentheses.
unfoldable pub print_constraint : Expr → Bytes
unfolding print_expr
print_constraint (Expr.paren_expr x) = print_expr (Expr.paren_expr x)
print_constraint (Expr.aggregate es) = print_expr (Expr.aggregate es)
print_constraint e = codes " range " ++ print_expr e

unfoldable pub print_subtype_indication : Bytes → Option Expr → Bytes
unfolding print_constraint
print_subtype_indication mark none = mark
print_subtype_indication mark (some c) = mark ++ print_constraint c
