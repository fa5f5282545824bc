-- ===== src/Vhdl/Parser/Declarations.antt =====
-- tools/socgen/vhdl/parser.go: declarations. `self` stands for the recursive call of `parseDecl`.
pub mod Moves
use jcore_soc.Base.{
  ℕ, zero, suc, Bool, true, false, ◌||◌, Option, none, some, List, [], ◌∷◌, ◌++◌, if◌then◌else◌,
  Bytes, codes,
}
use jcore_soc.Vhdl.Kind.{Kind, kind_str, is_keyword}
use jcore_soc.Vhdl.Ast.{Expr}
use jcore_soc.Vhdl.Nodes.{
  InterfaceDecl, Subprogram, RecordField, TypeDef, Decl, Signature, to_decls,
}
use jcore_soc.Vhdl.Parser.{State, Parse, at, advance, errorf, out_of_fuel, left}
use jcore_soc.Vhdl.Parser.Expr.{segment, parse_expr}
use jcore_soc.Vhdl.Parser.Monad.{
  ◌>>=◌, ◌>>◌, value, current, at_kind, advancing, accepting, expecting, identifier, reporting,
  when_at, optional, skipping_kind, guarded, comma_list, dispatch, reporting_at, is_end,
  is_begin_end,
}
use jcore_soc.Vhdl.Parser.Common.{
  parse_dotted_name, parse_name_list, name_phrase, parse_subtype_indication, keyword_text,
  parse_interface_list, interface_part, parse_use_clause, parse_binding_indication, name_or_all,
  parse_signature, parse_enum_lit, parse_entity_class_entry,
}
use jcore_soc.Vhdl.Parser.Sequential.{seq_stmts_until}

-- The labels of the `switch` in `parseDecl`, and its default.
pub data DeclClass : Type 0 where
  constant_class signal_class variable_class shared_class subtype_class type_class : DeclClass
  component_class subprogram_class attribute_class alias_class group_class file_class : DeclClass
  use_class for_class no_class : DeclClass

unfoldable pub decl_class : Kind → DeclClass
decl_class Kind.kw_constant = constant_class
decl_class Kind.kw_signal = signal_class
decl_class Kind.kw_variable = variable_class
decl_class Kind.kw_shared = shared_class
decl_class Kind.kw_subtype = subtype_class
decl_class Kind.kw_type = type_class
decl_class Kind.kw_component = component_class
decl_class Kind.kw_function = subprogram_class
decl_class Kind.kw_procedure = subprogram_class
decl_class Kind.kw_pure = subprogram_class
decl_class Kind.kw_impure = subprogram_class
decl_class Kind.kw_attribute = attribute_class
decl_class Kind.kw_alias = alias_class
decl_class Kind.kw_group = group_class
decl_class Kind.kw_file = file_class
decl_class Kind.kw_use = use_class
decl_class Kind.kw_for = for_class
decl_class _ = no_class

-- `names : subtype [:= default] ;`, which constants, signals and variables share.
unfoldable pub object_rest :
    (List Bytes → Bytes → Option Expr → Option Expr → Decl) → Parse (Option Decl)
object_rest node = do
  names ← parse_name_list
  expecting Kind.colon
  subtype ← parse_subtype_indication
  default ← optional Kind.assign parse_expr
  expecting Kind.semicolon
  value (some (node names subtype.0 subtype.1 default))

unfoldable pub parse_constant_or_signal :
    (List Bytes → Bytes → Option Expr → Option Expr → Decl) → Parse (Option Decl)
parse_constant_or_signal node = do advancing; object_rest node

unfoldable pub parse_variable_decl : Parse (Option Decl)
parse_variable_decl = do expecting Kind.kw_variable; object_rest (Decl.variable_decl false)

unfoldable pub parse_shared_variable_decl : Parse (Option Decl)
parse_shared_variable_decl = do
  expecting Kind.kw_shared
  expecting Kind.kw_variable
  object_rest (Decl.variable_decl true)

unfoldable pub parse_subtype_decl : Parse (Option Decl)
parse_subtype_decl = do
  expecting Kind.kw_subtype
  name ← identifier
  expecting Kind.kw_is
  subtype ← parse_subtype_indication
  expecting Kind.semicolon
  value (some (Decl.subtype_decl name subtype.0 subtype.1))

unfoldable pub parse_record_field : Parse (Option RecordField)
parse_record_field = do
  names ← parse_name_list
  expecting Kind.colon
  subtype ← parse_subtype_indication
  expecting Kind.semicolon
  value (some (record { names = names; subtype_mark = subtype.0; constraint = subtype.1 }))

-- The loop `for !p.at(SEMICOLON) && !p.at(EOF)`: the texts of the tokens passed.
unfoldable pub texts_from : ℕ → Parse (List Bytes)
unfolding errorf
texts_from zero s = ([], errorf out_of_fuel s)
texts_from (suc fuel) s =
    let (texts, s') = texts_from fuel (advance s) in
    if at Kind.semicolon s || at Kind.eof s then ([], s) else (segment s.cur ∷ texts, s')

unfoldable pub texts_to_semicolon : Parse (List Bytes)
unfolding texts_from
texts_to_semicolon s = texts_from (suc (left s)) s

-- `strings.Join(parts, " ")`.
unfoldable pub join_blank : List Bytes → Bytes
join_blank [] = []
join_blank (x ∷ []) = x
join_blank (x ∷ y ∷ ys) = x ++ b' ' ∷ join_blank (y ∷ ys)

unfoldable pub parse_array_def : Parse (Option TypeDef)
parse_array_def = do texts ← texts_to_semicolon; value (some (TypeDef.array_def (join_blank texts)))

unfoldable pub parse_type_def : Parse (Option TypeDef)
parse_type_def = do
  array ← at_kind Kind.kw_array
  if array
      then parse_array_def
      else when_at Kind.lparen
          (do
            lits ← comma_list parse_enum_lit
            expecting Kind.rparen
            value (some (TypeDef.enum_def lits)))
          (when_at Kind.kw_record
            (do
              fields ← guarded is_end (codes "record field") parse_record_field
              expecting Kind.kw_end
              accepting Kind.kw_record
              skipping_kind Kind.ident
              value (some (TypeDef.record_def fields)))
            (when_at Kind.kw_file
              (do
                expecting Kind.kw_of
                mark ← parse_dotted_name
                value (some (TypeDef.file_type_def mark)))
              (when_at Kind.kw_access
                (do subtype ← parse_subtype_indication; value (some (TypeDef.access_def subtype.0)))
                (do reporting (codes "type definition"); texts_to_semicolon; value none))))

unfoldable pub parse_type_decl : Parse (Option Decl)
parse_type_decl = do
  expecting Kind.kw_type
  name ← identifier
  expecting Kind.kw_is
  def ← parse_type_def
  expecting Kind.semicolon
  value (some (Decl.type_decl name def))

unfoldable pub parse_component_decl : Parse (Option Decl)
parse_component_decl = do
  expecting Kind.kw_component
  name ← identifier
  accepting Kind.kw_is
  generics ← interface_part Kind.kw_generic
  ports ← interface_part Kind.kw_port
  expecting Kind.kw_end
  accepting Kind.kw_component
  skipping_kind Kind.ident
  expecting Kind.semicolon
  value (some (Decl.component_decl name generics ports))

-- An entity class is a keyword; any other token is reported behind it.
unfoldable pub entity_class : Parse Kind
entity_class = do
  t ← advancing
  if is_keyword t.kind
      then value t.kind
      else (do reporting_at t (codes "entity class"); value t.kind)

unfoldable pub parse_attribute : Parse (Option Decl)
parse_attribute = do
  expecting Kind.kw_attribute
  name ← identifier
  when_at Kind.kw_of
      (do
        entities ← comma_list (name_or_all (codes "entity name"))
        expecting Kind.colon
        class ← entity_class
        expecting Kind.kw_is
        x ← parse_expr
        expecting Kind.semicolon
        value (some (Decl.attribute_spec name entities class x)))
      (do
        expecting Kind.colon
        mark ← parse_dotted_name
        expecting Kind.semicolon
        value (some (Decl.attribute_decl name mark)))

unfoldable pub alias_signature : Parse (Option Signature)
alias_signature = do
  opens ← at_kind Kind.lbracket
  if opens then (do s ← parse_signature; value (some s)) else value none

unfoldable pub parse_alias_decl : Parse (Option Decl)
parse_alias_decl = do
  expecting Kind.kw_alias
  name ← identifier
  subtype ← when_at Kind.colon parse_subtype_indication (value ([], none))
  expecting Kind.kw_is
  target ← name_phrase
  signature ← alias_signature
  expecting Kind.semicolon
  value (some (Decl.alias_decl name subtype.0 subtype.1 target signature))

unfoldable pub parse_group_decl : Parse (Option Decl)
parse_group_decl = do
  expecting Kind.kw_group
  name ← identifier
  when_at Kind.kw_is
      (do
        expecting Kind.lparen
        classes ← comma_list parse_entity_class_entry
        expecting Kind.rparen
        expecting Kind.semicolon
        value (some (Decl.group_template_decl name classes)))
      (do
        expecting Kind.colon
        template ← parse_dotted_name
        expecting Kind.lparen
        constituents ← comma_list parse_dotted_name
        expecting Kind.rparen
        expecting Kind.semicolon
        value (some (Decl.group_decl name template constituents)))

unfoldable pub is_file_mode : Kind → Bool
is_file_mode Kind.kw_in = true
is_file_mode Kind.kw_out = true
is_file_mode _ = false

-- Mode, OpenMode and LogicalName.
unfoldable pub file_open : Parse (Bytes × Option Expr × Option Expr)
file_open =
    when_at Kind.kw_open
      (do
        mode ← parse_expr
        expecting Kind.kw_is
        logical ← parse_expr
        value ([], some mode, some logical))
      (when_at Kind.kw_is
        (do
          mode ← keyword_text is_file_mode
          logical ← parse_expr
          value (mode, none, some logical))
        (value ([], none, none)))

unfoldable pub parse_file_decl : Parse (Option Decl)
parse_file_decl = do
  expecting Kind.kw_file
  names ← parse_name_list
  expecting Kind.colon
  mark ← parse_dotted_name
  opened ← file_open
  expecting Kind.semicolon
  value (some (Decl.file_decl names mark opened.0 opened.1 opened.2))

unfoldable pub parse_config_spec : Parse (Option Decl)
parse_config_spec = do
  expecting Kind.kw_for
  insts ← comma_list (name_or_all (codes "configuration spec name"))
  expecting Kind.colon
  comp ← parse_dotted_name
  binding ← parse_binding_indication
  value (some (Decl.config_spec insts comp binding))

unfoldable pub is_designator : Kind → Bool
is_designator Kind.ident = true
is_designator Kind.ext_ident = true
is_designator Kind.string_lit = true
is_designator _ = false

unfoldable pub parse_designator : Parse Bytes
parse_designator = do
  t ← current
  if is_designator t.kind
      then (do advancing; value t.lit)
      else (do reporting (codes "subprogram designator"); advancing; value [])

unfoldable pub closing_designator : Parse Unit
closing_designator = do
  t ← current
  if is_designator t.kind then (do advancing; value tt) else value tt

unfoldable pub subprogram_params : Parse (List InterfaceDecl)
subprogram_params = do opens ← at_kind Kind.lparen; if opens then parse_interface_list else value []

-- A subprogram up to its `is` or its semicolon.
unfoldable pub subprogram_spec : Parse Subprogram
subprogram_spec = do
  pure ← accepting Kind.kw_pure
  impure ← if pure then value false else accepting Kind.kw_impure
  is_procedure ← accepting Kind.kw_procedure
  if is_procedure then value tt else (do expecting Kind.kw_function; value tt)
  designator ← parse_designator
  params ← subprogram_params
  return ← if is_procedure then value [] else (do expecting Kind.kw_return; parse_dotted_name)
  value record {
    is_procedure = is_procedure;
    pure = pure;
    impure = impure;
    designator = designator;
    params = params;
    return_mark = return;
  }

module _ (self : Parse (Option Decl)) where
  unfoldable pub subprogram_body : Subprogram → Parse (Option Decl)
  subprogram_body spec = do
    decls ← guarded is_begin_end (codes "subprogram declaration") self
    expecting Kind.kw_begin
    stmts ← seq_stmts_until is_end
    expecting Kind.kw_end
    accepting Kind.kw_function
    accepting Kind.kw_procedure
    closing_designator
    expecting Kind.semicolon
    value (some (Decl.subprogram_body spec (to_decls decls) stmts))

  unfoldable pub parse_subprogram_decl : Parse (Option Decl)
  parse_subprogram_decl = do
    spec ← subprogram_spec
    when_at Kind.kw_is (subprogram_body spec)
        (do expecting Kind.semicolon; value (some (Decl.subprogram_decl spec)))

  unfoldable pub parse_decl_of : DeclClass → Parse (Option Decl)
  parse_decl_of constant_class = parse_constant_or_signal Decl.constant_decl
  parse_decl_of signal_class = parse_constant_or_signal Decl.signal_decl
  parse_decl_of variable_class = parse_variable_decl
  parse_decl_of shared_class = parse_shared_variable_decl
  parse_decl_of subtype_class = parse_subtype_decl
  parse_decl_of type_class = parse_type_decl
  parse_decl_of component_class = parse_component_decl
  parse_decl_of subprogram_class = parse_subprogram_decl
  parse_decl_of attribute_class = parse_attribute
  parse_decl_of alias_class = parse_alias_decl
  parse_decl_of group_class = parse_group_decl
  parse_decl_of file_class = parse_file_decl
  parse_decl_of use_class = do names ← parse_use_clause; value (some (Decl.use_clause names))
  parse_decl_of for_class = parse_config_spec
  parse_decl_of no_class = do reporting (codes "declaration"); advancing; value none

  unfoldable pub decl_round : Parse (Option Decl)
  decl_round = dispatch (λ k. parse_decl_of (decl_class k))

-- One round of fuel for each subprogram inside another.
unfoldable pub parse_decl_from : ℕ → Parse (Option Decl)
unfolding errorf
parse_decl_from zero s = (none, errorf out_of_fuel s)
parse_decl_from (suc fuel) s = decl_round (parse_decl_from fuel) s

unfoldable pub parse_decl : Parse (Option Decl)
unfolding parse_decl_from
parse_decl s = parse_decl_from (suc (left s)) s
