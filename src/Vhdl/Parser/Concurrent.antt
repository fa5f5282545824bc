-- ===== src/Vhdl/Parser/Concurrent.antt =====
-- tools/socgen/vhdl/parser.go: concurrent statements. `self` stands for the recursive call of
-- `parseConcurrentStmt`.
pub mod Moves
use jcore_soc.Base.{
  ℕ, zero, suc, Bool, true, false, Option, none, some, List, [], ◌∷◌, if◌then◌else◌, Bytes, codes,
}
use jcore_soc.Vhdl.Kind.{Kind}
use jcore_soc.Vhdl.Ast.{Expr}
use jcore_soc.Vhdl.Nodes.{CondWaveform, SelectedWaveform, Stmt, to_stmts, to_decls}
use jcore_soc.Vhdl.Parser.{State, Parse, at, advance, errorf, out_of_fuel, left}
use jcore_soc.Vhdl.Parser.Loop.{unless_closed}
use jcore_soc.Vhdl.Parser.Expr.{parse_expr, parse_discrete_range, expr_string}
use jcore_soc.Vhdl.Parser.Monad.{
  ◌>>=◌, ◌>>◌, value, advancing, accepting, expecting, identifier, when_at, skipping_kind, guarded,
  comma_list, dispatch, closing, parse_label, is_end, is_begin_end,
}
use jcore_soc.Vhdl.Parser.Common.{
  parse_dotted_name, name_phrase, parse_choices, parse_waveform, parse_delay_mechanism, map_part,
  arch_part,
}
use jcore_soc.Vhdl.Parser.Sequential.{parse_assert_stmt, deferred, parse_sequential_stmt}
use jcore_soc.Vhdl.Parser.Declarations.{parse_decl}

-- The labels of the `switch` in `parseConcurrentStmt`, and the statements behind it.
pub data ConcClass : Type 0 where
  deferred_class with_class assert_class process_class for_class if_class entity_class : ConcClass
  component_class configuration_class name_class : ConcClass

unfoldable pub conc_class : Kind → ConcClass
conc_class Kind.kw_block = deferred_class
conc_class Kind.kw_generate = deferred_class
conc_class Kind.kw_with = with_class
conc_class Kind.kw_assert = assert_class
conc_class Kind.kw_postponed = process_class
conc_class Kind.kw_process = process_class
conc_class Kind.kw_for = for_class
conc_class Kind.kw_if = if_class
conc_class Kind.kw_entity = entity_class
conc_class Kind.kw_component = component_class
conc_class Kind.kw_configuration = configuration_class
conc_class _ = name_class

-- A token that is not the first of a declaration, `!isDeclStart(k)`.
unfoldable pub no_decl_start : Kind → Bool
no_decl_start Kind.kw_constant = false
no_decl_start Kind.kw_signal = false
no_decl_start Kind.kw_variable = false
no_decl_start Kind.kw_shared = false
no_decl_start Kind.kw_subtype = false
no_decl_start Kind.kw_type = false
no_decl_start Kind.kw_component = false
no_decl_start Kind.kw_function = false
no_decl_start Kind.kw_procedure = false
no_decl_start Kind.kw_pure = false
no_decl_start Kind.kw_impure = false
no_decl_start Kind.kw_attribute = false
no_decl_start Kind.kw_alias = false
no_decl_start Kind.kw_group = false
no_decl_start Kind.kw_file = false
no_decl_start Kind.kw_use = false
no_decl_start _ = true

unfoldable pub selected_waveform : Parse SelectedWaveform
selected_waveform = do
  waveform ← parse_waveform
  expecting Kind.kw_when
  choices ← parse_choices
  value record { waveform = waveform; choices = choices }

unfoldable pub parse_selected_assign : Bytes → Parse (Option Stmt)
parse_selected_assign label = do
  expecting Kind.kw_with
  sel ← parse_expr
  expecting Kind.kw_select
  target ← name_phrase
  expecting Kind.less_eq
  delay ← parse_delay_mechanism
  alts ← comma_list selected_waveform
  expecting Kind.semicolon
  value (some (Stmt.selected_assign label sel target delay alts))

unfoldable pub sensitivity : Parse (List Expr)
sensitivity =
    when_at Kind.lparen
      (do names ← unless_closed (comma_list name_phrase); expecting Kind.rparen; value names)
      (value [])

unfoldable pub parse_process : Bytes → Parse (Option Stmt)
parse_process label = do
  postponed ← accepting Kind.kw_postponed
  expecting Kind.kw_process
  names ← sensitivity
  accepting Kind.kw_is
  decls ← guarded is_begin_end (codes "process declaration") parse_decl
  expecting Kind.kw_begin
  stmts ← guarded is_end (codes "sequential statement") parse_sequential_stmt
  expecting Kind.kw_end
  accepting Kind.kw_postponed
  expecting Kind.kw_process
  skipping_kind Kind.ident
  expecting Kind.semicolon
  value (some (Stmt.process_stmt label postponed names (to_decls decls) (to_stmts stmts)))

unfoldable pub finish_instantiation : Bytes → Option Kind → Bytes → Bytes → Parse (Option Stmt)
finish_instantiation label kind unit arch = do
  generics ← map_part Kind.kw_generic
  ports ← map_part Kind.kw_port
  expecting Kind.semicolon
  value (some (Stmt.instantiation label kind unit arch generics ports))

-- `for p.accept(ELSE) { ... }`: an arm without a condition is the last.
unfoldable pub else_arms_from : ℕ → Parse (List CondWaveform)
unfolding errorf
else_arms_from zero s = ([], errorf out_of_fuel s)
else_arms_from (suc fuel) s =
    let (w, s1) = parse_waveform (advance s) in
    let (c, s2) = parse_expr (advance s1) in
    let (arms, s3) = else_arms_from fuel s2 in
    if at Kind.kw_else s
    then if at Kind.kw_when s1
      then (record { waveform = w; cond = some c } ∷ arms, s3)
      else (record { waveform = w; cond = none } ∷ [], s1)
    else ([], s)

unfoldable pub else_arms : Parse (List CondWaveform)
unfolding else_arms_from
else_arms s = else_arms_from (suc (left s)) s

unfoldable pub concurrent_assign : Bytes → Expr → Parse (Option Stmt)
concurrent_assign label target = do
  delay ← parse_delay_mechanism
  waveform ← parse_waveform
  when_at Kind.kw_when
      (do
        c ← parse_expr
        arms ← else_arms
        expecting Kind.semicolon
        value (
            some (
              Stmt.concurrent_assign label target delay []
                (record { waveform = waveform; cond = some c } ∷ arms))))
      (do
        expecting Kind.semicolon
        value (some (Stmt.concurrent_assign label target delay waveform [])))

unfoldable pub deferred_concurrent : Parse (Option Stmt)
deferred_concurrent = deferred (codes "concurrent statement")

-- A procedure call, or an instance of a component with a label and a plain name.
unfoldable pub call_or_instance : Bytes → Expr → Parse (Option Stmt)
call_or_instance label (Expr.call_expr f args) =
    when_at Kind.semicolon (value (some (Stmt.procedure_call label (expr_string f) args)))
      deferred_concurrent
call_or_instance [] (Expr.ident name) = deferred_concurrent
call_or_instance (c ∷ label) (Expr.ident name) = finish_instantiation (c ∷ label) none name []
call_or_instance label _ = deferred_concurrent

unfoldable pub named_statement : Bytes → Parse (Option Stmt)
named_statement label = do
  target ← name_phrase
  when_at Kind.less_eq (concurrent_assign label target) (call_or_instance label target)

module _ (self : Parse (Option Stmt)) where
  -- `parseGenerate` from its `generate` on.
  unfoldable pub generate_rest :
      Bytes → Kind → Bytes → Option Expr → Option Expr → Parse (Option Stmt)
  generate_rest label kind param range cond = do
    expecting Kind.kw_generate
    decls ← guarded no_decl_start (codes "generate declaration") parse_decl
    accepting Kind.kw_begin
    stmts ← guarded is_end (codes "generate statement") self
    closing Kind.kw_generate
    value (some (Stmt.generate_stmt label kind param range cond (to_decls decls) (to_stmts stmts)))

  unfoldable pub for_generate : Bytes → Parse (Option Stmt)
  for_generate label = do
    param ← identifier
    expecting Kind.kw_in
    r ← parse_discrete_range
    generate_rest label Kind.kw_for param (some r) none

  unfoldable pub if_generate : Bytes → Parse (Option Stmt)
  if_generate label = do c ← parse_expr; generate_rest label Kind.kw_if [] none (some c)

  unfoldable pub parse_conc_of : Bytes → ConcClass → Parse (Option Stmt)
  parse_conc_of label deferred_class = deferred_concurrent
  parse_conc_of label with_class = parse_selected_assign label
  parse_conc_of label assert_class = parse_assert_stmt label
  parse_conc_of label process_class = parse_process label
  parse_conc_of label for_class = do advancing; for_generate label
  parse_conc_of label if_class = do advancing; if_generate label
  parse_conc_of label entity_class = do
    advancing
    unit ← parse_dotted_name
    arch ← arch_part
    finish_instantiation label (some Kind.kw_entity) unit arch
  parse_conc_of label component_class = do
    advancing
    unit ← parse_dotted_name
    finish_instantiation label (some Kind.kw_component) unit []
  parse_conc_of label configuration_class = do
    advancing
    unit ← parse_dotted_name
    finish_instantiation label (some Kind.kw_configuration) unit []
  parse_conc_of label name_class = named_statement label

  unfoldable pub conc_round : Parse (Option Stmt)
  conc_round = do label ← parse_label; dispatch (λ k. parse_conc_of label (conc_class k))

-- One round of fuel for each generate statement inside another.
unfoldable pub parse_conc_from : ℕ → Parse (Option Stmt)
unfolding errorf
parse_conc_from zero s = (none, errorf out_of_fuel s)
parse_conc_from (suc fuel) s = conc_round (parse_conc_from fuel) s

unfoldable pub parse_concurrent_stmt : Parse (Option Stmt)
unfolding parse_conc_from
parse_concurrent_stmt s = parse_conc_from (suc (left s)) s
