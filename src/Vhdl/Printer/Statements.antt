-- ===== src/Vhdl/Printer/Statements.antt =====
-- tools/socgen/vhdl/printer.go: printStmt, printSeqStmts and printDecl, for the nodes that the parser
-- builds. The indentation comes first.
use jcore_soc.Base.{
  Bool, true, false, Option, some, List, [], ◌∷◌, ◌++◌, Bytes, codes, map, if◌then◌else◌,
}
use jcore_soc.Vhdl.Kind.{Kind}
use jcore_soc.Vhdl.Ast.{Expr}
use jcore_soc.Vhdl.Nodes.{
  Stmt, Stmts, no_stmt, stmt, Elsifs, no_elsif, elsif, CaseAlts, no_alt, alt, Decl, Decls, no_decl,
  decl,
}
use jcore_soc.Vhdl.Printer.{print_expr, print_subtype_indication}
use jcore_soc.Vhdl.Printer.Parts.{
  indent_unit, join, print_exprs, unless_empty, label_text, print_optional, print_delay,
  print_waveform, print_waveforms, print_selected, print_inst_map, print_map, print_arch,
  unit_kind_text, print_binding_indication, print_component_decl, print_subprogram_spec,
  print_attribute_spec_aligned, print_signature, file_text, print_type_def,
}

abbrev pub postponed_text : Bool → Bytes
postponed_text true = codes "postponed "
postponed_text false = []

abbrev pub shared_text : Bool → Bytes
shared_text true = codes "shared "
shared_text false = []

abbrev pub sensitivity_text : List Expr → Bytes
sensitivity_text [] = []
sensitivity_text (e ∷ es) = codes " (" ++ print_exprs ", " (e ∷ es) ++ codes ")"

abbrev pub wait_on_text : List Expr → Bytes
wait_on_text [] = []
wait_on_text (e ∷ es) = codes " on " ++ print_exprs ", " (e ∷ es)

-- `for param in range` or `if cond` of a generate statement.
abbrev pub generate_text : Kind → Bytes → Option Expr → Option Expr → Bytes
generate_text Kind.kw_for param range cond =
    codes "for " ++ param ++ codes " in " ++ print_optional "" range
generate_text _ param range cond = codes "if " ++ print_optional "" cond

abbrev pub scheme_text : Option Kind → Bytes → Option Expr → Option Expr → Bytes
scheme_text (some Kind.kw_for) param range cond =
    codes "for " ++ param ++ codes " in " ++ print_optional "" range ++ codes " "
scheme_text (some Kind.kw_while) param range cond =
    codes "while " ++ print_optional "" cond ++ codes " "
scheme_text _ param range cond = []

-- `begin`, where a generate statement has declarations.
abbrev pub begin_text : Bytes → Decls → Bytes
begin_text ind no_decl = []
begin_text ind (decl d ds) = ind ++ codes "begin\n"

-- The loops over lists are functions of the block.
unfoldable mutual
  pub print_stmt : Bytes → Stmt → Bytes
  print_stmt ind (Stmt.concurrent_assign label target delay wf conds) =
      label_text label
      ++ print_expr target
      ++ codes " <= "
      ++ print_delay delay
      ++ print_waveforms wf conds
      ++ codes ";"
  print_stmt ind (Stmt.instantiation label kind unit arch generic_map port_map) =
      label_text label
      ++ unit_kind_text kind
      ++ unit
      ++ print_arch arch
      ++ print_inst_map (ind ++ indent_unit) "generic map" generic_map
      ++ print_inst_map (ind ++ indent_unit) "port map" port_map
      ++ codes ";"
  print_stmt ind (Stmt.generate_stmt label kind param range cond decls stmts) =
      label_text label
      ++ generate_text kind param range cond
      ++ codes " generate\n"
      ++ print_decls ind decls
      ++ begin_text ind decls
      ++ print_seq_stmts ind stmts
      ++ ind
      ++ codes "end generate;"
  print_stmt ind (Stmt.process_stmt label postponed sensitivity decls stmts) =
      label_text label
      ++ postponed_text postponed
      ++ codes "process"
      ++ sensitivity_text sensitivity
      ++ codes "\n"
      ++ print_decls ind decls
      ++ ind
      ++ codes "begin\n"
      ++ print_seq_stmts ind stmts
      ++ ind
      ++ codes "end process;"
  print_stmt ind (Stmt.signal_assign label target delay wf) =
      label_text label
      ++ print_expr target
      ++ codes " <= "
      ++ print_delay delay
      ++ print_waveform wf
      ++ codes ";"
  print_stmt ind (Stmt.variable_assign label target value) =
      label_text label ++ print_expr target ++ codes " := " ++ print_expr value ++ codes ";"
  print_stmt ind (Stmt.null_stmt label) = label_text label ++ codes "null;"
  print_stmt ind (Stmt.if_stmt label cond then_part elsifs else_part) =
      label_text label
      ++ codes "if "
      ++ print_expr cond
      ++ codes " then\n"
      ++ print_seq_stmts ind then_part
      ++ print_elsifs ind elsifs
      ++ print_else ind else_part
      ++ ind
      ++ codes "end if;"
  print_stmt ind (Stmt.case_stmt label e alts) =
      label_text label
      ++ codes "case "
      ++ print_expr e
      ++ codes " is\n"
      ++ print_alts ind alts
      ++ ind
      ++ codes "end case;"
  print_stmt ind (Stmt.loop_stmt label scheme param range cond stmts) =
      label_text label
      ++ scheme_text scheme param range cond
      ++ codes "loop\n"
      ++ print_seq_stmts ind stmts
      ++ ind
      ++ codes "end loop;"
  print_stmt ind (Stmt.next_stmt label loop_label cond) =
      label_text label
      ++ codes "next"
      ++ unless_empty (codes " ") loop_label []
      ++ print_optional " when " cond
      ++ codes ";"
  print_stmt ind (Stmt.exit_stmt label loop_label cond) =
      label_text label
      ++ codes "exit"
      ++ unless_empty (codes " ") loop_label []
      ++ print_optional " when " cond
      ++ codes ";"
  print_stmt ind (Stmt.return_stmt label value) =
      label_text label ++ codes "return" ++ print_optional " " value ++ codes ";"
  print_stmt ind (Stmt.assert_stmt label cond report severity) =
      label_text label
      ++ codes "assert "
      ++ print_expr cond
      ++ print_optional " report " report
      ++ print_optional " severity " severity
      ++ codes ";"
  print_stmt ind (Stmt.report_stmt label report severity) =
      label_text label
      ++ codes "report "
      ++ print_expr report
      ++ print_optional " severity " severity
      ++ codes ";"
  print_stmt ind (Stmt.wait_stmt label on until time) =
      label_text label
      ++ codes "wait"
      ++ wait_on_text on
      ++ print_optional " until " until
      ++ print_optional " for " time
      ++ codes ";"
  print_stmt ind (Stmt.procedure_call label name args) =
      label_text label ++ name ++ print_map "" args ++ codes ";"
  print_stmt ind (Stmt.selected_assign label e target delay alts) =
      label_text label
      ++ codes "with "
      ++ print_expr e
      ++ codes " select "
      ++ print_expr target
      ++ codes " <= "
      ++ print_delay delay
      ++ join ", " (map print_selected alts)
      ++ codes ";"

  pub print_seq_stmts : Bytes → Stmts → Bytes
  print_seq_stmts ind no_stmt = []
  print_seq_stmts ind (stmt s ss) =
      ind
      ++ indent_unit
      ++ print_stmt (ind ++ indent_unit) s
      ++ codes "\n"
      ++ print_seq_stmts ind ss

  pub print_elsifs : Bytes → Elsifs → Bytes
  print_elsifs ind no_elsif = []
  print_elsifs ind (elsif cond body es) =
      ind
      ++ codes "elsif "
      ++ print_expr cond
      ++ codes " then\n"
      ++ print_seq_stmts ind body
      ++ print_elsifs ind es

  pub print_else : Bytes → Stmts → Bytes
  print_else ind no_stmt = []
  print_else ind (stmt s ss) =
      ind
      ++ codes "else\n"
      ++ (ind ++ indent_unit ++ print_stmt (ind ++ indent_unit) s ++ codes "\n")
      ++ print_seq_stmts ind ss

  pub print_alts : Bytes → CaseAlts → Bytes
  print_alts ind no_alt = []
  print_alts ind (alt choices body more) =
      ind
      ++ indent_unit
      ++ codes "when "
      ++ print_exprs " | " choices
      ++ codes " =>\n"
      ++ print_seq_stmts (ind ++ indent_unit) body
      ++ print_alts ind more

  pub print_decl : Bytes → Decl → Bytes
  print_decl ind (Decl.constant_decl names mark c default) =
      codes "constant "
      ++ join ", " names
      ++ codes " : "
      ++ print_subtype_indication mark c
      ++ print_optional " := " default
      ++ codes ";"
  print_decl ind (Decl.signal_decl names mark c default) =
      codes "signal "
      ++ join ", " names
      ++ codes " : "
      ++ print_subtype_indication mark c
      ++ print_optional " := " default
      ++ codes ";"
  print_decl ind (Decl.variable_decl shared names mark c default) =
      shared_text shared
      ++ codes "variable "
      ++ join ", " names
      ++ codes " : "
      ++ print_subtype_indication mark c
      ++ print_optional " := " default
      ++ codes ";"
  print_decl ind (Decl.subtype_decl name mark c) =
      codes "subtype " ++ name ++ codes " is " ++ print_subtype_indication mark c ++ codes ";"
  print_decl ind (Decl.type_decl name def) =
      codes "type " ++ name ++ codes " is " ++ print_type_def ind def
  print_decl ind (Decl.component_decl name generics ports) =
      print_component_decl ind name generics ports
  print_decl ind (Decl.attribute_decl name mark) =
      codes "attribute " ++ name ++ codes " : " ++ mark ++ codes ";"
  print_decl ind (Decl.attribute_spec name entities class value) =
      print_attribute_spec_aligned name entities class value 0 0
  print_decl ind (Decl.alias_decl name [] c target sig) =
      codes "alias "
      ++ name
      ++ codes " is "
      ++ print_expr target
      ++ print_signature sig
      ++ codes ";"
  print_decl ind (Decl.alias_decl name (m ∷ mark) c target sig) =
      codes "alias "
      ++ name
      ++ codes " : "
      ++ print_subtype_indication (m ∷ mark) c
      ++ codes " is "
      ++ print_expr target
      ++ print_signature sig
      ++ codes ";"
  print_decl ind (Decl.group_template_decl name classes) =
      codes "group " ++ name ++ codes " is (" ++ join ", " classes ++ codes ");"
  print_decl ind (Decl.group_decl name template constituents) =
      codes "group "
      ++ name
      ++ codes " : "
      ++ template
      ++ codes "("
      ++ join ", " constituents
      ++ codes ");"
  print_decl ind (Decl.config_spec insts comp binding) =
      codes "for "
      ++ join ", " insts
      ++ codes " : "
      ++ comp
      ++ codes " "
      ++ print_binding_indication binding
      ++ codes ";"
  print_decl ind (Decl.file_decl names mark mode open_mode name) =
      codes "file "
      ++ join ", " names
      ++ codes " : "
      ++ mark
      ++ file_text mode open_mode name
      ++ codes ";"
  print_decl ind (Decl.use_clause names) = codes "use " ++ join ", " names ++ codes ";"
  print_decl ind (Decl.subprogram_decl spec) = print_subprogram_spec spec ++ codes ";"
  print_decl ind (Decl.subprogram_body spec decls stmts) =
      print_subprogram_spec spec
      ++ codes " is\n"
      ++ print_decls ind decls
      ++ ind
      ++ codes "begin\n"
      ++ print_seq_stmts ind stmts
      ++ ind
      ++ (if spec.is_procedure then codes "end procedure;" else codes "end;")

  pub print_decls : Bytes → Decls → Bytes
  print_decls ind no_decl = []
  print_decls ind (decl d ds) =
      ind ++ indent_unit ++ print_decl (ind ++ indent_unit) d ++ codes "\n" ++ print_decls ind ds
