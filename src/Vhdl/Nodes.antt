-- ===== src/Vhdl/Nodes.antt =====
-- tools/socgen/vhdl/ast.go: the declarations, statements and design units that the parser builds. The
-- fields stand in the order of the source; positions are left out, and a nil field is `none`. The
-- statements that the address decoder builds are those of `Vhdl.Ast`.
use jcore_soc.Base.{Bytes, Bool, List, [], ◌∷◌, Option}
use jcore_soc.Vhdl.Kind.{Kind}
use jcore_soc.Vhdl.Ast.{Expr, Assocs}

-- `InterfaceDecl`: ObjClass, Names, Mode, SubtypeMark, Constraint and Default.
pub record InterfaceDecl : Type 0 where
  pub obj_class : Bytes
  pub names : List Bytes
  pub mode : Bytes
  pub subtype_mark : Bytes
  pub constraint : Option Expr
  pub default : Option Expr

-- `DelayMechanism`: Transport and Reject.
pub record DelayMechanism : Type 0 where
  pub transport : Bool
  pub reject : Option Expr

-- `WaveformElem`: Value and After.
pub record WaveformElem : Type 0 where
  pub value : Expr
  pub after : Option Expr

-- `CondWaveform`: Waveform and Cond.
pub record CondWaveform : Type 0 where
  pub waveform : List WaveformElem
  pub cond : Option Expr

-- `SelectedWaveform`: Waveform and Choices.
pub record SelectedWaveform : Type 0 where
  pub waveform : List WaveformElem
  pub choices : List Expr

-- `BindingIndication`: UnitKind (`none` for 0), Unit, Arch, GenericMap and PortMap.
pub record BindingIndication : Type 0 where
  pub unit_kind : Option Kind
  pub unit : Bytes
  pub arch : Bytes
  pub generic_map : Assocs
  pub port_map : Assocs

-- `Signature`: Types and Return.
pub record Signature : Type 0 where
  pub types : List Bytes
  pub return : Bytes

-- `RecordField`: Names, SubtypeMark and Constraint.
pub record RecordField : Type 0 where
  pub names : List Bytes
  pub subtype_mark : Bytes
  pub constraint : Option Expr

pub data TypeDef : Type 0 where
  enum_def : List Bytes → TypeDef
  record_def : List RecordField → TypeDef
  array_def : Bytes → TypeDef
  file_type_def : Bytes → TypeDef
  access_def : Bytes → TypeDef

-- The fields of a subprogram's specification: IsProcedure, Pure, Impure, Designator, Params and
-- ReturnMark.
pub record Subprogram : Type 0 where
  pub is_procedure : Bool
  pub pure : Bool
  pub impure : Bool
  pub designator : Bytes
  pub params : List InterfaceDecl
  pub return_mark : Bytes

-- The first field of a statement is its label. `[]Stmt`, `[]Decl`, `[]*ElsifClause` and `[]*CaseAlt` are
-- types of the block.
mutual
  pub data Stmt : Type 0 where
    null_stmt : Bytes → Stmt
    if_stmt : Bytes → Expr → Stmts → Elsifs → Stmts → Stmt
    case_stmt : Bytes → Expr → CaseAlts → Stmt
    loop_stmt : Bytes → Option Kind → Bytes → Option Expr → Option Expr → Stmts → Stmt
    next_stmt : Bytes → Bytes → Option Expr → Stmt
    exit_stmt : Bytes → Bytes → Option Expr → Stmt
    return_stmt : Bytes → Option Expr → Stmt
    wait_stmt : Bytes → List Expr → Option Expr → Option Expr → Stmt
    assert_stmt : Bytes → Expr → Option Expr → Option Expr → Stmt
    report_stmt : Bytes → Expr → Option Expr → Stmt
    signal_assign : Bytes → Expr → Option DelayMechanism → List WaveformElem → Stmt
    variable_assign : Bytes → Expr → Expr → Stmt
    procedure_call : Bytes → Bytes → Assocs → Stmt
    concurrent_assign :
        Bytes → Expr → Option DelayMechanism → List WaveformElem → List CondWaveform → Stmt
    selected_assign : Bytes → Expr → Expr → Option DelayMechanism → List SelectedWaveform → Stmt
    instantiation : Bytes → Option Kind → Bytes → Bytes → Assocs → Assocs → Stmt
    generate_stmt : Bytes → Kind → Bytes → Option Expr → Option Expr → Decls → Stmts → Stmt
    process_stmt : Bytes → Bool → List Expr → Decls → Stmts → Stmt

  pub data Stmts : Type 0 where
    no_stmt : Stmts
    stmt : Stmt → Stmts → Stmts

  pub data Elsifs : Type 0 where
    no_elsif : Elsifs
    elsif : Expr → Stmts → Elsifs → Elsifs

  pub data CaseAlts : Type 0 where
    no_alt : CaseAlts
    alt : List Expr → Stmts → CaseAlts → CaseAlts

  pub data Decl : Type 0 where
    constant_decl : List Bytes → Bytes → Option Expr → Option Expr → Decl
    signal_decl : List Bytes → Bytes → Option Expr → Option Expr → Decl
    variable_decl : Bool → List Bytes → Bytes → Option Expr → Option Expr → Decl
    subtype_decl : Bytes → Bytes → Option Expr → Decl
    type_decl : Bytes → Option TypeDef → Decl
    component_decl : Bytes → List InterfaceDecl → List InterfaceDecl → Decl
    subprogram_decl : Subprogram → Decl
    subprogram_body : Subprogram → Decls → Stmts → Decl
    attribute_spec : Bytes → List Bytes → Kind → Expr → Decl
    attribute_decl : Bytes → Bytes → Decl
    alias_decl : Bytes → Bytes → Option Expr → Expr → Option Signature → Decl
    group_template_decl : Bytes → List Bytes → Decl
    group_decl : Bytes → Bytes → List Bytes → Decl
    file_decl : List Bytes → Bytes → Bytes → Option Expr → Option Expr → Decl
    use_clause : List Bytes → Decl
    config_spec : List Bytes → Bytes → BindingIndication → Decl

  pub data Decls : Type 0 where
    no_decl : Decls
    decl : Decl → Decls → Decls

unfoldable pub to_stmts : List Stmt → Stmts
to_stmts [] = no_stmt
to_stmts (x ∷ xs) = stmt x (to_stmts xs)

unfoldable pub to_decls : List Decl → Decls
to_decls [] = no_decl
to_decls (x ∷ xs) = decl x (to_decls xs)

unfoldable pub to_elsifs : List (Expr × Stmts) → Elsifs
to_elsifs [] = no_elsif
to_elsifs ((c, body) ∷ xs) = elsif c body (to_elsifs xs)

unfoldable pub to_alts : List (List Expr × Stmts) → CaseAlts
to_alts [] = no_alt
to_alts ((choices, body) ∷ xs) = alt choices body (to_alts xs)

-- `BlockConfig` (Spec, Uses, Items) and `ComponentConfig` (Insts, Comp, Binding, Block). A block of a
-- component is the configuration item read for it, kept if it is a block.
mutual
  pub data ConfigItem : Type 0 where
    block_config : Bytes → List (List Bytes) → ConfigItems → ConfigItem
    component_config : List Bytes → Bytes → Option BindingIndication → ConfigItems → ConfigItem

  pub data ConfigItems : Type 0 where
    no_item : ConfigItems
    item : ConfigItem → ConfigItems → ConfigItems

unfoldable pub to_items : List ConfigItem → ConfigItems
to_items [] = no_item
to_items (x ∷ xs) = item x (to_items xs)

pub data DesignUnit : Type 0 where
  package_decl : Bytes → Decls → DesignUnit
  package_body : Bytes → Decls → DesignUnit
  entity_decl : Bytes → List InterfaceDecl → List InterfaceDecl → Decls → Stmts → DesignUnit
  architecture_body : Bytes → Bytes → Decls → Stmts → DesignUnit
  configuration_decl : Bytes → Bytes → List (List Bytes) → Option ConfigItem → DesignUnit

pub data ContextClause : Type 0 where
  library_clause : List Bytes → ContextClause
  context_use : List Bytes → ContextClause

pub record DesignFile : Type 0 where
  pub context : List ContextClause
  pub units : List DesignUnit
