-- ===== src/Vhdl/Printer/Parts.antt =====
-- tools/socgen/vhdl/printer.go: the parts of statements and declarations.
use jcore_soc.Base.{
  Bool, true, false, Option, none, some, List, [], ◌∷◌, ◌++◌, map, ◌-◌, ℕ, length, replicate, Bytes,
  codes, String,
}
use jcore_soc.Vhdl.Kind.{Kind, kind_str}
use jcore_soc.Vhdl.Ast.{Expr, Assocs, no_assoc, assoc}
use jcore_soc.Vhdl.Nodes.{
  InterfaceDecl, DelayMechanism, WaveformElem, CondWaveform, SelectedWaveform, BindingIndication,
  Signature, RecordField, TypeDef, Subprogram,
}
use jcore_soc.Vhdl.Printer.{print_expr, print_assoc_list, print_subtype_indication, formal_text}

abbrev pub indent_unit : Bytes
indent_unit = codes "    "

-- `strings.Join`, and the loops that write a separator before all parts but the first.
unfoldable pub join : String → List Bytes → Bytes
join sep [] = []
join sep (s ∷ []) = s
join sep (s ∷ t ∷ ss) = s ++ codes sep ++ join sep (t ∷ ss)

abbrev pub print_exprs : String → List Expr → Bytes
print_exprs sep es = join sep (map print_expr es)

-- A text with what stands before it or behind it, unless it is "".
abbrev pub unless_empty : Bytes → Bytes → Bytes → Bytes
unless_empty before [] after = []
unless_empty before (c ∷ s) after = before ++ (c ∷ s) ++ after

abbrev pub label_text : Bytes → Bytes
label_text label = unless_empty [] label (codes " : ")

-- A nil expression prints nothing.
abbrev pub print_optional : String → Option Expr → Bytes
print_optional before none = []
print_optional before (some e) = codes before ++ print_expr e

abbrev pub delay_text : Bool → Option Expr → Bytes
delay_text true reject = codes "transport "
delay_text false (some e) = codes "reject " ++ print_expr e ++ codes " inertial "
delay_text false none = codes "inertial "

abbrev pub print_delay : Option DelayMechanism → Bytes
print_delay none = []
print_delay (some d) = delay_text d.transport d.reject

abbrev pub print_waveform_elem : WaveformElem → Bytes
print_waveform_elem el = print_expr el.value ++ print_optional " after " el.after

unfoldable pub print_waveform : List WaveformElem → Bytes
print_waveform wf = join ", " (map print_waveform_elem wf)

abbrev pub print_cond_waveform : CondWaveform → Bytes
print_cond_waveform c = print_waveform c.waveform ++ print_optional " when " c.cond

-- The waveform of an assignment, or its conditional waveforms.
abbrev pub print_waveforms : List WaveformElem → List CondWaveform → Bytes
print_waveforms [] conds = join " else " (map print_cond_waveform conds)
print_waveforms (w ∷ ws) conds = print_waveform (w ∷ ws)

abbrev pub print_selected : SelectedWaveform → Bytes
print_selected a = print_waveform a.waveform ++ codes " when " ++ print_exprs " | " a.choices

-- The associations of `printInstMap`, one on a line.
unfoldable pub inst_map_lines : Bytes → Assocs → Bytes
inst_map_lines ind no_assoc = []
inst_map_lines ind (assoc formal actual no_assoc) =
    ind ++ indent_unit ++ formal_text formal ++ print_expr actual ++ codes "\n"
inst_map_lines ind (assoc formal actual (assoc f a more)) =
    ind
    ++ indent_unit
    ++ formal_text formal
    ++ print_expr actual
    ++ codes ",\n"
    ++ inst_map_lines ind (assoc f a more)

-- `printInstMap` behind a new line, where there are associations.
unfoldable pub print_inst_map : Bytes → String → Assocs → Bytes
print_inst_map ind keyword no_assoc = []
print_inst_map ind keyword (assoc f a more) =
    codes "\n"
    ++ ind
    ++ codes keyword
    ++ codes " (\n"
    ++ inst_map_lines ind (assoc f a more)
    ++ ind
    ++ codes ")"

-- A list of associations in parentheses, where there is one.
abbrev pub print_map : String → Assocs → Bytes
print_map before no_assoc = []
print_map before (assoc f a more) =
    codes before ++ codes "(" ++ print_assoc_list (assoc f a more) ++ codes ")"

abbrev pub print_arch : Bytes → Bytes
print_arch arch = unless_empty (codes "(") arch (codes ")")

abbrev pub unit_kind_text : Option Kind → Bytes
unit_kind_text (some Kind.kw_entity) = codes "entity "
unit_kind_text (some Kind.kw_component) = codes "component "
unit_kind_text (some Kind.kw_configuration) = codes "configuration "
unit_kind_text _ = []

abbrev pub bound_unit : BindingIndication → Option Kind → Bytes
bound_unit n (some Kind.kw_entity) = codes "entity " ++ n.unit ++ print_arch n.arch
bound_unit n (some Kind.kw_configuration) = codes "configuration " ++ n.unit
bound_unit n (some Kind.kw_open) = codes "open"
bound_unit n _ = []

unfoldable pub print_binding_indication : BindingIndication → Bytes
print_binding_indication n =
    codes "use "
    ++ bound_unit n n.unit_kind
    ++ print_map " generic map " n.generic_map
    ++ print_map " port map " n.port_map

unfoldable pub print_interface_decl : InterfaceDecl → Bytes
print_interface_decl d =
    unless_empty [] d.obj_class (codes " ")
    ++ join ", " d.names
    ++ codes " : "
    ++ unless_empty [] d.mode (codes " ")
    ++ print_subtype_indication d.subtype_mark d.constraint
    ++ print_optional " := " d.default

unfoldable pub print_interface_list : Bytes → List InterfaceDecl → Bytes
print_interface_list ind [] = []
print_interface_list ind (d ∷ []) = ind ++ print_interface_decl d ++ codes "\n"
print_interface_list ind (d ∷ e ∷ ds) =
    ind ++ print_interface_decl d ++ codes ";\n" ++ print_interface_list ind (e ∷ ds)

abbrev pub interface_section : Bytes → String → List InterfaceDecl → Bytes
interface_section ind before [] = []
interface_section ind before (d ∷ ds) =
    ind
    ++ indent_unit
    ++ codes before
    ++ print_interface_list (ind ++ indent_unit ++ indent_unit) (d ∷ ds)
    ++ ind
    ++ indent_unit
    ++ codes ");\n"

unfoldable pub print_component_decl :
    Bytes → Bytes → List InterfaceDecl → List InterfaceDecl → Bytes
print_component_decl ind name generics ports =
    codes "component "
    ++ name
    ++ codes " is\n"
    ++ interface_section ind "generic (\n" generics
    ++ interface_section ind "port (\n" ports
    ++ ind
    ++ codes "end component;"

abbrev pub params_text : List InterfaceDecl → Bytes
params_text [] = []
params_text (p ∷ ps) = codes " (" ++ join "; " (map print_interface_decl (p ∷ ps)) ++ codes ")"

abbrev pub purity_text : Bool → Bool → Bytes
purity_text true impure = codes "pure "
purity_text false true = codes "impure "
purity_text false false = []

abbrev pub subprogram_text : Bool → Bytes
subprogram_text true = codes "procedure "
subprogram_text false = codes "function "

abbrev pub return_text : Bool → Bytes → Bytes
return_text true mark = []
return_text false mark = codes " return " ++ mark

unfoldable pub print_subprogram_spec : Subprogram → Bytes
print_subprogram_spec n =
    purity_text n.pure n.impure
    ++ subprogram_text n.is_procedure
    ++ n.designator
    ++ params_text n.params
    ++ return_text n.is_procedure n.return_mark

unfoldable pub write_padded : Bytes → ℕ → Bytes
write_padded s width = s ++ replicate (width - length s) b' '

unfoldable pub print_attribute_spec_aligned : Bytes → List Bytes → Kind → Expr → ℕ → ℕ → Bytes
print_attribute_spec_aligned name entities class value name_w ent_w =
    codes "attribute "
    ++ write_padded name name_w
    ++ codes " of "
    ++ write_padded (join ", " entities) ent_w
    ++ codes " : "
    ++ kind_str class
    ++ codes " is "
    ++ print_expr value
    ++ codes ";"

abbrev pub return_mark_text : List Bytes → Bytes → Bytes
return_mark_text types [] = []
return_mark_text [] (c ∷ s) = codes "return " ++ (c ∷ s)
return_mark_text (t ∷ ts) (c ∷ s) = codes " return " ++ (c ∷ s)

abbrev pub print_signature : Option Signature → Bytes
print_signature none = []
print_signature (some n) =
    codes " [" ++ join ", " n.types ++ return_mark_text n.types n.return ++ codes "]"

abbrev pub file_text : Bytes → Option Expr → Option Expr → Bytes
file_text mode (some mode_expr) name =
    codes " open " ++ print_expr mode_expr ++ codes " is " ++ print_optional "" name
file_text mode none (some name) =
    codes " is " ++ unless_empty [] mode (codes " ") ++ print_expr name
file_text mode none none = []

unfoldable pub print_record_fields : Bytes → List RecordField → Bytes
print_record_fields ind [] = []
print_record_fields ind (f ∷ fs) =
    ind
    ++ indent_unit
    ++ join ", " f.names
    ++ codes " : "
    ++ print_subtype_indication f.subtype_mark f.constraint
    ++ codes ";\n"
    ++ print_record_fields ind fs

abbrev pub print_type_def : Bytes → Option TypeDef → Bytes
print_type_def ind none = []
print_type_def ind (some (TypeDef.enum_def lits)) = codes "(" ++ join ", " lits ++ codes ");"
print_type_def ind (some (TypeDef.record_def fs)) =
    codes "record\n" ++ print_record_fields ind fs ++ ind ++ codes "end record;"
print_type_def ind (some (TypeDef.array_def text)) = text ++ codes ";"
print_type_def ind (some (TypeDef.file_type_def mark)) = codes "file of " ++ mark ++ codes ";"
print_type_def ind (some (TypeDef.access_def mark)) = codes "access " ++ mark ++ codes ";"
