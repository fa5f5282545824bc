-- ===== src/Iface/Extract.antt =====
-- tools/socgen/iface/extract.go: the library of the parsed files.
pub mod Names
pub mod Distinct
pub mod Types
use jcore_soc.Base.{
  Bool, true, false, not, ◌&&◌, Option, none, some, List, [], ◌∷◌, ◌++◌, map, ◌==◌, if◌then◌else◌,
  any, Bytes, codes, str_eq,
}
use jcore_soc.Vhdl.Kind.{Kind}
use jcore_soc.Vhdl.Kind.Code.{same_kind}
use jcore_soc.Vhdl.Token.{lower}
use jcore_soc.Vhdl.Ast.{Expr}
use jcore_soc.Vhdl.Nodes
use jcore_soc.Vhdl.Nodes.{
  InterfaceDecl, Decl, Decls, no_decl, decl, DesignUnit, ContextClause, DesignFile, ConfigItem,
}
use jcore_soc.Elaborate.Model.{StrMap, get, put}
use jcore_soc.Iface.Model.{
  TypeRef, Port, Generic, PeripheralBus, Entity, Architecture, Constant, TypeEntry, Component,
  Package, SymbolKind, Symbol, Configuration, Library, DuplicateError, duplicate_decl,
  duplicate_symbol,
}

unfoldable pub of_decls : Decls → List Decl
of_decls no_decl = []
of_decls (decl d ds) = d ∷ of_decls ds

-- `toPorts` and `toGenerics`: an entry for each name of each declaration.
abbrev pub names_ports : InterfaceDecl → List Bytes → List Port
names_ports d ns =
    map
      (λ n. record {
        name = n;
        dir = d.mode;
        type = record { mark = d.subtype_mark; constraint = d.constraint };
        global_name = [];
        local_name = [];
        irq = false;
      })
      ns

unfoldable pub to_ports : List InterfaceDecl → List Port
to_ports [] = []
to_ports (d ∷ ds) = names_ports d d.names ++ to_ports ds

abbrev pub names_generics : InterfaceDecl → List Bytes → List Generic
names_generics d ns =
    map
      (λ n. record {
        name = n;
        type = record { mark = d.subtype_mark; constraint = d.constraint };
        default = d.default;
      })
      ns

unfoldable pub to_generics : List InterfaceDecl → List Generic
to_generics [] = []
to_generics (d ∷ ds) = names_generics d d.names ++ to_generics ds

-- `socPortString`: the text of a string literal in lower case, without the quotes around it.
abbrev pub ends_quoted : Bytes → Bool
ends_quoted [] = false
ends_quoted (c ∷ []) = c == b'"'
ends_quoted (c ∷ d ∷ s) = ends_quoted (d ∷ s)

abbrev pub without_last : Bytes → Bytes
without_last [] = []
without_last (c ∷ []) = []
without_last (c ∷ d ∷ s) = c ∷ without_last (d ∷ s)

abbrev pub unquoted : Bytes → Bytes
unquoted [] = []
unquoted (c ∷ s) = if c == b'"' && ends_quoted s then without_last s else c ∷ s

unfoldable pub soc_port_string : Expr → Option Bytes
soc_port_string (Expr.basic_lit k s) =
    if same_kind k Kind.string_lit then some (lower (unquoted s)) else none
soc_port_string _ = none

unfoldable pub soc_port_bool : Expr → Bool
soc_port_bool (Expr.ident s) = str_eq (lower s) (codes "true")
soc_port_bool (Expr.basic_lit k s) = str_eq (lower s) (codes "true")
soc_port_bool _ = false

-- `p := byName[lower(c)]` and a change of `p`: the map holds the last port with the name.
abbrev pub is_port : Bytes → Port → Bool
is_port c p = str_eq (lower p.name) (lower c)

unfoldable pub change_port : Bytes → (Port → Port) → List Port → List Port
change_port c f [] = []
change_port c f (p ∷ ps) =
    if not (any (is_port c) ps) && is_port c p then f p ∷ ps else p ∷ change_port c f ps

unfoldable pub change_ports : List Bytes → (Bytes → Port → Port) → List Port → List Port
change_ports [] f ps = ps
change_ports (c ∷ cs) f ps = change_ports cs f (change_port c (f c) ps)

abbrev pub with_group_name : Bytes → Bytes → Port → Port
with_group_name template c p =
    if str_eq (lower template) (codes "global_ports")
    then record p { global_name = lower c }
    else if str_eq (lower template) (codes "local_ports")
    then record p { local_name = lower c }
    else p

abbrev pub with_attribute : Bytes → Bytes → Port → Port
with_attribute name val p =
    if str_eq (lower name) (codes "soc_port_global_name")
    then record p { global_name = val }
    else if str_eq (lower name) (codes "soc_port_local_name")
    then record p { local_name = val }
    else p

unfoldable pub apply_group : Decl → List Port → List Port
apply_group (Decl.group_decl name template cs) ps = change_ports cs (with_group_name template) ps
apply_group _ ps = ps

unfoldable pub apply_attribute : Decl → List Port → List Port
apply_attribute (Decl.attribute_spec name es class v) ps =
    if same_kind class Kind.kw_signal
    then (if str_eq (lower name) (codes "soc_port_irq")
        then (if soc_port_bool v then change_ports es (λ c p. record p { irq = true }) ps else ps)
        else elim (soc_port_string v) [
          | none ↦ ps
          | some val ↦ change_ports es (λ c. with_attribute name val) ps
        ])
    else ps
apply_attribute _ ps = ps

unfoldable pub apply_each : (Decl → List Port → List Port) → List Decl → List Port → List Port
apply_each f [] ps = ps
apply_each f (d ∷ ds) ps = apply_each f ds (f d ps)

-- Groups first, then attributes.
unfoldable pub apply_soc_port_names : List Port → List Decl → List Port
apply_soc_port_names ps ds = apply_each apply_attribute ds (apply_each apply_group ds ps)

unfoldable pub to_peripheral_buses : List Decl → List PeripheralBus
to_peripheral_buses [] = []
to_peripheral_buses (Decl.group_decl n template cs ∷ ds) =
    let rest = to_peripheral_buses ds in
    if str_eq (lower template) (codes "peripheral_bus")
    then record { name = n; ports = cs } ∷ rest
    else rest
to_peripheral_buses (_ ∷ ds) = to_peripheral_buses ds

-- `strings.Split(s, ".")`.
unfoldable pub split_dots : Bytes → List Bytes
split_dots [] = [] ∷ []
split_dots (c ∷ s) =
    let parts = split_dots s in
    if c == b'.' then [] ∷ parts else elim parts [ [] ↦ (c ∷ []) ∷ [] | p ∷ ps ↦ (c ∷ p) ∷ ps ]

-- The package of `work.<package>.<...>`.
unfoldable pub work_package : List Bytes → Option Bytes
work_package (l ∷ p ∷ x ∷ ps) = if str_eq (lower l) (codes "work") then some (lower p) else none
work_package _ = none

unfoldable pub add_use : Option Bytes → List Bytes → List Bytes
add_use none out = out
add_use (some p) out = if any (str_eq p) out then out else out ++ p ∷ []

unfoldable pub add_uses : List Bytes → List Bytes → List Bytes
add_uses [] out = out
add_uses (n ∷ ns) out = add_uses ns (add_use (work_package (split_dots n)) out)

unfoldable pub uses_from : List ContextClause → List Bytes → List Bytes
uses_from [] out = out
uses_from (ContextClause.library_clause ns ∷ cs) out = uses_from cs out
uses_from (ContextClause.context_use ns ∷ cs) out = uses_from cs (add_uses ns out)

abbrev pub file_work_uses : DesignFile → List Bytes
file_work_uses df = uses_from df.context []

-- The errors of an operation come with the library that it leaves; `errors.Join` is a list.
abbrev pub Added : Type 0
Added = Library × List DuplicateError

-- The error where the key is there already.
unfoldable pub duplicate : {A : Type 0} → Option A → DuplicateError → List DuplicateError
duplicate none e = []
duplicate (some x) e = e ∷ []

unfoldable pub add_entity :
    Bytes → List InterfaceDecl → List InterfaceDecl → List Decl → List Bytes → Library → Added
add_entity name generics ports decls uses l =
    let e : Entity = record {
      name = name;
      generics = to_generics generics;
      ports = apply_soc_port_names (to_ports ports) decls;
      peripheral_buses = to_peripheral_buses decls;
      uses = uses;
    } in
    (
      record l { entities = put (lower name) e l.entities },
      duplicate (get l.entities (lower name)) (duplicate_decl (codes "entity") name),
    )

unfoldable pub add_architecture : Bytes → Bytes → DesignUnit → Library → Added
add_architecture name entity node l =
    let a : Architecture = record { name = name; entity = entity; node = node } in
    let before : List Architecture = elim (get l.architectures (lower entity)) [
      | none ↦ []
      | some bodies ↦ bodies
    ] in
    (record l { architectures = put (lower entity) (before ++ a ∷ []) l.architectures }, [])

abbrev pub also_in : Option Symbol → Bytes
also_in none = []
also_in (some s) = s.pkg

unfoldable pub add_symbol : Bytes → Bytes → SymbolKind → Decl → Library → Added
add_symbol name pkg kind node l =
    let prev = get l.index (lower name) in
    (
      record l {
        index = put (lower name) (record { pkg = pkg; kind = kind; node = node }) l.index;
      },
      duplicate prev (duplicate_symbol name pkg (also_in prev)),
    )

unfoldable pub add_symbols : List Bytes → Bytes → SymbolKind → Decl → Library → Added
add_symbols [] pkg kind node l = (l, [])
add_symbols (n ∷ ns) pkg kind node l =
    let (l', es) = add_symbol n pkg kind node l in
    let (l'', es') = add_symbols ns pkg kind node l' in (l'', es ++ es')

-- The names that a declaration of a package declares, and their kind.
unfoldable pub declared : Decl → List Bytes
declared (Decl.constant_decl names mark c d) = names
declared (Decl.type_decl name d) = name ∷ []
declared (Decl.subtype_decl name mark c) = name ∷ []
declared (Decl.component_decl name gs ps) = name ∷ []
declared _ = []

unfoldable pub declared_kind : Decl → SymbolKind
declared_kind (Decl.constant_decl names mark c d) = SymbolKind.constant_symbol
declared_kind (Decl.type_decl name d) = SymbolKind.type_symbol
declared_kind (Decl.subtype_decl name mark c) = SymbolKind.subtype_symbol
declared_kind _ = SymbolKind.component_symbol

abbrev pub constants_of : List Bytes → TypeRef → Option Expr → List Constant
constants_of ns t v = map (λ n. record { name = n; type = t; value = v }) ns

unfoldable pub extend_package : Decl → Package → Package
extend_package (Decl.constant_decl ns mark c v) p = record p {
  constants = p.constants ++ constants_of ns (record { mark = mark; constraint = c }) v;
}
extend_package (Decl.type_decl n d) p = record p {
  types = p.types ++ record { name = n; node = Decl.type_decl n d } ∷ [];
}
extend_package (Decl.subtype_decl n mark c) p = record p {
  types = p.types ++ record { name = n; node = Decl.subtype_decl n mark c } ∷ [];
}
extend_package (Decl.component_decl n gs ps) p = record p {
  components =
      p.components ++ record { name = n; generics = to_generics gs; ports = to_ports ps } ∷ [];
}
extend_package _ p = p

-- The loop of `addPackage`.
unfoldable pub package_decls : Bytes → List Decl → Package → Library → Package × Added
package_decls pkg [] p l = (p, (l, []))
package_decls pkg (d ∷ ds) p l =
    let (l', es) = add_symbols (declared d) pkg (declared_kind d) d l in
    let (p', (l'', es')) = package_decls pkg ds (extend_package d p) l' in (p', (l'', es ++ es'))

abbrev pub new_package : Bytes → Package
new_package name = record { name = name; constants = []; types = []; components = [] }

unfoldable pub add_package : Bytes → List Decl → Library → Added
add_package name decls l =
    let (p, (l', es)) = package_decls name decls (new_package name) l in
    (
      record l' { packages = put (lower name) p l'.packages },
      duplicate (get l.packages (lower name)) (duplicate_decl (codes "package") name) ++ es,
    )

-- `n.Block.Spec`.
unfoldable pub block_spec : Option ConfigItem → Bytes
block_spec (some (ConfigItem.block_config spec uses items)) = spec
block_spec _ = []

unfoldable pub add_configuration : Bytes → Bytes → Bytes → DesignUnit → Library → Added
add_configuration name entity arch node l =
    let c : Configuration = record { name = name; entity = entity; arch = arch; node = node } in
    (
      record l { configurations = put (lower name) c l.configurations },
      duplicate (get l.configurations (lower name)) (duplicate_decl (codes "configuration") name),
    )

unfoldable pub add_unit : List Bytes → DesignUnit → Library → Added
add_unit uses (DesignUnit.entity_decl n gs ps ds ss) l = add_entity n gs ps (of_decls ds) uses l
add_unit uses (DesignUnit.architecture_body n e ds ss) l =
    add_architecture n e (DesignUnit.architecture_body n e ds ss) l
add_unit uses (DesignUnit.package_decl n ds) l = add_package n (of_decls ds) l
add_unit uses (DesignUnit.configuration_decl n e us b) l =
    add_configuration n e (block_spec b) (DesignUnit.configuration_decl n e us b) l
add_unit uses (DesignUnit.package_body n ds) l = (l, [])

unfoldable pub add_units : List Bytes → List DesignUnit → Library → Added
add_units uses [] l = (l, [])
add_units uses (u ∷ us) l =
    let (l', es) = add_unit uses u l in let (l'', es') = add_units uses us l' in (l'', es ++ es')

unfoldable pub add_files : List DesignFile → Library → Added
add_files [] l = (l, [])
add_files (df ∷ dfs) l =
    let (l', es) = add_units (file_work_uses df) df.units l in
    let (l'', es') = add_files dfs l' in (l'', es ++ es')

abbrev pub empty_library : Library
empty_library = record {
  entities = [];
  packages = [];
  architectures = [];
  configurations = [];
  index = [];
}

unfoldable pub extract : List DesignFile → Added
extract dfs = add_files dfs empty_library
