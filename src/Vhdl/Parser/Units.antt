-- ===== src/Vhdl/Parser/Units.antt =====
-- tools/socgen/vhdl/parser.go: configurations, design units and whole files.
pub mod Moves
pub mod Total
use jcore_soc.Base.{ℕ, zero, suc, Option, none, some, List, [], ◌∷◌, if◌then◌else◌, Bytes, codes}
use jcore_soc.Vhdl.Kind.{Kind}
use jcore_soc.Vhdl.Kind.Code.{same_kind}
use jcore_soc.Vhdl.Nodes.{
  BindingIndication, ConfigItem, ConfigItems, no_item, item, to_items, DesignUnit, ContextClause,
  library_clause, context_use, DesignFile, Stmts, no_stmt, to_decls, to_stmts,
}
use jcore_soc.Vhdl.Parser.{
  State, Parse, at, advance, errorf, unexpected, out_of_fuel, left, peek_kind, ensure_progress,
}
use jcore_soc.Vhdl.Parser.Monad.{
  ◌>>=◌, ◌>>◌, value, at_kind, advancing, accepting, expecting, identifier, when_at, skipping_kind,
  guarded, comma_list, closing, reporting, is_end, is_begin_end,
}
use jcore_soc.Vhdl.Parser.Common.{
  parse_dotted_name, interface_part, parse_use_clause, parse_binding_indication, name_or_all,
}
use jcore_soc.Vhdl.Parser.Declarations.{parse_decl}
use jcore_soc.Vhdl.Parser.Concurrent.{parse_concurrent_stmt}

-- `for p.at(USE) { append(p.parseUseClause()) }`. The clause consumes its `use`.
unfoldable pub use_clauses_from : ℕ → Parse (List (List Bytes))
unfolding errorf
use_clauses_from zero s = ([], errorf out_of_fuel s)
use_clauses_from (suc fuel) s =
    let (names, s') = parse_use_clause s in
    let (rest, s'') = use_clauses_from fuel s' in
    if at Kind.kw_use s then (names ∷ rest, s'') else ([], s)

unfoldable pub use_clauses : Parse (List (List Bytes))
unfolding use_clauses_from
use_clauses s = use_clauses_from (suc (left s)) s

-- The block of an item read for it, if it is one.
unfoldable pub only_block : ConfigItem → ConfigItems
only_block (ConfigItem.block_config spec uses items) =
    item (ConfigItem.block_config spec uses items) no_item
only_block (ConfigItem.component_config insts comp binding block) = no_item

unfoldable pub first_of : List Bytes → Bytes
first_of [] = []
first_of (x ∷ xs) = x

unfoldable pub optional_binding : Parse (Option BindingIndication)
optional_binding = do
  here ← at_kind Kind.kw_use
  if here then (do b ← parse_binding_indication; value (some b)) else value none

unfoldable pub spec_names : Parse (List Bytes)
spec_names = do expecting Kind.kw_for; comma_list (name_or_all (codes "configuration spec name"))

unfoldable pub block_of : Option ConfigItem → ConfigItems
block_of none = no_item
block_of (some x) = only_block x

module _ (self : Parse (Option ConfigItem)) where
  -- `if p.at(FOR) { ... }`: a nil item is no block.
  unfoldable pub inner_block : Parse ConfigItems
  inner_block = do
    here ← at_kind Kind.kw_for
    if here then (do x ← self; value (block_of x)) else value no_item

  unfoldable pub component_config : List Bytes → Parse (Option ConfigItem)
  component_config specs = do
    comp ← parse_dotted_name
    binding ← optional_binding
    block ← inner_block
    expecting Kind.kw_end
    expecting Kind.kw_for
    expecting Kind.semicolon
    value (some (ConfigItem.component_config specs comp binding block))

  unfoldable pub block_config : List Bytes → Parse (Option ConfigItem)
  block_config specs = do
    uses ← use_clauses
    items ← guarded is_end (codes "configuration item") self
    expecting Kind.kw_end
    expecting Kind.kw_for
    expecting Kind.semicolon
    value (some (ConfigItem.block_config (first_of specs) uses (to_items items)))

  unfoldable pub config_item_behind : List Bytes → Parse (Option ConfigItem)
  config_item_behind specs = when_at Kind.colon (component_config specs) (block_config specs)

  -- `parseConfigItem`. It never returns nil.
  unfoldable pub config_round : Parse (Option ConfigItem)
  config_round = do specs ← spec_names; config_item_behind specs

unfoldable pub head_block : ConfigItems → Option ConfigItem
head_block no_item = none
head_block (item x xs) = some x

-- One round of fuel for each configuration item inside another.
unfoldable pub parse_config_from : ℕ → Parse (Option ConfigItem)
unfolding errorf
parse_config_from zero s = (none, errorf out_of_fuel s)
parse_config_from (suc fuel) s = config_round (parse_config_from fuel) s

unfoldable pub parse_config_item : Parse (Option ConfigItem)
unfolding parse_config_from
parse_config_item s = parse_config_from (suc (left s)) s

-- The optional top block of a configuration.
unfoldable pub top_block : Parse (Option ConfigItem)
top_block = do
  here ← at_kind Kind.kw_for
  if here then (do x ← parse_config_item; value (head_block (block_of x))) else value none

unfoldable pub parse_configuration_decl : Parse DesignUnit
parse_configuration_decl = do
  expecting Kind.kw_configuration
  name ← identifier
  expecting Kind.kw_of
  entity ← parse_dotted_name
  expecting Kind.kw_is
  decls ← use_clauses
  block ← top_block
  expecting Kind.kw_end
  accepting Kind.kw_configuration
  skipping_kind Kind.ident
  expecting Kind.semicolon
  value (DesignUnit.configuration_decl name entity decls block)

unfoldable pub parse_package_decl : Parse DesignUnit
parse_package_decl = do
  expecting Kind.kw_package
  name ← identifier
  expecting Kind.kw_is
  decls ← guarded is_end (codes "package declaration") parse_decl
  expecting Kind.kw_end
  accepting Kind.kw_package
  skipping_kind Kind.ident
  expecting Kind.semicolon
  value (DesignUnit.package_decl name (to_decls decls))

unfoldable pub parse_package_body : Parse DesignUnit
parse_package_body = do
  expecting Kind.kw_package
  expecting Kind.kw_body
  name ← identifier
  expecting Kind.kw_is
  decls ← guarded is_end (codes "package body declaration") parse_decl
  expecting Kind.kw_end
  accepting Kind.kw_package
  accepting Kind.kw_body
  skipping_kind Kind.ident
  expecting Kind.semicolon
  value (DesignUnit.package_body name (to_decls decls))

-- The statements of an entity, behind its `begin`.
unfoldable pub entity_stmts : Parse Stmts
entity_stmts =
    when_at Kind.kw_begin
      (do
        stmts ← guarded is_end (codes "entity statement") parse_concurrent_stmt
        value (to_stmts stmts))
      (value no_stmt)

unfoldable pub parse_entity_decl : Parse DesignUnit
parse_entity_decl = do
  expecting Kind.kw_entity
  name ← identifier
  expecting Kind.kw_is
  generics ← interface_part Kind.kw_generic
  ports ← interface_part Kind.kw_port
  decls ← guarded is_begin_end (codes "entity declaration") parse_decl
  stmts ← entity_stmts
  expecting Kind.kw_end
  accepting Kind.kw_entity
  skipping_kind Kind.ident
  expecting Kind.semicolon
  value (DesignUnit.entity_decl name generics ports (to_decls decls) stmts)

unfoldable pub parse_architecture_body : Parse DesignUnit
parse_architecture_body = do
  expecting Kind.kw_architecture
  name ← identifier
  expecting Kind.kw_of
  entity ← identifier
  expecting Kind.kw_is
  decls ← guarded is_begin_end (codes "architecture declaration") parse_decl
  expecting Kind.kw_begin
  stmts ← guarded is_end (codes "concurrent statement") parse_concurrent_stmt
  expecting Kind.kw_end
  accepting Kind.kw_architecture
  skipping_kind Kind.ident
  expecting Kind.semicolon
  value (DesignUnit.architecture_body name entity (to_decls decls) (to_stmts stmts))

unfoldable pub parse_library_clause : Parse ContextClause
parse_library_clause = do
  advancing
  names ← comma_list identifier
  expecting Kind.semicolon
  value (library_clause names)

-- A clause or a unit of a file.
pub data FilePart : Type 0 where
  clause : ContextClause → FilePart
  unit : DesignUnit → FilePart

-- The labels of the `switch` in `parseFile`; a package body is told from a package by its next token.
pub data UnitClass : Type 0 where
  library_part use_part package_part entity_part architecture_part configuration_part : UnitClass
  no_part : UnitClass

unfoldable pub unit_class : Kind → UnitClass
unit_class Kind.kw_library = library_part
unit_class Kind.kw_use = use_part
unit_class Kind.kw_package = package_part
unit_class Kind.kw_entity = entity_part
unit_class Kind.kw_architecture = architecture_part
unit_class Kind.kw_configuration = configuration_part
unit_class _ = no_part

unfoldable pub parse_package : Parse DesignUnit
parse_package s =
    if same_kind (peek_kind 1 s) Kind.kw_body then parse_package_body s else parse_package_decl s

-- Nothing for a token that begins no part, which is reported.
unfoldable pub parse_part : UnitClass → Parse (Option FilePart)
parse_part library_part = do c ← parse_library_clause; value (some (clause c))
parse_part use_part = do names ← parse_use_clause; value (some (clause (context_use names)))
parse_part package_part = do u ← parse_package; value (some (unit u))
parse_part entity_part = do u ← parse_entity_decl; value (some (unit u))
parse_part architecture_part = do u ← parse_architecture_body; value (some (unit u))
parse_part configuration_part = do u ← parse_configuration_decl; value (some (unit u))
parse_part no_part = do reporting (codes "top level"); value none

unfoldable pub parts_behind :
    Option FilePart → State → List FilePart × State → List FilePart × State
parts_behind none s' on = ([], s')
parts_behind (some part) s' on = (part ∷ on.0, on.1)

-- The loop of `parseFile`, which returns at the first token that begins no part.
unfoldable pub parts_from : ℕ → Parse (List FilePart)
unfolding errorf parts_behind
parts_from zero s = ([], errorf out_of_fuel s)
parts_from (suc fuel) s =
    let (x, s') = parse_part (unit_class s.cur.kind) s in
    let on = parts_from fuel (ensure_progress (left s) (codes "design unit") s') in
    if at Kind.eof s then ([], s) else parts_behind x s' on

unfoldable pub to_file : List FilePart → DesignFile
to_file [] = record { context = []; units = [] }
to_file (clause c ∷ ps) = let f = to_file ps in record f { context = c ∷ f.context }
to_file (unit u ∷ ps) = let f = to_file ps in record f { units = u ∷ f.units }

unfoldable pub parse_file : Parse DesignFile
unfolding parts_from
parse_file s = let (parts, s') = parts_from (suc (left s)) s in (to_file parts, s')
