-- ===== src/Iface/Model.antt =====
-- tools/socgen/iface/model.go and errors.go: the library of the interfaces, and its lookups.
use jcore_soc.Base.{
  Bool, true, false, Option, none, some, List, [], ◌∷◌, if◌then◌else◌, is_some, Bytes, str_eq,
}
use jcore_soc.Vhdl.Token.{lower}
use jcore_soc.Vhdl.Ast.{Expr}
use jcore_soc.Vhdl.Nodes.{Decl, DesignUnit}
use jcore_soc.Elaborate.Model.{StrMap, get}

pub record TypeRef : Type 0 where
  pub mark : Bytes
  pub constraint : Option Expr

pub record Port : Type 0 where
  pub name : Bytes
  pub dir : Bytes
  pub type : TypeRef
  pub global_name : Bytes
  pub local_name : Bytes
  pub irq : Bool

pub record Generic : Type 0 where
  pub name : Bytes
  pub type : TypeRef
  pub default : Option Expr

pub record PeripheralBus : Type 0 where
  pub name : Bytes
  pub ports : List Bytes

pub record Entity : Type 0 where
  pub name : Bytes
  pub generics : List Generic
  pub ports : List Port
  pub peripheral_buses : List PeripheralBus
  pub uses : List Bytes

pub record Architecture : Type 0 where
  pub name : Bytes
  pub entity : Bytes
  pub node : DesignUnit

pub record Constant : Type 0 where
  pub name : Bytes
  pub type : TypeRef
  pub value : Option Expr

pub record TypeEntry : Type 0 where
  pub name : Bytes
  pub node : Decl

pub record Component : Type 0 where
  pub name : Bytes
  pub generics : List Generic
  pub ports : List Port

pub record Package : Type 0 where
  pub name : Bytes
  pub constants : List Constant
  pub types : List TypeEntry
  pub components : List Component

-- `Kind`, a text in the source.
pub data SymbolKind : Type 0 where
  constant_symbol : SymbolKind
  type_symbol : SymbolKind
  subtype_symbol : SymbolKind
  component_symbol : SymbolKind

pub record Symbol : Type 0 where
  pub pkg : Bytes
  pub kind : SymbolKind
  pub node : Decl

pub record Configuration : Type 0 where
  pub name : Bytes
  pub entity : Bytes
  pub arch : Bytes
  pub node : DesignUnit

pub record Library : Type 0 where
  pub entities : StrMap Entity
  pub packages : StrMap Package
  pub architectures : StrMap (List Architecture)
  pub configurations : StrMap Configuration
  pub index : StrMap Symbol

-- `Decl` and `Symbol`; or `Symbol`, `Pkg` and `AlsoIn`.
pub data DuplicateError : Type 0 where
  duplicate_decl : Bytes → Bytes → DuplicateError
  duplicate_symbol : Bytes → Bytes → Bytes → DuplicateError

abbrev pub is_type_kind : SymbolKind → Bool
is_type_kind type_symbol = true
is_type_kind subtype_symbol = true
is_type_kind _ = false

abbrev pub is_constant_kind : SymbolKind → Bool
is_constant_kind constant_symbol = true
is_constant_kind _ = false

unfoldable pub entity : Library → Bytes → Option Entity
entity l name = get l.entities (lower name)

unfoldable pub architectures_of : Library → Bytes → List Architecture
architectures_of l name = elim (get l.architectures (lower name)) [
  | none ↦ []
  | some bodies ↦ bodies
]

unfoldable pub package_named : Library → Bytes → Option Package
package_named l name = get l.packages (lower name)

unfoldable pub configuration : Library → Bytes → Option Configuration
configuration l name = get l.configurations (lower name)

-- The first entry with the name.
unfoldable pub find_type : Bytes → List TypeEntry → Option TypeEntry
find_type name [] = none
find_type name (te ∷ tes) =
    if str_eq (lower te.name) (lower name) then some te else find_type name tes

-- The symbol of a name, if it is of a kind that `p` accepts.
unfoldable pub symbol_of : (SymbolKind → Bool) → Library → Bytes → Option Symbol
symbol_of p l name = elim (get l.index (lower name)) [
  | none ↦ none
  | some s ↦ (if p s.kind then some s else none)
]

-- A symbol's package that is not in the map is a nil pointer in the source.
unfoldable pub types_in : Option Package → List TypeEntry
types_in none = []
types_in (some p) = p.types

unfoldable pub resolve_type : Library → Bytes → Option TypeEntry
unfolding types_in
resolve_type l name = elim (symbol_of is_type_kind l name) [
  | none ↦ none
  | some s ↦ find_type name (types_in (get l.packages (lower s.pkg)))
]

unfoldable pub type_package : Library → Bytes → Option Bytes
type_package l name = elim (symbol_of is_type_kind l name) [ none ↦ none | some s ↦ some s.pkg ]

unfoldable pub is_constant : Library → Bytes → Bool
is_constant l name = is_some (symbol_of is_constant_kind l name)

unfoldable pub constant_package : Library → Bytes → Bytes
constant_package l name = elim (symbol_of is_constant_kind l name) [ none ↦ [] | some s ↦ s.pkg ]
