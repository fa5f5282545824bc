-- ===== src/Tests/Iface.antt =====
-- The extraction of interfaces at a concrete package.
use jcore_soc.Base.{◌≡◌, refl, ◌↔◌, none, some, [], ◌∷◌, codes, str_eq, AllPairs}
use jcore_soc.Vhdl.Ast.{Expr}
use jcore_soc.Vhdl.Nodes.{DesignFile, DesignUnit, Decl, Decls, TypeDef}
use jcore_soc.Iface.Model.{is_type_kind, resolve_type, symbol_of}
use jcore_soc.Iface.Extract.{extract}
use jcore_soc.Iface.Extract.Names.{Apart, files_names}
use jcore_soc.Iface.Extract.Distinct.{extract_iff}
use jcore_soc.Iface.Extract.Types.{node_of, symbol_node, resolve_type-extract}

-- A package with a type and a constant.
abbrev levels : DesignFile
levels = record {
  context = [];
  units =
      DesignUnit.package_decl (codes "Levels") (
        Decls.decl
          (Decl.type_decl (codes "Level")
            (some (TypeDef.enum_def (codes "low" ∷ codes "high" ∷ []))))
          (Decls.decl
            (Decl.constant_decl (codes "idle" ∷ []) (codes "Level") none
              (some (Expr.ident (codes "low"))))
            Decls.no_decl))
      ∷ [];
}

extract_iff_example :
    ((extract (levels ∷ levels ∷ [])).1 ≡ []) ↔ AllPairs Apart (files_names (levels ∷ levels ∷ []))
extract_iff_example = extract_iff (levels ∷ levels ∷ [])

levels-empty : (extract (levels ∷ [])).1 ≡ []
unfolding str_eq jcore_soc.Iface.Extract.of_decls jcore_soc.Iface.Extract.duplicate
    jcore_soc.Iface.Extract.add_symbol jcore_soc.Iface.Extract.add_symbols
    jcore_soc.Iface.Extract.declared jcore_soc.Iface.Extract.package_decls
    jcore_soc.Iface.Extract.add_package jcore_soc.Iface.Extract.add_unit
    jcore_soc.Iface.Extract.add_units jcore_soc.Iface.Extract.add_files
    jcore_soc.Iface.Extract.extract jcore_soc.Vhdl.Token.lower jcore_soc.Elaborate.Model.get
levels-empty = refl

resolve_type-extract_example :
    node_of (resolve_type (extract (levels ∷ [])).0 (codes "LEVEL"))
    ≡ symbol_node (symbol_of is_type_kind (extract (levels ∷ [])).0 (codes "LEVEL"))
resolve_type-extract_example = resolve_type-extract (levels ∷ []) levels-empty (codes "LEVEL")
