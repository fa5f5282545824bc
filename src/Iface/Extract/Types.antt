-- ===== src/Iface/Extract/Types.antt =====
-- The types of the library: the index and the packages agree on them where nothing is reported.
use jcore_soc.Base.{
  ◌≡◌, refl, sym, ap, subst, ◌∙◌, ◌⊎◌, inl, inr, Bool, true, false, Option, none, some, List, [],
  ◌∷◌, ◌++◌, if◌then◌else◌, Bool-cases, Option-cases, is_some, Bytes, str_eq, str_eq_iff,
}
use jcore_soc.Vhdl.Token.{lower}
use jcore_soc.Vhdl.Nodes.{Decl, DesignUnit, DesignFile}
use jcore_soc.Elaborate.Model.{StrMap, get, put}
use jcore_soc.Elaborate.Address.Pairs.{append-empty}
use jcore_soc.Iface.Model.{
  Library, DuplicateError, Package, SymbolKind, Symbol, TypeEntry, is_type_kind, find_type,
  types_in, symbol_of, resolve_type,
}
use jcore_soc.Iface.Extract.{
  Added, duplicate, add_symbol, add_symbols, declared, declared_kind, extend_package, package_decls,
  add_package, new_package, add_entity, add_architecture, add_configuration, add_unit, add_units,
  add_files, extract, empty_library, file_work_uses, of_decls,
}
use jcore_soc.Elaborate.Net.Zero.{get-put_at, get-put_other}
use jcore_soc.Iface.Extract.Distinct.{packages-package_decls}

abbrev pub node_of : Option TypeEntry → Option Decl
node_of none = none
node_of (some te) = some te.node

abbrev pub symbol_node : Option Symbol → Option Decl
symbol_node none = none
symbol_node (some s) = some s.node

-- The first type of the name in the symbol's package is the symbol's declaration.
abbrev IsFound : StrMap Package → Bytes → Symbol → Type 0
IsFound ps name s = node_of (find_type name (types_in (get ps (lower s.pkg)))) ≡ some s.node

abbrev AreFound : Library → Type 0
AreFound l =
    (name : Bytes) (s : Symbol)
    → get l.index (lower name) ≡ some s
    → is_type_kind s.kind ≡ true
    → IsFound l.packages name s

-- While the package `q` is read and `ts` are its types so far.
abbrev AreFoundIn : Bytes → List TypeEntry → Library → Type 0
AreFoundIn q ts l =
    (name : Bytes) (s : Symbol)
    → get l.index (lower name) ≡ some s
    → is_type_kind s.kind ≡ true
    → IsFound l.packages name s
      ⊎ ((lower s.pkg ≡ lower q) × (node_of (find_type name ts) ≡ some s.node))

-- The types read are in the index.
abbrev AreIndexed : List TypeEntry → Library → Type 0
AreIndexed ts l =
    (name : Bytes) → is_some (find_type name ts) ≡ true → is_some (get l.index (lower name)) ≡ true

abbrev Holds : Bytes → List TypeEntry → Library → Type 0
Holds q ts l = AreFoundIn q ts l × AreIndexed ts l

find_type-append :
    (name : Bytes) (xs ys : List TypeEntry)
    → find_type name (xs ++ ys)
      ≡ elim (find_type name xs) [ none ↦ find_type name ys | some te ↦ some te ]
unfolding find_type
find_type-append name [] ys = refl
find_type-append name (x ∷ xs) ys = elim (Bool-cases (str_eq (lower x.name) (lower name))) [
  | inl y ↦ rw y refl
  | inr n ↦ rw n (find_type-append name xs ys)
]

find_type-one :
    (name : Bytes) (te : TypeEntry)
    → find_type name (te ∷ []) ≡ (if str_eq (lower te.name) (lower name) then some te else none)
unfolding find_type
find_type-one name te = refl

node_some : (o : Option TypeEntry) (d : Decl) → node_of o ≡ some d → is_some o ≡ true
node_some none d e = cc
node_some (some te) d e = refl

duplicate-empty : {A : Type 0} (o : Option A) (e : DuplicateError) → duplicate o e ≡ [] → o ≡ none
unfolding duplicate
duplicate-empty none e h = refl
duplicate-empty (some s) e h = cc

abbrev is_type : Option Symbol → Bool
is_type none = false
is_type (some s) = is_type_kind s.kind

-- A symbol that is no type.
add_symbol-Holds :
    (n q pkg : Bytes) (k : SymbolKind) (node : Decl) (ts : List TypeEntry) (l : Library)
    → is_type_kind k ≡ false
    → Holds q ts l
    → Holds q ts (add_symbol n pkg k node l).0
unfolding add_symbol
add_symbol-Holds n q pkg k node ts l no_type (found, indexed) =
    let v : Symbol = record { pkg = pkg; kind = k; node = node } in
    (
      λ name s e t. elim (Bool-cases (str_eq (lower n) (lower name))) [
        | inl y ↦
            let same : is_type_kind k ≡ is_type_kind s.kind =
              ap is_type (sym (get-put_at (lower n) v l.index (lower name) y) ∙ e) in
            cc
        | inr m ↦ found name s (sym (get-put_other (lower n) (lower name) v l.index m) ∙ e) t
      ],
      λ name h. elim (Bool-cases (str_eq (lower n) (lower name))) [
        | inl y ↦ ap is_some (get-put_at (lower n) v l.index (lower name) y)
        | inr m ↦ ap is_some (get-put_other (lower n) (lower name) v l.index m) ∙ indexed name h
      ],
    )

some_same : {A : Type 0} {x y : A} (d : A) → some x ≡ some y → x ≡ y
some_same d e = ap (λ o. elim o [ none ↦ d | some z ↦ z ]) e

-- A type that is new.
add_type-Holds :
    (n q : Bytes) (k : SymbolKind) (d : Decl) (ts : List TypeEntry) (l : Library)
    → get l.index (lower n) ≡ none
    → Holds q ts l
    → Holds q (ts ++ record { name = n; node = d } ∷ []) (add_symbol n q k d l).0
unfolding add_symbol
add_type-Holds n q k d ts l new (found, indexed) =
    let v : Symbol = record { pkg = q; kind = k; node = d } in
    let te : TypeEntry = record { name = n; node = d } in
    (
      λ name s e t. elim (Bool-cases (str_eq (lower n) (lower name))) [
        | inl y ↦
            let same : v ≡ s =
              some_same v (sym (get-put_at (lower n) v l.index (lower name) y) ∙ e) in
            let absent : is_some (get l.index (lower name)) ≡ false =
              subst (λ j. is_some (get l.index j) ≡ false) ((str_eq_iff (lower n) (lower name)).0 y)
                (ap is_some new) in
            elim (Option-cases (find_type name ts)) [
              | inl none_found ↦ inr (
                ap (λ x. lower x.pkg) (sym same),
                ap node_of (find_type-append name ts (te ∷ []))
                    ∙ rw none_found
                        (ap node_of (find_type-one name te) ∙ rw y (ap (λ x. some x.node) same)),
              )
              | inr some_found ↦
                  (let i : is_some (get l.index (lower name)) ≡ true =
                      indexed name (ap is_some some_found.1) in
                    cc)
            ]
        | inr m ↦
            elim (found name s (sym (get-put_other (lower n) (lower name) v l.index m) ∙ e) t) [
              | inl a ↦ inl a
              | inr (a, b) ↦ inr (a, kept name s.node b)
            ]
      ],
      λ name h. elim (Bool-cases (str_eq (lower n) (lower name))) [
        | inl y ↦ ap is_some (get-put_at (lower n) v l.index (lower name) y)
        | inr m ↦
            ap is_some (get-put_other (lower n) (lower name) v l.index m)
            ∙ indexed name (before name m h)
      ],
    )
  where
    kept :
        (name : Bytes) (node : Decl)
        → node_of (find_type name ts) ≡ some node
        → node_of (find_type name (ts ++ record { name = n; node = d } ∷ [])) ≡ some node
    kept name node b = elim (Option-cases (find_type name ts)) [
      | inl none_found ↦ (let c : none ≡ some node = sym (ap node_of none_found) ∙ b in cc)
      | inr some_found ↦
          rw (find_type-append name ts _, some_found.1) (sym (ap node_of some_found.1) ∙ b)
    ]

    before :
        (name : Bytes)
        → str_eq (lower n) (lower name) ≡ false
        → is_some (find_type name (ts ++ record { name = n; node = d } ∷ [])) ≡ true
        → is_some (find_type name ts) ≡ true
    before name m h = elim (Option-cases (find_type name ts)) [
      | inl none_found ↦
          let c : is_some (find_type name (ts ++ record { name = n; node = d } ∷ [])) ≡ false =
            ap is_some (find_type-append name ts _)
            ∙ rw none_found (ap is_some (find_type-one name _) ∙ rw m refl) in
          cc
      | inr some_found ↦ ap is_some some_found.1
    ]

add_symbols-Holds :
    (ns : List Bytes) (q pkg : Bytes) (k : SymbolKind) (node : Decl) (ts : List TypeEntry)
    (l : Library)
    → is_type_kind k ≡ false
    → Holds q ts l
    → Holds q ts (add_symbols ns pkg k node l).0
unfolding add_symbols
add_symbols-Holds [] q pkg k node ts l no_type h = h
add_symbols-Holds (n ∷ ns) q pkg k node ts l no_type h =
    add_symbols-Holds ns q pkg k node ts (add_symbol n pkg k node l).0 no_type
      (add_symbol-Holds n q pkg k node ts l no_type h)

one_type-Holds :
    (n q : Bytes) (k : SymbolKind) (d : Decl) (ts : List TypeEntry) (l : Library)
    → (add_symbols (n ∷ []) q k d l).1 ≡ []
    → Holds q ts l
    → Holds q (ts ++ record { name = n; node = d } ∷ []) (add_symbols (n ∷ []) q k d l).0
unfolding add_symbols add_symbol
one_type-Holds n q k d ts l none_reported h =
    add_type-Holds n q k d ts l
      (duplicate-empty (get l.index (lower n)) _
        ((append-empty (duplicate (get l.index (lower n)) _) []).0 none_reported).0)
      h

decl-Holds :
    (q : Bytes) (d : Decl) (p : Package) (l : Library)
    → (add_symbols (declared d) q (declared_kind d) d l).1 ≡ []
    → Holds q p.types l
    → Holds q (extend_package d p).types (add_symbols (declared d) q (declared_kind d) d l).0
unfolding declared declared_kind extend_package
decl-Holds q (Decl.type_decl n def) p l e h =
    one_type-Holds n q _ (Decl.type_decl n def) p.types l e h
decl-Holds q (Decl.subtype_decl n mark c) p l e h =
    one_type-Holds n q _ (Decl.subtype_decl n mark c) p.types l e h
decl-Holds q (Decl.constant_decl ns mark c v) p l e h =
    add_symbols-Holds ns q q _ (Decl.constant_decl ns mark c v) p.types l refl h
decl-Holds q (Decl.component_decl n gs ps) p l e h =
    add_symbols-Holds (n ∷ []) q q _ (Decl.component_decl n gs ps) p.types l refl h
decl-Holds q d p l e h = add_symbols-Holds [] q q _ d p.types l refl h

package_decls-Holds :
    (q : Bytes) (ds : List Decl) (p : Package) (l : Library)
    → (package_decls q ds p l).1.1 ≡ []
    → Holds q p.types l
    → Holds q (package_decls q ds p l).0.types (package_decls q ds p l).1.0
unfolding package_decls
package_decls-Holds q [] p l e h = h
package_decls-Holds q (d ∷ ds) p l e h =
    let (first, others) =
      (append-empty (add_symbols (declared d) q (declared_kind d) d l).1 _).0 e in
    package_decls-Holds q ds (extend_package d p)
      (add_symbols (declared d) q (declared_kind d) d l).0 others (decl-Holds q d p l first h)

nothing_found :
    (name : Bytes) (o : Option Package) (d : Decl)
    → o ≡ none
    → node_of (find_type name (types_in o)) ≡ some d
    → is_some o ≡ true
unfolding find_type types_in
nothing_found name none d e h = cc
nothing_found name (some p) d e h = refl

-- The package is entered under a new name.
put-AreFound :
    (q : Bytes) (p : Package) (l : Library)
    → get l.packages (lower q) ≡ none
    → Holds q p.types l
    → AreFound (record l { packages = put (lower q) p l.packages })
unfolding types_in
put-AreFound q p l new (found, _) name s e t = elim (found name s e t) [
  | inl a ↦ elim (Bool-cases (str_eq (lower q) (lower s.pkg))) [
    | inl y ↦
        let absent : get l.packages (lower s.pkg) ≡ none =
          subst (λ j. get l.packages j ≡ none) ((str_eq_iff (lower q) (lower s.pkg)).0 y) new in
        let there : is_some (get l.packages (lower s.pkg)) ≡ true =
          nothing_found name (get l.packages (lower s.pkg)) s.node absent a in
        let gone : is_some (get l.packages (lower s.pkg)) ≡ false = ap is_some absent in cc
    | inr n ↦
        ap (λ o. node_of (find_type name (types_in o)))
          (get-put_other (lower q) (lower s.pkg) p l.packages n)
        ∙ a
  ]
  | inr (same, b) ↦
      ap (λ o. node_of (find_type name (types_in o)))
        (get-put_at (lower q) p l.packages (lower s.pkg)
          ((str_eq_iff (lower q) (lower s.pkg)).1 (sym same)))
      ∙ b
]

no_type-AreIndexed : (l : Library) → AreIndexed [] l
unfolding find_type
no_type-AreIndexed l name f = cc

add_package-AreFound :
    (n : Bytes) (ds : List Decl) (l : Library)
    → (add_package n ds l).1 ≡ []
    → AreFound l
    → AreFound (add_package n ds l).0
unfolding add_package
add_package-AreFound n ds l none_reported h =
    let r : Package × Added = package_decls n ds (new_package n) l in
    let (no_package, no_symbol) =
      (append-empty (duplicate (get l.packages (lower n)) _) r.1.1).0 none_reported in
    let new : get l.packages (lower n) ≡ none =
      duplicate-empty (get l.packages (lower n)) _ no_package in
    put-AreFound n r.0 r.1.0
      (ap (λ m. get m (lower n)) (packages-package_decls n ds (new_package n) l) ∙ new)
      (package_decls-Holds n ds (new_package n) l no_symbol
        (λ name s e t. inl (h name s e t), no_type-AreIndexed l))

add_unit-AreFound :
    (uses : List Bytes) (u : DesignUnit) (l : Library)
    → (add_unit uses u l).1 ≡ []
    → AreFound l
    → AreFound (add_unit uses u l).0
unfolding add_unit add_entity add_architecture add_configuration
add_unit-AreFound uses (DesignUnit.package_decl n ds) l e h =
    add_package-AreFound n (of_decls ds) l e h
add_unit-AreFound uses (DesignUnit.entity_decl n gs ps ds ss) l e h = h
add_unit-AreFound uses (DesignUnit.architecture_body n en ds ss) l e h = h
add_unit-AreFound uses (DesignUnit.package_body n ds) l e h = h
add_unit-AreFound uses (DesignUnit.configuration_decl n en us b) l e h = h

add_units-AreFound :
    (uses : List Bytes) (us : List DesignUnit) (l : Library)
    → (add_units uses us l).1 ≡ []
    → AreFound l
    → AreFound (add_units uses us l).0
unfolding add_units
add_units-AreFound uses [] l e h = h
add_units-AreFound uses (u ∷ us) l e h =
    let (first, others) = (append-empty (add_unit uses u l).1 _).0 e in
    add_units-AreFound uses us (add_unit uses u l).0 others (add_unit-AreFound uses u l first h)

add_files-AreFound :
    (dfs : List DesignFile) (l : Library)
    → (add_files dfs l).1 ≡ []
    → AreFound l
    → AreFound (add_files dfs l).0
unfolding add_files
add_files-AreFound [] l e h = h
add_files-AreFound (f ∷ fs) l e h =
    let r : Added = add_units (file_work_uses f) f.units l in
    let (first, others) = (append-empty r.1 _).0 e in
    add_files-AreFound fs r.0 others (add_units-AreFound (file_work_uses f) f.units l first h)

empty-AreFound : AreFound empty_library
unfolding get
empty-AreFound name s e t = cc

resolve_type-AreFound :
    (l : Library) (name : Bytes)
    → AreFound l
    → node_of (resolve_type l name) ≡ symbol_node (symbol_of is_type_kind l name)
unfolding resolve_type symbol_of
resolve_type-AreFound l name h = elim (Option-cases (get l.index (lower name))) [
  | inl none_there ↦ rw (none_there, resolve_type, symbol_of, node_of, symbol_node) refl
  | inr (s, there) ↦ elim (Bool-cases (is_type_kind s.kind)) [
    | inl y ↦ rw (there, y, resolve_type, symbol_of, symbol_node) (h name s there y)
    | inr n ↦ rw (there, n, resolve_type, symbol_of, node_of, symbol_node) refl
  ]
]

-- Where Extract reports nothing, ResolveType gives for each name the declaration that the index holds
-- for it if that is of a type or a subtype, and nothing otherwise.
pub resolve_type-extract :
    (dfs : List DesignFile)
    → (extract dfs).1 ≡ []
    → (name : Bytes)
    → node_of (resolve_type (extract dfs).0 name)
      ≡ symbol_node (symbol_of is_type_kind (extract dfs).0 name)
unfolding extract
resolve_type-extract dfs e name =
    resolve_type-AreFound (extract dfs).0 name
      (add_files-AreFound dfs empty_library e empty-AreFound)
