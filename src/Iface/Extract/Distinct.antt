-- ===== src/Iface/Extract/Distinct.antt =====
-- The errors of the extraction and the names of the files: a duplicate is reported exactly where two
-- declarations of the same map have the same name in lower case.
use jcore_soc.Base.{
  ◌≡◌, refl, sym, ap, subst, ◌∙◌, ◌↔◌, inl, inr, Bool, true, false, not, ◌&&◌, ◌||◌, Option, none,
  some, List, [], ◌∷◌, ◌++◌, arith, Bool-cases, is_some, any, Bytes, str_eq, str_eq_iff, AllPairs,
}
use jcore_soc.Vhdl.Token.{lower}
use jcore_soc.Vhdl.Nodes.{Decl, DesignUnit, DesignFile, InterfaceDecl}
use jcore_soc.Elaborate.Model.{StrMap, get, put}
use jcore_soc.Iface.Model.{Library, DuplicateError, Package, SymbolKind}
use jcore_soc.Iface.Extract.{
  Added, duplicate, add_symbol, add_symbols, declared, declared_kind, extend_package, package_decls,
  add_package, new_package, add_entity, add_architecture, add_configuration, add_unit, add_units,
  add_files, extract, empty_library, file_work_uses, of_decls,
}
use jcore_soc.Iface.Extract.Names.{
  entity_space, package_space, configuration_space, symbol_space, Name, same_name, symbol_names,
  decls_names, unit_names, units_names, files_names, Apart, all_new, known, known-append,
  all_new-append, all_new_iff,
}

abbrev pub is_nil : {A : Type 0} → List A → Bool
is_nil [] = true
is_nil (x ∷ xs) = false

is_nil_iff : {A : Type 0} (xs : List A) → (is_nil xs ≡ true) ↔ (xs ≡ [])
is_nil_iff [] = (λ _. refl, λ _. refl)
is_nil_iff (x ∷ xs) = (λ e. cc e, λ e. cc e)

is_nil-append : {A : Type 0} (xs ys : List A) → is_nil (xs ++ ys) ≡ is_nil xs && is_nil ys
is_nil-append [] ys = refl
is_nil-append (x ∷ xs) ys = refl

str_eq-sym : (a b : Bytes) → str_eq a b ≡ str_eq b a
str_eq-sym a b = elim (Bool-cases (str_eq a b)) [
  | inl y ↦ y ∙ sym ((str_eq_iff b a).1 (sym ((str_eq_iff a b).0 y)))
  | inr n ↦ elim (Bool-cases (str_eq b a)) [
    | inl z ↦ (let y : str_eq a b ≡ true = (str_eq_iff a b).1 (sym ((str_eq_iff b a).0 z)) in cc)
    | inr m ↦ n ∙ sym m
  ]
]

is_some-put :
    {A : Type 0} (k : Bytes) (v : A) (m : StrMap A) (j : Bytes)
    → is_some (get (put k v m) j) ≡ str_eq j k || is_some (get m j)
unfolding get
is_some-put k v m j = elim (Bool-cases (str_eq k j)) [
  | inl y ↦ rw (str_eq-sym j k, y, get) refl
  | inr n ↦ rw (str_eq-sym j k, n, get) refl
]

-- The name is a key of its map.
abbrev taken : Library → Name → Bool
taken l (entity_space, k) = is_some (get l.entities k)
taken l (package_space, k) = is_some (get l.packages k)
taken l (configuration_space, k) = is_some (get l.configurations k)
taken l (symbol_space, k) = is_some (get l.index k)

abbrev Tracked : Library → List Name → Type 0
Tracked l ks = (n : Name) → taken l n ≡ any (same_name n) ks

-- The operation enters the names, in their order, and reports an error unless each of them is new.
abbrev Adds : (Library → Added) → List Name → Type 0
Adds op ns =
    (l : Library) (ks : List Name)
    → Tracked l ks
    → (is_nil (op l).1 ≡ all_new ks ns) × Tracked (op l).0 (known ns ks)

is_nil-duplicate :
    {A : Type 0} (o : Option A) (e : DuplicateError) → is_nil (duplicate o e) ≡ not (is_some o)
unfolding duplicate
is_nil-duplicate none e = refl
is_nil-duplicate (some x) e = refl

nothing-Adds : Adds (λ l. (l, [])) []
unfolding all_new
nothing-Adds l ks h = (refl, h)

then-Adds :
    (op op' : Library → Added) (ns ns' : List Name)
    → Adds op ns
    → Adds op' ns'
    → Adds (λ l. ((op' (op l).0).0, (op l).1 ++ (op' (op l).0).1)) (ns ++ ns')
then-Adds op op' ns ns' a a' l ks h =
    let (e, t) = a l ks h in
    let (e', t') = a' (op l).0 (known ns ks) t in
    (
      is_nil-append (op l).1 (op' (op l).0).1 ∙ rw (e, e') (sym (all_new-append ns ns' ks)),
      subst (Tracked (op' (op l).0).0) (sym (known-append ns ns' ks)) t',
    )

add_symbol-Adds :
    (n pkg : Bytes) (kind : SymbolKind) (node : Decl)
    → Adds (add_symbol n pkg kind node) ((symbol_space, lower n) ∷ [])
unfolding add_symbol all_new
add_symbol-Adds n pkg kind node l ks h = (
  is_nil-duplicate (get l.index (lower n)) _ ∙ ground (arith, h (symbol_space, lower n)),
  tracked,
)
  where
    tracked :
        (m : Name)
        → taken (add_symbol n pkg kind node l).0 m
          ≡ any (same_name m) ((symbol_space, lower n) ∷ ks)
    tracked (entity_space, k) = h (entity_space, k)
    tracked (package_space, k) = h (package_space, k)
    tracked (configuration_space, k) = h (configuration_space, k)
    tracked (symbol_space, k) =
        is_some-put (lower n) _ l.index k ∙ ap (λ b. str_eq k (lower n) || b) (h (symbol_space, k))

add_symbols-Adds :
    (ns : List Bytes) (pkg : Bytes) (kind : SymbolKind) (node : Decl)
    → Adds (add_symbols ns pkg kind node) (symbol_names ns)
unfolding add_symbols
add_symbols-Adds [] pkg kind node = nothing-Adds
add_symbols-Adds (n ∷ ns) pkg kind node =
    then-Adds (add_symbol n pkg kind node) (add_symbols ns pkg kind node) _ _
      (add_symbol-Adds n pkg kind node) (add_symbols-Adds ns pkg kind node)

package_decls-Adds :
    (pkg : Bytes) (ds : List Decl) (p : Package)
    → Adds (λ l. (package_decls pkg ds p l).1) (decls_names ds)
unfolding package_decls decls_names
package_decls-Adds pkg [] p = nothing-Adds
package_decls-Adds pkg (d ∷ ds) p =
    then-Adds (add_symbols (declared d) pkg (declared_kind d) d)
      (λ l. (package_decls pkg ds (extend_package d p) l).1) _ _
      (add_symbols-Adds (declared d) pkg (declared_kind d) d)
      (package_decls-Adds pkg ds (extend_package d p))

packages-add_symbols :
    (ns : List Bytes) (pkg : Bytes) (kind : SymbolKind) (node : Decl) (l : Library)
    → (add_symbols ns pkg kind node l).0.packages ≡ l.packages
unfolding add_symbols add_symbol
packages-add_symbols [] pkg kind node l = refl
packages-add_symbols (n ∷ ns) pkg kind node l =
    packages-add_symbols ns pkg kind node (add_symbol n pkg kind node l).0

pub packages-package_decls :
    (pkg : Bytes) (ds : List Decl) (p : Package) (l : Library)
    → (package_decls pkg ds p l).1.0.packages ≡ l.packages
unfolding package_decls
packages-package_decls pkg [] p l = refl
packages-package_decls pkg (d ∷ ds) p l =
    packages-package_decls pkg ds (extend_package d p)
      (add_symbols (declared d) pkg (declared_kind d) d l).0
    ∙ packages-add_symbols (declared d) pkg (declared_kind d) d l

add_package-Adds :
    (n : Bytes) (ds : List Decl)
    → Adds (add_package n ds) (decls_names ds ++ (package_space, lower n) ∷ [])
unfolding add_package all_new
add_package-Adds n ds l ks h =
    let r : Added = (package_decls n ds (new_package n) l).1 in
    let ns : List Name = decls_names ds in
    let same : r.0.packages ≡ l.packages = packages-package_decls n ds (new_package n) l in
    let (e, t) = package_decls-Adds n ds (new_package n) l ks h in
    let old : is_some (get l.packages (lower n))
        ≡ any (same_name (package_space, lower n)) (known ns ks) =
      ap (λ m. is_some (get m (lower n))) (sym same) ∙ t (package_space, lower n) in
    let tracked : Tracked (add_package n ds l).0 ((package_space, lower n) ∷ known ns ks) =
      entered r.0 _ _ t in
    (
      is_nil-append (duplicate (get l.packages (lower n)) _) r.1
          ∙ rw (is_nil-duplicate (get l.packages (lower n)) _, old, e)
              (swap _ _ ∙ sym (all_new-append ns ((package_space, lower n) ∷ []) ks)),
      subst (Tracked (add_package n ds l).0) (sym (known-append ns _ ks)) tracked,
    )
  where
    swap : (a b : Bool) → not a && b ≡ b && (not a && true)
    swap a b = ground arith

    entered :
        (l' : Library) (p : Package) (known_names : List Name)
        → Tracked l' known_names
        → Tracked
            (record l' { packages = put (lower n) p l'.packages })
            ((package_space, lower n) ∷ known_names)
    entered l' p kn t (entity_space, k) = t (entity_space, k)
    entered l' p kn t (symbol_space, k) = t (symbol_space, k)
    entered l' p kn t (configuration_space, k) = t (configuration_space, k)
    entered l' p kn t (package_space, k) =
        is_some-put (lower n) _ l'.packages k
        ∙ ap (λ b. str_eq k (lower n) || b) (t (package_space, k))

add_entity-Adds :
    (n : Bytes) (gs ps : List InterfaceDecl) (ds : List Decl) (uses : List Bytes)
    → Adds (add_entity n gs ps ds uses) ((entity_space, lower n) ∷ [])
unfolding add_entity all_new
add_entity-Adds n gs ps ds uses l ks h = (
  is_nil-duplicate (get l.entities (lower n)) _ ∙ ground (arith, h (entity_space, lower n)),
  tracked,
)
  where
    tracked :
        (m : Name)
        → taken (add_entity n gs ps ds uses l).0 m
          ≡ any (same_name m) ((entity_space, lower n) ∷ ks)
    tracked (symbol_space, k) = h (symbol_space, k)
    tracked (package_space, k) = h (package_space, k)
    tracked (configuration_space, k) = h (configuration_space, k)
    tracked (entity_space, k) =
        is_some-put (lower n) _ l.entities k
        ∙ ap (λ b. str_eq k (lower n) || b) (h (entity_space, k))

add_configuration-Adds :
    (n entity arch : Bytes) (node : DesignUnit)
    → Adds (add_configuration n entity arch node) ((configuration_space, lower n) ∷ [])
unfolding add_configuration all_new
add_configuration-Adds n entity arch node l ks h = (
  is_nil-duplicate (get l.configurations (lower n)) _
      ∙ ground (arith, h (configuration_space, lower n)),
  tracked,
)
  where
    tracked :
        (m : Name)
        → taken (add_configuration n entity arch node l).0 m
          ≡ any (same_name m) ((configuration_space, lower n) ∷ ks)
    tracked (symbol_space, k) = h (symbol_space, k)
    tracked (package_space, k) = h (package_space, k)
    tracked (entity_space, k) = h (entity_space, k)
    tracked (configuration_space, k) =
        is_some-put (lower n) _ l.configurations k
        ∙ ap (λ b. str_eq k (lower n) || b) (h (configuration_space, k))

add_architecture-Adds : (n e : Bytes) (node : DesignUnit) → Adds (add_architecture n e node) []
unfolding add_architecture all_new
add_architecture-Adds n e node l ks h = (refl, tracked)
  where
    tracked : (m : Name) → taken (add_architecture n e node l).0 m ≡ any (same_name m) ks
    tracked (symbol_space, k) = h (symbol_space, k)
    tracked (package_space, k) = h (package_space, k)
    tracked (entity_space, k) = h (entity_space, k)
    tracked (configuration_space, k) = h (configuration_space, k)

add_unit-Adds : (uses : List Bytes) (u : DesignUnit) → Adds (add_unit uses u) (unit_names u)
unfolding add_unit unit_names
add_unit-Adds uses (DesignUnit.entity_decl n gs ps ds ss) =
    add_entity-Adds n gs ps (of_decls ds) uses
add_unit-Adds uses (DesignUnit.architecture_body n e ds ss) = add_architecture-Adds n e _
add_unit-Adds uses (DesignUnit.package_decl n ds) = add_package-Adds n (of_decls ds)
add_unit-Adds uses (DesignUnit.configuration_decl n e us b) = add_configuration-Adds n e _ _
add_unit-Adds uses (DesignUnit.package_body n ds) = nothing-Adds

add_units-Adds :
    (uses : List Bytes) (us : List DesignUnit) → Adds (add_units uses us) (units_names us)
unfolding add_units units_names
add_units-Adds uses [] = nothing-Adds
add_units-Adds uses (u ∷ us) =
    then-Adds (add_unit uses u) (add_units uses us) _ _ (add_unit-Adds uses u)
      (add_units-Adds uses us)

add_files-Adds : (dfs : List DesignFile) → Adds (add_files dfs) (files_names dfs)
unfolding add_files files_names
add_files-Adds [] = nothing-Adds
add_files-Adds (f ∷ fs) =
    then-Adds (add_units (file_work_uses f) f.units) (add_files fs) _ _
      (add_units-Adds (file_work_uses f) f.units) (add_files-Adds fs)

empty-Tracked : Tracked empty_library []
unfolding get
empty-Tracked (entity_space, k) = refl
empty-Tracked (package_space, k) = refl
empty-Tracked (configuration_space, k) = refl
empty-Tracked (symbol_space, k) = refl

-- Extract reports nothing exactly when the entities, the packages, the configurations and the symbols
-- of all packages (constants, types, subtypes, components) that the files declare have names that
-- differ pairwise in lower case, each within its own kind of map.
pub extract_iff :
    (dfs : List DesignFile) → ((extract dfs).1 ≡ []) ↔ AllPairs Apart (files_names dfs)
unfolding extract
extract_iff dfs =
    let (e, t) = add_files-Adds dfs empty_library [] empty-Tracked in
    let i = is_nil_iff (extract dfs).1 in
    let n = all_new_iff (files_names dfs) in (λ h. n.0 (sym e ∙ i.1 h), λ p. i.0 (e ∙ n.1 p))
