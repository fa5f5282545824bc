-- ===== src/Iface/Extract/Names.antt =====
-- The names that design files declare, in the order in which they are entered, and what it is for each
-- of them to be new.
use jcore_soc.Base.{
  ◌≡◌, refl, ◌↔◌, Bool, true, false, not, ◌&&◌, ◌||◌, List, [], ◌∷◌, ◌++◌, arith, All, any, Bytes,
  str_eq, AllPairs,
}
use jcore_soc.Vhdl.Token.{lower}
use jcore_soc.Vhdl.Nodes.{Decl, DesignUnit, DesignFile}
use jcore_soc.Iface.Extract.{of_decls, declared}

-- The maps of a library whose keys must not be entered twice.
pub data Space : Type 0 where
  entity_space : Space
  package_space : Space
  configuration_space : Space
  symbol_space : Space

abbrev pub same_space : Space → Space → Bool
same_space entity_space entity_space = true
same_space package_space package_space = true
same_space configuration_space configuration_space = true
same_space symbol_space symbol_space = true
same_space _ _ = false

abbrev pub Name : Type 0
Name = Space × Bytes

abbrev pub same_name : Name → Name → Bool
same_name (s, k) (t, j) = same_space s t && str_eq k j

abbrev pub symbol_names : List Bytes → List Name
symbol_names [] = []
symbol_names (n ∷ ns) = (Space.symbol_space, lower n) ∷ symbol_names ns

unfoldable pub decls_names : List Decl → List Name
decls_names [] = []
decls_names (d ∷ ds) = symbol_names (declared d) ++ decls_names ds

unfoldable pub unit_names : DesignUnit → List Name
unit_names (DesignUnit.entity_decl n gs ps ds ss) = (Space.entity_space, lower n) ∷ []
unit_names (DesignUnit.architecture_body n e ds ss) = []
unit_names (DesignUnit.package_decl n ds) =
    decls_names (of_decls ds) ++ (Space.package_space, lower n) ∷ []
unit_names (DesignUnit.configuration_decl n e us b) = (Space.configuration_space, lower n) ∷ []
unit_names (DesignUnit.package_body n ds) = []

unfoldable pub units_names : List DesignUnit → List Name
units_names [] = []
units_names (u ∷ us) = unit_names u ++ units_names us

unfoldable pub files_names : List DesignFile → List Name
files_names [] = []
files_names (f ∷ fs) = units_names f.units ++ files_names fs

-- Two names are apart: of different maps, or with different keys.
abbrev pub Apart : Name → Name → Type 0
Apart a b = same_name b a ≡ false

-- The names, entered one after the other where `ks` are there, are all new.
unfoldable pub all_new : List Name → List Name → Bool
all_new ks [] = true
all_new ks (n ∷ ns) = not (any (same_name n) ks) && all_new (n ∷ ks) ns

abbrev pub known : List Name → List Name → List Name
known [] ks = ks
known (n ∷ ns) ks = known ns (n ∷ ks)

pub known-append : (a b ks : List Name) → known (a ++ b) ks ≡ known b (known a ks)
known-append [] b ks = refl
known-append (n ∷ a) b ks = known-append a b (n ∷ ks)

pub all_new-append :
    (a b ks : List Name) → all_new ks (a ++ b) ≡ all_new ks a && all_new (known a ks) b
unfolding all_new
all_new-append [] b ks = refl
all_new-append (n ∷ a) b ks = ground (arith, all_new-append a b (n ∷ ks))

All-both :
    (p q : Name → Bool) (ns : List Name)
    → All (λ n. p n || q n ≡ false) ns ↔ (All (λ n. p n ≡ false) ns × All (λ n. q n ≡ false) ns)
All-both p q [] = (λ _. (tt, tt), λ _. tt)
All-both p q (n ∷ ns) =
    let i = All-both p q ns in
    (
      λ (h, r). ((ground (arith, h), (i.0 r).0), (ground (arith, h), (i.0 r).1)),
      λ ((h, r), (h', r')). (ground (arith, h, h'), i.1 (r, r')),
    )

all_new_known_iff :
    (ns ks : List Name)
    → (all_new ks ns ≡ true) ↔ (AllPairs Apart ns × All (λ n. any (same_name n) ks ≡ false) ns)
unfolding all_new
all_new_known_iff [] ks = (λ _. (tt, tt), λ _. refl)
all_new_known_iff (n ∷ ns) ks =
    let i = all_new_known_iff ns (n ∷ ks) in
    let b = All-both (λ m. same_name m n) (λ m. any (same_name m) ks) ns in
    (
      λ h.
          let (rest, old) = i.0 (ground (arith, h)) in
          let (apart, others) = b.0 old in ((apart, rest), (ground (arith, h), others)),
      λ ((apart, rest), (fresh, others)).
          let t : all_new (n ∷ ks) ns ≡ true = i.1 (rest, b.1 (apart, others)) in
          ground (arith, t, fresh),
    )

All-nothing : (ns : List Name) → All (λ n. any (same_name n) [] ≡ false) ns
All-nothing [] = tt
All-nothing (n ∷ ns) = (refl, All-nothing ns)

pub all_new_iff : (ns : List Name) → (all_new [] ns ≡ true) ↔ AllPairs Apart ns
all_new_iff ns = let i = all_new_known_iff ns [] in (λ h. (i.0 h).0, λ p. i.1 (p, All-nothing ns))
