-- ===== src/Elaborate/Irq/Model.antt =====
-- tools/socgen/elaborate/irq.go, model.go and design/model.go: the data of the interrupt wiring.
use jcore_soc.Base.{
  ℕ, Bool, true, false, not, ◌&&◌, Option, none, some, List, [], ◌∷◌, ◌++◌, if◌then◌else◌, select,
  Bytes, ℤ, int_eq, int_lt, sort_by,
}
use jcore_soc.Elaborate.Model.{StrMap}

-- `IRQEntry`, and `IRQRef` with the entries of its map, which are not null.
pub record IrqEntry : Type 0 where
  pub cpu : ℤ
  pub irq : ℤ

pub record IrqRef : Type 0 where
  pub int : Option ℤ
  pub named : Option (StrMap IrqEntry)

-- The design's device, with the keys of its `Ports`.
pub record Device : Type 0 where
  pub class_name : Bytes
  pub name : Bytes
  pub cpu : Option ℤ
  pub irq : Option IrqRef
  pub port_names : List Bytes

-- `IRQError` by its kind, with the values that its text shows.
pub data IrqError : Type 0 where
  no_port : Bytes → IrqError
  bad_cpu : Bytes → ℤ → IrqError
  bad_path : Bytes → ℤ → IrqError
  named_port : Bytes → Bytes → IrqError
  vector_mismatch : Bytes → ℤ → ℤ → ℤ → ℤ → IrqError
  aic_coverage : List ℤ → IrqError

pub record IrqTuple : Type 0 where
  pub dev : Bytes
  pub port : Bytes
  pub cpu : ℤ
  pub path : ℤ
  pub vector : ℤ

pub record IrqSignal : Type 0 where
  pub name : Bytes
  pub width : ℕ

pub record IrqOrAssign : Type 0 where
  pub target : Bytes
  pub sources : List Bytes

pub record IrqModel : Type 0 where
  pub signals : List IrqSignal
  pub or_assigns : List IrqOrAssign
  pub port_overrides : StrMap (StrMap Bytes)
  pub vector_numbers : StrMap (List ℤ)

-- A Go map with numbers for keys: the entry put last counts.
abbrev pub IntMap : Type 0 → Type 0
IntMap A = List (ℤ × A)

module _ {A : Type 0} where
  unfoldable pub int_get : IntMap A → ℤ → Option A
  int_get [] k = none
  int_get ((j, v) ∷ m) k = if int_eq j k then some v else int_get m k

  abbrev pub int_put : ℤ → A → IntMap A → IntMap A
  int_put k v m = (k, v) ∷ m

  -- The keys, each once.
  unfoldable pub int_keys : IntMap A → List ℤ
  int_keys [] = []
  int_keys ((k, v) ∷ m) = k ∷ select (λ j. not (int_eq k j)) (int_keys m)

-- The tuples of one cpu and path, in order; the map `groups` has no empty group.
pub record Group : Type 0 where
  pub cpu : ℤ
  pub path : ℤ
  pub first : IrqTuple
  pub others : List IrqTuple

abbrev pub all_tuples : Group → List IrqTuple
all_tuples g = g.first ∷ g.others

abbrev pub new_group : IrqTuple → Group
new_group t = record { cpu = t.cpu; path = t.path; first = t; others = [] }

abbrev pub has_key : ℤ → ℤ → IrqTuple → Bool
has_key cpu path t = int_eq t.cpu cpu && int_eq t.path path

-- `groups[k] = append(groups[k], t)`.
unfoldable pub add_tuple : IrqTuple → List Group → List Group
add_tuple t [] = new_group t ∷ []
add_tuple t (g ∷ gs) =
    let rest = add_tuple t gs in
    elim (has_key g.cpu g.path t) [
      | true ↦ record g { others = g.others ++ t ∷ [] } ∷ gs
      | false ↦ g ∷ rest
    ]

unfoldable pub group_tuples : List IrqTuple → List Group → List Group
unfolding add_tuple
group_tuples [] gs = gs
group_tuples (t ∷ ts) gs = group_tuples ts (add_tuple t gs)

abbrev pub group_less : Group → Group → Bool
group_less g h = if not (int_eq g.cpu h.cpu) then int_lt g.cpu h.cpu else int_lt g.path h.path

abbrev pub sort_groups : List Group → List Group
sort_groups = sort_by group_less
