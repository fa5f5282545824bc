-- ===== src/Elaborate/Model.antt =====
-- tools/socgen/elaborate/model.go and the helper `lc`: the records that the checks read, with the
-- fields that they read.
use jcore_soc.Base.{
  ℕ, Bool, not, ◌&&◌, ◌||◌, Option, none, some, List, [], ◌∷◌, leb, ◌==◌, if◌then◌else◌, select,
  Bytes, str_eq, ℤ,
}
use jcore_soc.Vhdl.Token.{lower}

abbrev pub is_space : ℕ → Bool
is_space c = c == b' ' || (leb 9 c && leb c 13)

abbrev pub trim_left : Bytes → Bytes
trim_left [] = []
trim_left (c ∷ s) = let rest = trim_left s in if is_space c then rest else c ∷ s

abbrev pub trim_right : Bytes → Bytes
trim_right [] = []
trim_right (c ∷ s) =
    let rest = trim_right s in
    elim rest [ [] ↦ (if is_space c then [] else c ∷ []) | x ∷ xs ↦ c ∷ (x ∷ xs) ]

-- `strings.ToLower(strings.TrimSpace(s))` of an ASCII text.
unfoldable pub lc : Bytes → Bytes
unfolding lower
lc s = lower (trim_left (trim_right s))

-- A Go map with texts for keys: the entry put last counts.
abbrev pub StrMap : Type 0 → Type 0
StrMap A = List (Bytes × A)

module _ {A : Type 0} where
  unfoldable pub get : StrMap A → Bytes → Option A
  get [] k = none
  get ((j, v) ∷ m) k = if str_eq j k then some v else get m k

  abbrev pub put : Bytes → A → StrMap A → StrMap A
  put k v m = (k, v) ∷ m

pub data PortKind : Type 0 where
  kind_signal : PortKind
  kind_value : PortKind
  kind_irq : PortKind
  kind_data_bus : PortKind
  kind_deferred : PortKind

-- `type_mark` is the mark of the type; `none` is a port without a resolved type. `type_text` is the
-- text that the type's `String` gives.
pub record ResolvedPort : Type 0 where
  pub name : Bytes
  pub dir : Bytes
  pub type_mark : Option Bytes
  pub type_text : Bytes
  pub kind : PortKind
  pub global_signal : Bytes

-- `entity_ports` holds the port names of the bound entity, `none` where no entity is bound.
pub record ResolvedClass : Type 0 where
  pub name : Bytes
  pub left_addr_bit : ℤ
  pub entity_ports : Option (List Bytes)

pub record ResolvedDevice : Type 0 where
  pub name : Bytes
  pub class_name : Bytes
  pub base_addr : Option ℕ
  pub ports : List ResolvedPort
  pub data_bus : Bool

-- A top entity or a padring entity with its ports.
pub record ResolvedEntity : Type 0 where
  pub name : Bytes
  pub ports : List ResolvedPort

pub record Resolution : Type 0 where
  pub classes : StrMap ResolvedClass
  pub devices : List ResolvedDevice
  pub top_entities : StrMap ResolvedEntity
  pub padring_entities : StrMap ResolvedEntity

-- `res.Classes[lc(dev.Class)]`.
unfoldable pub class_of : StrMap ResolvedClass → ResolvedDevice → Option ResolvedClass
class_of classes dev = get classes (lc dev.class_name)

-- The keys of a map, each once.
module _ {A : Type 0} where
  unfoldable pub keys : StrMap A → List Bytes
  keys [] = []
  keys ((k, v) ∷ m) = k ∷ select (λ j. not (str_eq k j)) (keys m)
