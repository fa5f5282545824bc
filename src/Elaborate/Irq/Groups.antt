-- ===== src/Elaborate/Irq/Groups.antt =====
-- The groups hold, for each cpu and path, the tuples that name them, in order.
use jcore_soc.Base.{
  ◌≡◌, refl, sym, ap, ◌∙◌, Bool, true, false, ◌&&◌, List, [], ◌∷◌, ◌++◌, append_assoc, append-nil,
  arith, if◌then◌else◌, select, ℤ, int_eq, int_eq_iff,
}
use jcore_soc.Elaborate.Irq.Model.{IrqTuple, Group, all_tuples, has_key, add_tuple, group_tuples}

-- `groups[key{cpu, path}]`.
abbrev pub group_of : List Group → ℤ → ℤ → List IrqTuple
group_of [] cpu path = []
group_of (g ∷ gs) cpu path =
    let rest = group_of gs cpu path in
    elim (int_eq g.cpu cpu && int_eq g.path path) [ true ↦ all_tuples g | false ↦ rest ]

group_of-add_tuple :
    (t : IrqTuple) (gs : List Group) (cpu path : ℤ)
    → group_of (add_tuple t gs) cpu path
      ≡ group_of gs cpu path ++ (if has_key cpu path t then t ∷ [] else [])
unfolding add_tuple
group_of-add_tuple t [] cpu path = ground arith
group_of-add_tuple t (g ∷ gs) cpu path = ground (
  arith,
  group_of-add_tuple t gs cpu path,
  int_eq_iff t.cpu g.cpu,
  int_eq_iff t.path g.path,
  int_eq_iff t.cpu cpu,
  int_eq_iff t.path path,
  int_eq_iff g.cpu cpu,
  int_eq_iff g.path path,
  append-nil (g.first ∷ g.others),
  append-nil (group_of gs cpu path),
)

group_of-group_tuples_onto :
    (ts : List IrqTuple) (gs : List Group) (cpu path : ℤ)
    → group_of (group_tuples ts gs) cpu path ≡ group_of gs cpu path ++ select (has_key cpu path) ts
unfolding group_tuples
group_of-group_tuples_onto [] gs cpu path = sym (append-nil (group_of gs cpu path))
group_of-group_tuples_onto (t ∷ ts) gs cpu path =
    group_of-group_tuples_onto ts (add_tuple t gs) cpu path
    ∙ ap (λ s. s ++ select (has_key cpu path) ts) (group_of-add_tuple t gs cpu path)
    ∙ append_assoc (group_of gs cpu path) (if has_key cpu path t then t ∷ [] else [])
        (select (has_key cpu path) ts)
    ∙ ap (λ s. group_of gs cpu path ++ s) (kept_first (has_key cpu path t))
  where
    kept_first :
        (b : Bool)
        → (if b then t ∷ [] else []) ++ select (has_key cpu path) ts ≡ elim b [
          | true ↦ t ∷ select (has_key cpu path) ts
          | false ↦ select (has_key cpu path) ts
        ]
    kept_first true = refl
    kept_first false = refl

-- The group of a cpu and a path is the tuples with that cpu and that path, in order.
pub group_of-group_tuples :
    (ts : List IrqTuple) (cpu path : ℤ)
    → group_of (group_tuples ts []) cpu path ≡ select (has_key cpu path) ts
group_of-group_tuples ts cpu path = group_of-group_tuples_onto ts [] cpu path
