-- ===== src/Elaborate/Irq/Sources.antt =====
-- Every OR of interrupts combines at least two sources, each a declared signal.
use jcore_soc.Base.{
  ℕ, ◌+◌, ◌≡◌, refl, sym, ◌∙◌, inl, inr, Bool, true, ◌&&◌, Option, none, some, List, [], ◌∷◌, ◌++◌,
  append_assoc, append-nil, arith, leb, Bool-cases, Option-cases, &&-elim, length, length-append,
  all, any, Bytes, codes, str_eq, str_eq_refl, ℤ,
}
use jcore_soc.Elaborate.Model.{Resolution}
use jcore_soc.Elaborate.Irq.Model.{
  Device, IrqError, IrqTuple, IrqSignal, IrqOrAssign, IrqModel, IntMap, int_get, Group,
  group_tuples, sort_groups, all_tuples,
}
use jcore_soc.Elaborate.Irq.{AicScan, gather_tuples, scan_aics, index_devices}
use jcore_soc.Elaborate.Irq.Wire.{
  set_override, target_name, source_name, aic_name, declare_aics, open_all, set_vector, Combined,
  combine_from, wire_target, wire_group, wire_groups, wire_aics, no_wires, wire_all, build_irq,
  aic_cpus, path_in_range, irqs_name,
}

abbrev pub declared : List IrqSignal → Bytes → Bool
declared signals n = any (λ (s : IrqSignal). str_eq s.name n) signals

abbrev pub is_combined : List IrqSignal → IrqOrAssign → Bool
is_combined signals a = all (declared signals) a.sources && leb 2 (length a.sources)

-- The assignments of a model combine two or more declared signals each.
abbrev pub all_combined : IrqModel → Bool
all_combined m = all (is_combined m.signals) m.or_assigns

declared-append :
    (xs ys : List IrqSignal) (n : Bytes) → declared xs n ≡ true → declared (xs ++ ys) n ≡ true
declared-append (x ∷ xs) ys n h = ground (arith, declared-append xs ys n)
declared-append [] ys n h = cc h

declared-last : (xs : List IrqSignal) (s : IrqSignal) → declared (xs ++ s ∷ []) s.name ≡ true
declared-last [] s = rw (str_eq_refl s.name)
declared-last (x ∷ xs) s = ground (arith, declared-last xs s)

all-weaken :
    {A : Type 0} (p q : A → Bool) (xs : List A)
    → ((x : A) → p x ≡ true → q x ≡ true)
    → all p xs ≡ true
    → all q xs ≡ true
all-weaken p q [] f h = refl
all-weaken p q (x ∷ xs) f h = let (a, b) = &&-elim _ _ h in rw (f x a, all-weaken p q xs f b)

all-append :
    {A : Type 0} (p : A → Bool) (xs : List A) (x : A)
    → all p xs ≡ true
    → p x ≡ true
    → all p (xs ++ x ∷ []) ≡ true
all-append p [] x h k = rw k
all-append p (y ∷ xs) x h k =
    let r = &&-elim (p y) (all p xs) h in rw (r.0, all-append p xs x r.1 k)

is_combined-append :
    (xs ys : List IrqSignal) (a : IrqOrAssign)
    → is_combined xs a ≡ true
    → is_combined (xs ++ ys) a ≡ true
is_combined-append xs ys a h =
    let (d, two) = &&-elim _ _ h in
    rw (all-weaken (declared xs) (declared (xs ++ ys)) a.sources (declared-append xs ys) d, two)

-- What the loop over a shared path does: signals are added, each source is one of them.
record Combines (c r : Combined) (n : ℕ) : Type 0 where
  extra : List IrqSignal
  signals : r.model.signals ≡ c.model.signals ++ extra
  kept : r.model.or_assigns ≡ c.model.or_assigns
  sources : all (declared r.model.signals) r.sources ≡ true
  count : length r.sources ≡ length c.sources + n

combine_from-Combines :
    (g : Group) (i : ℕ) (ts : List IrqTuple) (c : Combined)
    → all (declared c.model.signals) c.sources ≡ true
    → Combines c (combine_from g i ts c) (length ts)
unfolding combine_from set_override
combine_from-Combines g i [] c h = record {
  extra = [];
  signals = sym (append-nil c.model.signals);
  kept = refl;
  sources = h;
  count = omega arith;
}
combine_from-Combines g i (t ∷ ts) c h =
    let src = source_name g.cpu g.path i in
    let own : IrqSignal = record { name = src; width = 0 } in
    let more =
      all-weaken (declared c.model.signals) (declared (c.model.signals ++ own ∷ [])) c.sources
        (declared-append c.model.signals (own ∷ [])) h in
    let x = combine_from-Combines g (i + 1) ts _ (
      all-append (declared (c.model.signals ++ own ∷ [])) c.sources src more
        (declared-last c.model.signals own)) in
    record {
      extra = own ∷ x.extra;
      signals = x.signals ∙ append_assoc c.model.signals (own ∷ []) x.extra;
      kept = x.kept;
      sources = x.sources;
      count = omega (arith, x.count, length-append c.sources (src ∷ []));
    }

-- Overrides and vector tables are apart from the signals and the assignments.
record Keeps (m m' : IrqModel) : Type 0 where
  signals : m'.signals ≡ m.signals
  assigns : m'.or_assigns ≡ m.or_assigns

Keeps-combined : {m m' : IrqModel} → Keeps m m' → all_combined m ≡ true → all_combined m' ≡ true
Keeps-combined k h = rw (k.signals, k.assigns) h

open_all-Keeps : (ts : List IrqTuple) (m : IrqModel) → Keeps m (open_all ts m)
unfolding open_all set_override
open_all-Keeps [] m = record { signals = refl; assigns = refl }
open_all-Keeps (t ∷ ts) m =
    let x = open_all-Keeps ts (set_override t.dev t.port (codes "open") m) in
    record { signals = x.signals; assigns = x.assigns }

set_vector-Keeps : (aic : Bytes) (g : Group) (m : IrqModel) → Keeps m (set_vector aic g m)
unfolding set_vector
set_vector-Keeps aic g m = elim (Bool-cases (path_in_range g.path)) [
  | inl y ↦ record { signals = rw y; assigns = rw y }
  | inr n ↦ record { signals = rw n; assigns = rw n }
]

set_override-Keeps : (dev port text : Bytes) (m : IrqModel) → Keeps m (set_override dev port text m)
unfolding set_override
set_override-Keeps dev port text m = record { signals = refl; assigns = refl }

wire_target-combined :
    (g : Group) (ts : List IrqTuple) (m : IrqModel)
    → all_combined m ≡ true
    → all_combined (wire_target g ts m).0 ≡ true
unfolding wire_target
wire_target-combined g [] m h =
    Keeps-combined (set_override-Keeps g.first.dev g.first.port (target_name g.cpu g.path) m) h
wire_target-combined g (t ∷ ts) m h =
    let x =
      combine_from-Combines g 0 (g.first ∷ (t ∷ ts)) (record { model = m; sources = []; errs = [] })
        refl in
    let c = combine_from g 0 (g.first ∷ (t ∷ ts)) (record { model = m; sources = []; errs = [] }) in
    let old : all (is_combined c.model.signals) c.model.or_assigns ≡ true =
      rw (x.kept, x.signals)
        (all-weaken (is_combined m.signals) (is_combined (m.signals ++ x.extra)) m.or_assigns
          (is_combined-append m.signals x.extra) h) in
    let two : leb 2 (length c.sources) ≡ true = ground (arith, x.count) in
    all-append (is_combined c.model.signals) c.model.or_assigns
      (record { target = target_name g.cpu g.path; sources = c.sources }) old (rw (x.sources, two))

wire_group-combined :
    (by_cpu : IntMap Bytes) (g : Group) (m : IrqModel)
    → all_combined m ≡ true
    → all_combined (wire_group by_cpu g m).0 ≡ true
unfolding wire_group
wire_group-combined by_cpu g m h = elim (Option-cases (int_get by_cpu g.cpu)) [
  | inl no_aic ↦ rw (no_aic, wire_group) (Keeps-combined (open_all-Keeps (all_tuples g) m) h)
  | inr (aic, found) ↦
      rw (found, wire_group)
        (wire_target-combined g g.others (set_vector aic g m)
          (Keeps-combined (set_vector-Keeps aic g m) h))
]

wire_groups-combined :
    (by_cpu : IntMap Bytes) (gs : List Group) (r : IrqModel × List IrqError)
    → all_combined r.0 ≡ true
    → all_combined (wire_groups by_cpu gs r).0 ≡ true
unfolding wire_groups
wire_groups-combined by_cpu [] r h = h
wire_groups-combined by_cpu (g ∷ gs) (m, errs) h =
    wire_groups-combined by_cpu gs _ (wire_group-combined by_cpu g m h)

declare_aics-combined :
    (by_cpu : IntMap Bytes) (cpus : List ℤ) (m : IrqModel)
    → m.or_assigns ≡ []
    → all_combined (declare_aics by_cpu cpus m) ≡ true
unfolding declare_aics
declare_aics-combined by_cpu [] m e = rw e
declare_aics-combined by_cpu (cpu ∷ cpus) m e = declare_aics-combined by_cpu cpus _ e

wire_aics-combined :
    (scan : AicScan) (cpus : List ℤ) (m : IrqModel)
    → all_combined m ≡ true
    → all_combined (wire_aics scan cpus m) ≡ true
unfolding wire_aics
wire_aics-combined scan [] m h = h
wire_aics-combined scan (cpu ∷ cpus) m h =
    let aic = aic_name scan.by_cpu cpu in
    wire_aics-combined scan cpus _ (elim (Bool-cases (any (str_eq aic) scan.explicit)) [
      | inl y ↦ rw y h
      | inr n ↦ rw n (Keeps-combined (set_override-Keeps aic (codes "irq_i") (irqs_name cpu) m) h)
    ])

abbrev pub model_combined : Option IrqModel → Bool
model_combined none = true
model_combined (some m) = all_combined m

-- In the model that is built, every OR combines two or more sources, and each source is a declared
-- signal.
pub build_irq-combined :
    (res : Resolution) (devices : Option (List Device))
    → model_combined (build_irq res devices).0 ≡ true
unfolding build_irq wire_all
build_irq-combined res none = refl
build_irq-combined res (some devices) =
    let scan = scan_aics res 0 devices (record { by_cpu = []; explicit = []; errs = [] }) in
    let tuples = (gather_tuples res (index_devices res.devices []) 0 devices).0 in
    by_aics scan.by_cpu (wire_all scan tuples).0 _ _ (
      wire_aics-combined scan (aic_cpus scan) _ (
        wire_groups-combined scan.by_cpu (sort_groups (group_tuples tuples [])) _
          (declare_aics-combined scan.by_cpu (aic_cpus scan) no_wires refl)))
  where
    by_aics :
        (by_cpu : IntMap Bytes) (m : IrqModel) (some_errs no_errs : List IrqError)
        → all_combined m ≡ true
        → model_combined
            (elim by_cpu as (λ _. Option IrqModel × List IrqError) [
              | [] ↦ (none, no_errs)
              | e ∷ es ↦ (some m, some_errs)
            ]).0
          ≡ true
    by_aics [] m s n h = refl
    by_aics (e ∷ es) m s n h = h
