-- ===== src/Elaborate/Irq/Wire.antt =====
-- tools/socgen/elaborate/irq.go: `buildIRQ` from the groups on, and `setOverride`.
use jcore_soc.Base.{
  ℕ, zero, suc, ◌+◌, Bool, false, not, Option, none, some, List, [], ◌∷◌, ◌++◌, leb, if◌then◌else◌,
  replicate, any, Bytes, codes, str_eq, ℤ, pos, negsuc, is_neg, to_nat, int_eq, int_lt, show_int,
  sort_by,
}
use jcore_soc.Vhdl.Lexer.{rune_text}
use jcore_soc.Elaborate.Model.{Resolution, StrMap, get, put}
use jcore_soc.Elaborate.Irq.Model.{
  Device, IrqError, bad_cpu, bad_path, vector_mismatch, aic_coverage, IrqTuple, IrqModel, IntMap,
  int_get, int_keys, Group, group_tuples, sort_groups, all_tuples,
}
use jcore_soc.Elaborate.Irq.{AicScan, index_devices, scan_aics, cover, gather_tuples}

-- A missing map reads as an empty one, which is then there.
abbrev pub inner_map : StrMap (StrMap Bytes) → Bytes → StrMap Bytes
inner_map m k = elim (get m k) [ none ↦ [] | some inner ↦ inner ]

unfoldable pub set_override : Bytes → Bytes → Bytes → IrqModel → IrqModel
set_override dev port text m = record m {
  port_overrides = put dev (put port text (inner_map m.port_overrides dev)) m.port_overrides;
}

-- `irqs<cpu>`, and one of its bits.
abbrev pub irqs_name : ℤ → Bytes
irqs_name cpu = codes "irqs" ++ show_int cpu

abbrev pub target_name : ℤ → ℤ → Bytes
target_name cpu path = irqs_name cpu ++ codes "(" ++ show_int path ++ codes ")"

abbrev pub source_name : ℤ → ℤ → ℕ → Bytes
source_name cpu path i =
    codes "irq_" ++ show_int cpu ++ codes "_" ++ show_int path ++ codes "_" ++ rune_text (b'a' + i)

-- `aicByCPU[cpu]`, "" without an entry.
abbrev pub aic_name : IntMap Bytes → ℤ → Bytes
aic_name by_cpu cpu = elim (int_get by_cpu cpu) [ none ↦ [] | some n ↦ n ]

-- The signal and the empty vector table of each AIC's cpu.
unfoldable pub declare_aics : IntMap Bytes → List ℤ → IrqModel → IrqModel
declare_aics by_cpu [] m = m
declare_aics by_cpu (cpu ∷ cpus) m = declare_aics by_cpu cpus (record m {
  signals = m.signals ++ record { name = irqs_name cpu; width = 8 } ∷ [];
  vector_numbers = put (aic_name by_cpu cpu) (replicate 8 (pos 0)) m.vector_numbers;
})

unfoldable pub open_all : List IrqTuple → IrqModel → IrqModel
unfolding set_override
open_all [] m = m
open_all (t ∷ ts) m = open_all ts (set_override t.dev t.port (codes "open") m)

-- `xs[i] = v` of an array.
abbrev pub set_at : List ℤ → ℕ → ℤ → List ℤ
set_at [] i v = []
set_at (x ∷ xs) zero v = v ∷ xs
set_at (x ∷ xs) (suc i) v = x ∷ set_at xs i v

abbrev pub path_in_range : ℤ → Bool
path_in_range (pos n) = leb n 7
path_in_range (negsuc n) = false

-- The table of an AIC; a missing one reads as zeros.
abbrev pub table_of : StrMap (List ℤ) → Bytes → List ℤ
table_of m aic = elim (get m aic) [ none ↦ replicate 8 (pos 0) | some v ↦ v ]

unfoldable pub set_vector : Bytes → Group → IrqModel → IrqModel
set_vector aic g m =
    if path_in_range g.path
    then record m {
      vector_numbers =
          put aic (set_at (table_of m.vector_numbers aic) (to_nat g.path) g.first.vector)
            m.vector_numbers;
    }
    else m

-- What the loop over the tuples of a shared path builds.
pub record Combined : Type 0 where
  pub model : IrqModel
  pub sources : List Bytes
  pub errs : List IrqError

unfoldable pub combine_from : Group → ℕ → List IrqTuple → Combined → Combined
unfolding set_override
combine_from g i [] c = c
combine_from g i (t ∷ ts) c =
    let src = source_name g.cpu g.path i in
    let declared = record (c.model) {
      signals = c.model.signals ++ record { name = src; width = 0 } ∷ [];
    } in
    combine_from g (i + 1) ts (record {
      model = set_override t.dev t.port src declared;
      sources = c.sources ++ src ∷ [];
      errs =
          if not (int_eq t.vector g.first.vector)
          then c.errs ++ vector_mismatch t.dev t.vector g.first.vector g.cpu g.path ∷ []
          else c.errs;
    })

-- A group on the cpu of an AIC, by its tuples behind the first: an only port is on the target, else
-- each port gets a source of its own.
unfoldable pub wire_target : Group → List IrqTuple → IrqModel → IrqModel × List IrqError
unfolding combine_from
wire_target g [] m = (set_override g.first.dev g.first.port (target_name g.cpu g.path) m, [])
wire_target g (t ∷ ts) m =
    let c = combine_from g 0 (g.first ∷ (t ∷ ts)) (record { model = m; sources = []; errs = [] }) in
    let target = target_name g.cpu g.path in
    (
      record (c.model) {
        or_assigns = c.model.or_assigns ++ record { target = target; sources = c.sources } ∷ [];
      },
      c.errs,
    )

abbrev pub range_errors : Group → List IrqError
range_errors g =
    (if is_neg g.cpu then bad_cpu g.first.dev g.cpu ∷ [] else [])
    ++ (if not (path_in_range g.path) then bad_path g.first.dev g.path ∷ [] else [])

unfoldable pub wire_group : IntMap Bytes → Group → IrqModel → IrqModel × List IrqError
unfolding wire_target open_all set_vector
wire_group by_cpu g m =
    let opened = open_all (all_tuples g) m in
    elim (int_get by_cpu g.cpu) [
      | none ↦ (opened, range_errors g)
      | some aic ↦
          let (wired, errs) = wire_target g g.others (set_vector aic g m) in
          (wired, range_errors g ++ errs)
    ]

unfoldable pub wire_groups :
    IntMap Bytes → List Group → IrqModel × List IrqError → IrqModel × List IrqError
unfolding wire_group
wire_groups by_cpu [] r = r
wire_groups by_cpu (g ∷ gs) (m, errs) =
    let (m', more) = wire_group by_cpu g m in wire_groups by_cpu gs (m', errs ++ more)

-- The `irq_i` of each AIC, unless the design maps it.
unfoldable pub wire_aics : AicScan → List ℤ → IrqModel → IrqModel
wire_aics scan [] m = m
wire_aics scan (cpu ∷ cpus) m =
    let aic = aic_name scan.by_cpu cpu in
    let wired = set_override aic (codes "irq_i") (irqs_name cpu) m in
    wire_aics scan cpus (if any (str_eq aic) scan.explicit then m else wired)

abbrev pub no_wires : IrqModel
no_wires = record { signals = []; or_assigns = []; port_overrides = []; vector_numbers = [] }

abbrev pub coverage_errors : List ℤ → List IrqError
coverage_errors cpus = if cover 0 cpus then [] else aic_coverage cpus ∷ []

abbrev pub aic_cpus : AicScan → List ℤ
aic_cpus scan = sort_by int_lt (int_keys scan.by_cpu)

-- The part behind the gathering of the tuples.
unfoldable pub wire_all : AicScan → List IrqTuple → IrqModel × List IrqError
unfolding declare_aics wire_groups wire_aics
wire_all scan tuples =
    let cpus = aic_cpus scan in
    let start = declare_aics scan.by_cpu cpus no_wires in
    let (m, errs) = wire_groups scan.by_cpu (sort_groups (group_tuples tuples [])) (start, []) in
    (wire_aics scan cpus m, errs)

-- The model, if there is an AIC, and the errors; a design that is nil has neither.
unfoldable pub build_irq : Resolution → Option (List Device) → Option IrqModel × List IrqError
unfolding scan_aics gather_tuples wire_all
build_irq res none = (none, [])
build_irq res (some devices) =
    let by_name = index_devices res.devices [] in
    let scan = scan_aics res 0 devices (record { by_cpu = []; explicit = []; errs = [] }) in
    let (tuples, gather_errs) = gather_tuples res by_name 0 devices in
    let (m, wire_errs) = wire_all scan tuples in
    let errs = scan.errs ++ (coverage_errors (aic_cpus scan) ++ (gather_errs ++ wire_errs)) in
    elim scan.by_cpu [ [] ↦ (none, scan.errs) | e ∷ es ↦ (some m, errs) ]
