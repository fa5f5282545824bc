-- ===== src/Elaborate/Irq.antt =====
-- tools/socgen/elaborate/irq.go: the wiring of the interrupts to the AICs.
pub mod Model
pub mod Groups
pub mod Wire
pub mod Sources
use jcore_soc.Base.{
  ℕ, ◌+◌, Bool, true, false, not, ◌&&◌, Option, none, some, List, [], ◌∷◌, ◌++◌, if◌then◌else◌,
  get_elem?, any, Bytes, codes, str_eq, str_lt, ℤ, pos, is_neg, int_eq, add_nat, sort_by,
}
use jcore_soc.Vhdl.Lexer.{rune_text}
use jcore_soc.Elaborate.Model.{
  ResolvedPort, ResolvedClass, ResolvedDevice, Resolution, StrMap, get, put, keys, lc, PortKind,
  kind_irq,
}
use jcore_soc.Elaborate.Irq.Model.{
  IrqEntry, IrqRef, Device, IrqError, no_port, bad_cpu, bad_path, named_port, vector_mismatch,
  aic_coverage, IrqTuple, IrqSignal, IrqOrAssign, IrqModel, IntMap, int_get, int_put, int_keys,
  Group, group_tuples, sort_groups, all_tuples,
}

-- The device's cpu, 0 by default.
abbrev pub cpu_of : Device → ℤ
cpu_of dev = elim dev.cpu [ some c ↦ c | none ↦ pos 0 ]

-- `rdByName`: the last device of a name counts.
abbrev pub index_devices : List ResolvedDevice → StrMap ResolvedDevice → StrMap ResolvedDevice
index_devices [] m = m
index_devices (rd ∷ rds) m = index_devices rds (put rd.name rd m)

abbrev pub eff_name : Resolution → ℕ → Device → Bytes
eff_name res i dev = elim (get_elem? res.devices i) [ some rd ↦ rd.name | none ↦ dev.name ]

abbrev pub is_irq : PortKind → Bool
is_irq kind_irq = true
is_irq _ = false

abbrev pub first_irq_port : List ResolvedPort → Bytes
first_irq_port [] = []
first_irq_port (p ∷ ps) = if is_irq p.kind then p.name else first_irq_port ps

-- The name of the device's interrupt port, "" if there is none.
unfoldable pub irq_port_name : Option ResolvedDevice → Bytes
irq_port_name none = []
irq_port_name (some rd) = first_irq_port rd.ports

-- True where the entity, or its list of ports, is not there.
unfoldable pub entity_has_port : Option ResolvedClass → Bytes → Bool
entity_has_port none port = true
entity_has_port (some rc) port = elim rc.entity_ports [
  | none ↦ true
  | some [] ↦ true
  | some (p ∷ ps) ↦ any (λ q. str_eq q port) (p ∷ ps)
]

-- What the loop over the AICs gathers: the cpus, the AICs with an explicit `irq_i`, the errors.
pub record AicScan : Type 0 where
  pub by_cpu : IntMap Bytes
  pub explicit : List Bytes
  pub errs : List IrqError

unfoldable pub scan_aic : Bytes → Device → AicScan → AicScan
scan_aic name dev scan =
    if not (str_eq (lc dev.class_name) (codes "aic"))
    then scan
    else if is_neg (cpu_of dev)
    then record scan { errs = scan.errs ++ bad_cpu name (cpu_of dev) ∷ [] }
    else record scan {
      by_cpu = int_put (cpu_of dev) name scan.by_cpu;
      explicit =
          if any (str_eq (codes "irq_i")) dev.port_names
          then name ∷ scan.explicit
          else scan.explicit;
    }

unfoldable pub scan_aics : Resolution → ℕ → List Device → AicScan → AicScan
unfolding scan_aic
scan_aics res i [] scan = scan
scan_aics res i (dev ∷ devs) scan =
    scan_aics res (i + 1) devs (scan_aic (eff_name res i dev) dev scan)

-- The cpus are 0, 1, … in order.
unfoldable pub cover : ℕ → List ℤ → Bool
cover i [] = true
cover i (cpu ∷ cpus) = int_eq cpu (pos i) && cover (i + 1) cpus

abbrev pub Gathered : Type 0
Gathered = List IrqTuple × List IrqError

abbrev pub both : Gathered → Gathered → Gathered
both (ts, es) (ts', es') = (ts ++ ts', es ++ es')

-- The loop over the named ports in sorted order.
unfoldable pub named_tuples : Option ResolvedClass → Bytes → StrMap IrqEntry → List Bytes → Gathered
named_tuples rc name entries [] = ([], [])
named_tuples rc name entries (port ∷ ports) =
    let rest = named_tuples rc name entries ports in
    elim (get entries port) [
      | none ↦ rest
      | some e ↦
          if not (entity_has_port rc port)
          then both ([], named_port name port ∷ []) rest
          else both
              (
                record {
                  dev = name;
                  port = port;
                  cpu = e.cpu;
                  path = e.irq;
                  vector = add_nat 0x11 e.irq;
                }
                    ∷ [],
                [],
              )
              rest
    ]

unfoldable pub int_tuple : Bytes → Bytes → ℤ → ℤ → Gathered
int_tuple name port cpu irq = if str_eq port [] then ([], no_port name ∷ []) else (
  record { dev = name; port = port; cpu = cpu; path = irq; vector = add_nat 0x11 irq } ∷ [],
  [],
)

-- The interrupts of one device.
unfoldable pub device_tuples : Resolution → StrMap ResolvedDevice → Bytes → Device → Gathered
unfolding named_tuples int_tuple
device_tuples res by_name name dev = elim dev.irq [
  | none ↦ ([], [])
  | some ref ↦ elim ref.int [
    | some irq ↦ int_tuple name (irq_port_name (get by_name name)) (cpu_of dev) irq
    | none ↦ elim ref.named [
      | none ↦ ([], [])
      | some entries ↦
          named_tuples (get res.classes (lc dev.class_name)) name entries
            (sort_by str_lt (keys entries))
    ]
  ]
]

unfoldable pub gather_tuples : Resolution → StrMap ResolvedDevice → ℕ → List Device → Gathered
unfolding device_tuples
gather_tuples res by_name i [] = ([], [])
gather_tuples res by_name i (dev ∷ devs) =
    both (device_tuples res by_name (eff_name res i dev) dev)
      (gather_tuples res by_name (i + 1) devs)
