-- ===== src/Elaborate/Net.antt =====
-- tools/socgen/elaborate/netlist.go, netlist_validate.go and prune.go: the global signals, with the
-- ports that are connected to each.
pub mod Ports
pub mod Zero
pub mod Driven
use jcore_soc.Base.{
  zero, Bool, true, false, not, ◌&&◌, ◌||◌, none, some, List, [], ◌∷◌, ◌++◌, map, ltb, ◌==◌,
  if◌then◌else◌, length, all, any, select, Bytes, codes, str_eq, str_lt, pos, sort_by,
}
use jcore_soc.Elaborate.Model.{
  ResolvedPort, ResolvedDevice, ResolvedEntity, Resolution, StrMap, get, put, keys, PortKind,
  kind_signal,
}

pub record Context : Type 0 where
  pub kind : Bytes
  pub id : Bytes

pub record SignalPortRef : Type 0 where
  pub context : Context
  pub port_name : Bytes
  pub dir : Bytes
  pub type_text : Bytes
  pub element : Bytes
  pub diff : Bytes

pub record Signal : Type 0 where
  pub name : Bytes
  pub type_text : Bytes
  pub ports : List SignalPortRef

abbrev pub is_signal : PortKind → Bool
is_signal kind_signal = true
is_signal _ = false

abbrev pub new_signal : ResolvedPort → Signal
new_signal p = record { name = p.global_signal; type_text = p.type_text; ports = [] }

abbrev pub port_ref : Context → ResolvedPort → SignalPortRef
port_ref ctx p = record {
  context = ctx;
  port_name = p.name;
  dir = p.dir;
  type_text = p.type_text;
  element = [];
  diff = [];
}

abbrev pub signal_or_new : StrMap Signal → ResolvedPort → Signal
signal_or_new sigs p = elim (get sigs p.global_signal) [ some s ↦ s | none ↦ new_signal p ]

-- The test of the loop: the port is connected to a global signal.
abbrev pub is_connected : ResolvedPort → Bool
is_connected p = is_signal p.kind && not (str_eq p.global_signal [])

abbrev pub with_port : SignalPortRef → Signal → Signal
with_port r s = record s { ports = s.ports ++ r ∷ [] }

unfoldable pub add_port : Context → ResolvedPort → StrMap Signal → StrMap Signal
add_port ctx p sigs =
    if is_connected p
    then put p.global_signal (with_port (port_ref ctx p) (signal_or_new sigs p)) sigs
    else sigs

unfoldable pub add_ports : Context → List ResolvedPort → StrMap Signal → StrMap Signal
unfolding add_port
add_ports ctx [] sigs = sigs
add_ports ctx (p ∷ ps) sigs = add_ports ctx ps (add_port ctx p sigs)

unfoldable pub add_devices : List ResolvedDevice → StrMap Signal → StrMap Signal
unfolding add_ports
add_devices [] sigs = sigs
add_devices (dev ∷ devs) sigs =
    add_devices devs (add_ports (record { kind = codes "device"; id = dev.name }) dev.ports sigs)

abbrev pub ports_at : StrMap ResolvedEntity → Bytes → List ResolvedPort
ports_at entities name = elim (get entities name) [ none ↦ [] | some e ↦ e.ports ]

-- The entities of one kind, by their sorted names.
unfoldable pub add_entities :
    Bytes → StrMap ResolvedEntity → List Bytes → StrMap Signal → StrMap Signal
unfolding add_ports
add_entities kind entities [] sigs = sigs
add_entities kind entities (name ∷ names) sigs =
    add_entities kind entities names
      (add_ports (record { kind = kind; id = name }) (ports_at entities name) sigs)

abbrev pub sorted_entity_names : StrMap ResolvedEntity → List Bytes
sorted_entity_names m = sort_by str_lt (keys m)

unfoldable pub gather_signals : Resolution → StrMap Signal
unfolding add_devices add_entities
gather_signals res =
    add_entities (codes "padring") res.padring_entities (sorted_entity_names res.padring_entities) (
      add_entities (codes "top") res.top_entities (sorted_entity_names res.top_entities)
        (add_devices res.devices []))

-- A synthetic driver of the signal `z`.
abbrev pub zero_ref : Bytes → Signal → SignalPortRef
zero_ref z s = record {
  context = record { kind = codes "zero"; id = codes "_zero" };
  port_name = z;
  dir = codes "out";
  type_text = s.type_text;
  element = [];
  diff = [];
}

abbrev pub is_out : SignalPortRef → Bool
is_out p = str_eq p.dir (codes "out")

unfoldable pub zero_signal : Bytes → StrMap Signal → StrMap Signal
zero_signal z sigs = elim (get sigs z) [
  | none ↦ sigs
  | some s ↦ if any is_out s.ports then sigs else put z (with_port (zero_ref z s) s) sigs
]

unfoldable pub apply_zero_signals : List Bytes → StrMap Signal → StrMap Signal
unfolding zero_signal
apply_zero_signals [] sigs = sigs
apply_zero_signals (z ∷ zs) sigs = apply_zero_signals zs (zero_signal z sigs)

-- The checks of one signal.
pub data SignalError : Type 0 where
  type_mismatch : Bytes → List Bytes → SignalError
  multi_driver : Bytes → List SignalPortRef → SignalError
  undriven_signal : Bytes → List SignalPortRef → SignalError

abbrev pub is_driver : SignalPortRef → Bool
is_driver p =
    str_eq p.dir (codes "out") || (str_eq p.dir (codes "buffer") || str_eq p.dir (codes "inout"))

abbrev pub is_consumer : SignalPortRef → Bool
is_consumer p = str_eq p.dir (codes "in") || str_eq p.dir (codes "inout")

-- The elements of a list, each once.
abbrev pub distinct : List Bytes → List Bytes
distinct [] = []
distinct (x ∷ xs) = x ∷ select (λ y. not (str_eq x y)) (distinct xs)

abbrev pub is_pin : SignalPortRef → Bool
is_pin p = str_eq p.context.kind (codes "pin")

-- `diffs["pos"] && diffs["neg"] && len(diffs) == 2` of two drivers.
abbrev pub is_pair : List SignalPortRef → Bool
is_pair (d ∷ e ∷ []) =
    (str_eq d.diff (codes "pos") && str_eq e.diff (codes "neg"))
    || (str_eq d.diff (codes "neg") && str_eq e.diff (codes "pos"))
is_pair _ = false

-- No driver has an empty element or one that was seen.
unfoldable pub distinct_elements : List Bytes → List SignalPortRef → Bool
distinct_elements seen [] = true
distinct_elements seen (d ∷ ds) =
    not (str_eq d.element [] || any (str_eq d.element) seen)
    && distinct_elements (d.element ∷ seen) ds

unfoldable pub multi_driver_allowed : List SignalPortRef → Bool
unfolding distinct_elements
multi_driver_allowed drivers =
    all is_pin drivers && (is_pair drivers || distinct_elements [] drivers)

unfoldable pub signal_errors : Bytes → Signal → List SignalError
unfolding multi_driver_allowed
signal_errors n s =
    let types = distinct (map (λ (p : SignalPortRef). p.type_text) s.ports) in
    let drivers = select is_driver s.ports in
    let ins = select is_consumer s.ports in
    (if ltb 1 (length types) then type_mismatch n (sort_by str_lt types) ∷ [] else [])
    ++ ((if ltb 1 (length drivers) && not (multi_driver_allowed drivers)
          then multi_driver n drivers ∷ []
          else [])
        ++ (if length drivers == 0 && ltb 0 (length ins) then undriven_signal n ins ∷ [] else []))

unfoldable pub errors_of : List Bytes → StrMap Signal → List SignalError
unfolding signal_errors
errors_of [] sigs = []
errors_of (n ∷ ns) sigs =
    elim (get sigs n) [ none ↦ [] | some s ↦ signal_errors n s ] ++ errors_of ns sigs

unfoldable pub validate_signals : StrMap Signal → List SignalError
unfolding errors_of
validate_signals sigs = errors_of (sort_by str_lt (keys sigs)) sigs
