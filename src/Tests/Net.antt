-- ===== src/Tests/Net.antt =====
-- The net list of two devices that share a signal.
use jcore_soc.Base.{
  ◌≡◌, refl, Bool, true, false, none, some, List, [], ◌∷◌, ◌++◌, Bytes, codes, str_eq, insert_by,
  sort_by,
}
use jcore_soc.Elaborate.Model.{
  ResolvedPort, ResolvedDevice, Resolution, StrMap, kind_signal, get, keys,
}
use jcore_soc.Elaborate.Net.{
  SignalPortRef, Signal, gather_signals, sorted_entity_names, validate_signals, errors_of,
  signal_errors,
}
use jcore_soc.Elaborate.Net.Ports.{ports_of, device_refs, entity_refs, ports_of-gather_signals}
use jcore_soc.Elaborate.Net.Driven.{IsDriven, validate_signals-IsDriven}
use jcore_soc.Elaborate.Inject.{inject_internal_bus_ports}
use jcore_soc.Elaborate.Inject.Driver.{Injected, inject_internal_bus_ports-Injected}
use jcore_soc.Elaborate.Prune.{remove_write_only_signals, kept_where}
use jcore_soc.Elaborate.Prune.Kept.{all_refer, refer-remove_write_only_signals}
use jcore_soc.Elaborate.Bus.{PeripheralBusModel, resolve_peripheral_buses}

abbrev port : Bytes → Bytes → ResolvedPort
port name dir = record {
  name = name;
  dir = dir;
  type_mark = some (codes "std_logic");
  type_text = codes "std_logic";
  kind = kind_signal;
  global_signal = codes "sync";
}

abbrev device : Bytes → ResolvedPort → ResolvedDevice
device name p = record {
  name = name;
  class_name = name;
  base_addr = none;
  ports = p ∷ [];
  data_bus = false;
}

abbrev pair : Resolution
pair = record {
  classes = [];
  devices =
      device (codes "timer") (port (codes "tick_o") (codes "out"))
      ∷ device (codes "uart") (port (codes "tick_i") (codes "in"))
      ∷ [];
  top_entities = [];
  padring_entities = [];
}

ports_of-gather_signals_example :
    ports_of (gather_signals pair) (codes "sync")
    ≡ device_refs (codes "sync") pair.devices
      ++ (entity_refs (codes "sync") (codes "top") [] (sorted_entity_names [])
          ++ entity_refs (codes "sync") (codes "padring") [] (sorted_entity_names []))
ports_of-gather_signals_example = ports_of-gather_signals pair (codes "sync")

abbrev ref : Bytes → Bytes → SignalPortRef
ref name dir = record {
  context = record { kind = codes "device"; id = name };
  port_name = name;
  dir = dir;
  type_text = codes "std_logic";
  element = [];
  diff = [];
}

abbrev undriven : StrMap Signal
undriven =
    (
      codes "idle",
      record {
        name = codes "idle";
        type_text = codes "std_logic";
        ports = ref (codes "a") (codes "in") ∷ [];
      },
    )
    ∷ []

abbrev sync : Signal
sync = record {
  name = codes "sync";
  type_text = codes "std_logic";
  ports = ref (codes "a") (codes "out") ∷ ref (codes "b") (codes "in") ∷ [];
}

abbrev driven : StrMap Signal
driven = (codes "sync", sync) ∷ []

driven-accepted : validate_signals driven ≡ []
unfolding validate_signals errors_of signal_errors get keys str_eq sort_by insert_by
driven-accepted = refl

driven-found : get driven (codes "sync") ≡ some sync
unfolding get str_eq
driven-found = refl

validate_signals-IsDriven_example : IsDriven sync
validate_signals-IsDriven_example =
    validate_signals-IsDriven driven (codes "sync") sync driven-accepted driven-found

abbrev buses : List Bytes
buses = codes "cpu0" ∷ codes "cpu1" ∷ codes "dmac" ∷ []

-- An override that turns dmac off.
abbrev no_dmac : StrMap Bool
no_dmac = (codes "dmac", false) ∷ []

-- An override that names no gathered bus still connects it.
master-overridden :
    (resolve_peripheral_buses
      (codes "cpu0" ∷ [])
      ((codes "dmac", true) ∷ [])
      (codes "simple")).master_bus
    ≡ codes "cpudm"
unfolding resolve_peripheral_buses get str_eq
master-overridden = refl

-- A net list whose one signal is only written: the port is cleared.
abbrev write_only : StrMap Signal
write_only =
    (
      codes "sync",
      record {
        name = codes "sync";
        type_text = codes "std_logic";
        ports = ref (codes "a") (codes "out") ∷ [];
      },
    )
    ∷ []

pair-refers : all_refer write_only pair.devices ≡ true
unfolding get str_eq
pair-refers = refl

refer-remove_write_only_signals_example :
    all_refer
      (remove_write_only_signals [] [] write_only pair).0
      (remove_write_only_signals [] [] write_only pair).1.devices
    ≡ true
refer-remove_write_only_signals_example =
    refer-remove_write_only_signals [] [] write_only pair pair-refers

removed : (remove_write_only_signals [] [] write_only pair).0 ≡ []
unfolding remove_write_only_signals kept_where get str_eq
removed = refl

abbrev one_bus : PeripheralBusModel
one_bus = record {
  master_bus = codes "cpu0";
  connected = codes "cpu0" ∷ [];
  disconnected = [];
  mux_stages = [];
  decode_mode = codes "simple";
}

-- A signal pi that only a device reads.
abbrev read_pi : StrMap Signal
read_pi =
    (
      codes "pi",
      record {
        name = codes "pi";
        type_text = codes "std_logic";
        ports = ref (codes "gpio") (codes "in") ∷ [];
      },
    )
    ∷ []

inject_internal_bus_ports-Injected_example :
    Injected one_bus read_pi (inject_internal_bus_ports (some one_bus) read_pi)
inject_internal_bus_ports-Injected_example = inject_internal_bus_ports-Injected one_bus read_pi
