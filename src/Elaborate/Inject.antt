-- ===== src/Elaborate/Inject.antt =====
-- tools/socgen/elaborate/categorize.go: `injectInternalBusPorts`.
pub mod Driver
use jcore_soc.Base.{
  Bool, not, ◌&&◌, Option, none, some, List, [], ◌∷◌, ◌++◌, if◌then◌else◌, any, Bytes, codes,
  str_eq, str_lt, sort_by,
}
use jcore_soc.Elaborate.Model.{StrMap, get, put}
use jcore_soc.Elaborate.Net.{Context, SignalPortRef, Signal, is_out, with_port}
use jcore_soc.Elaborate.Bus.{PeripheralBusModel}

abbrev pub internal_ref : Context → Bytes → Bytes → Signal → SignalPortRef
internal_ref ctx name dir s = record {
  context = ctx;
  port_name = name;
  dir = dir;
  type_text = s.type_text;
  element = [];
  diff = [];
}

-- `addPort`: a new signal has the mark for its type.
unfoldable pub add_internal_port : Bytes → Bytes → Bytes → Context → StrMap Signal → StrMap Signal
add_internal_port name mark dir ctx sigs =
    let fresh : Signal = record { name = name; type_text = mark; ports = [] } in
    elim (get sigs name) [
      | none ↦ put name (with_port (internal_ref ctx name dir fresh) fresh) sigs
      | some s ↦ put name (with_port (internal_ref ctx name dir s) s) sigs
    ]

abbrev pub dev_internal : Context
dev_internal = record { kind = codes "device"; id = codes "_internal" }

-- Each bus gets a port for the data that is read and one for the data that is written.
unfoldable pub inject_buses : List Bytes → StrMap Signal → StrMap Signal
unfolding add_internal_port
inject_buses [] sigs = sigs
inject_buses (bus ∷ buses) sigs = inject_buses buses (
    add_internal_port (bus ++ codes "_periph_dbus_o") (codes "cpu_data_o_t") (codes "in")
      dev_internal
      (add_internal_port (bus ++ codes "_periph_dbus_i") (codes "cpu_data_i_t") (codes "out")
        dev_internal sigs))

-- A device reads the signal.
abbrev pub is_device_in : SignalPortRef → Bool
is_device_in p = str_eq p.context.kind (codes "device") && str_eq p.dir (codes "in")

abbrev pub pi_ref : Signal → SignalPortRef
pi_ref s =
    internal_ref (record { kind = codes "padring"; id = codes "pi" }) (codes "pi") (codes "out") s

-- The pad ring drives `pi` where a device reads it and nothing drives it.
unfoldable pub inject_pi : StrMap Signal → StrMap Signal
inject_pi sigs = elim (get sigs (codes "pi")) [
  | none ↦ sigs
  | some s ↦
      if any is_device_in s.ports && not (any is_out s.ports)
      then put (codes "pi") (with_port (pi_ref s) s) sigs
      else sigs
]

unfoldable pub inject_internal_bus_ports : Option PeripheralBusModel → StrMap Signal → StrMap Signal
unfolding inject_buses inject_pi
inject_internal_bus_ports none sigs = sigs
inject_internal_bus_ports (some bus) sigs =
    inject_pi (inject_buses (sort_by str_lt (bus.connected ++ bus.disconnected)) sigs)
