-- ===== src/Elaborate/Bus.antt =====
-- tools/socgen/elaborate/databus.go: the devices on the data bus, and the masters of the bus.
pub mod Chain
use jcore_soc.Base.{
  Bool, true, false, not, ◌&&◌, ◌||◌, Option, none, some, List, [], ◌∷◌, ◌++◌, map, ◌==◌,
  if◌then◌else◌, length, select, Bytes, codes, str_eq, str_lt, sort_by,
}
use jcore_soc.Elaborate.Model.{
  ResolvedPort, ResolvedDevice, StrMap, get, put, PortKind, kind_data_bus, lc,
}

-- The mark of the port's type, in lower case, and the direction.
abbrev pub has_mark : Bytes → Bytes → ResolvedPort → Bool
has_mark mark dir p = elim p.type_mark [
  | none ↦ false
  | some m ↦ str_eq (lc m) mark && str_eq p.dir dir
]

abbrev pub is_read_out : ResolvedPort → Bool
is_read_out = has_mark (codes "cpu_data_i_t") (codes "out")

abbrev pub is_write_in : ResolvedPort → Bool
is_write_in = has_mark (codes "cpu_data_o_t") (codes "in")

abbrev pub to_bus : ResolvedPort → ResolvedPort
to_bus p = if is_read_out p || is_write_in p then record p { kind = kind_data_bus } else p

-- The device behind the checks, and the names of devices with a malformed pair.
unfoldable pub classify_device : ResolvedDevice → ResolvedDevice × List Bytes
classify_device dev =
    let reads = length (select is_read_out dev.ports) in
    let writes = length (select is_write_in dev.ports) in
    if reads == 0 && writes == 0
    then (dev, [])
    else if reads == 1 && writes == 1
    then (record dev { ports = map to_bus dev.ports; data_bus = true }, [])
    else (dev, dev.name ∷ [])

abbrev pub and_then :
    ResolvedDevice × List Bytes
    → List ResolvedDevice × List Bytes
    → List ResolvedDevice × List Bytes
and_then (d, e) (ds, es) = (d ∷ ds, e ++ es)

unfoldable pub classify_data_bus : List ResolvedDevice → List ResolvedDevice × List Bytes
unfolding classify_device
classify_data_bus [] = ([], [])
classify_data_bus (dev ∷ devs) = and_then (classify_device dev) (classify_data_bus devs)

pub record MuxStage : Type 0 where
  pub label : Bytes
  pub entity : Bytes
  pub in1 : Bytes
  pub in2 : Bytes
  pub out : Bytes

pub record PeripheralBusModel : Type 0 where
  pub master_bus : Bytes
  pub connected : List Bytes
  pub disconnected : List Bytes
  pub mux_stages : List MuxStage
  pub decode_mode : Bytes

-- `connSet`: every gathered bus is connected, and the entries of the override then count.
abbrev pub gathered_set : List Bytes → StrMap Bool
gathered_set [] = []
gathered_set (b ∷ bs) = put b true (gathered_set bs)

abbrev pub conn_set : List Bytes → StrMap Bool → StrMap Bool
conn_set gathered override = override ++ gathered_set gathered

-- What a map holds for a key, or `d`.
abbrev pub value_or : Option Bool → Bool → Bool
value_or none d = d
value_or (some v) d = v

abbrev pub is_connected : StrMap Bool → Bytes → Bool
is_connected set b = value_or (get set b) false

abbrev pub cpus_stage : Bytes → MuxStage
cpus_stage master = record {
  label = codes "cpus_mux";
  entity = codes "multi_master_bus_mux";
  in1 = master;
  in2 = codes "cpu1";
  out = codes "cpu01";
}

abbrev pub dmac_stage : Bytes → MuxStage
dmac_stage master = record {
  label = codes "dmac_mux";
  entity = codes "multi_master_bus_muxff";
  in1 = master;
  in2 = codes "dmac";
  out = codes "cpudm";
}

-- The stages so far and the master they end in.
abbrev pub Muxes : Type 0
Muxes = List MuxStage × Bytes

abbrev pub add_stage : Bool → (Bytes → MuxStage) → Muxes → Muxes
add_stage true stage (stages, master) = (stages ++ stage master ∷ [], (stage master).out)
add_stage false stage ms = ms

unfoldable pub resolve_peripheral_buses : List Bytes → StrMap Bool → Bytes → PeripheralBusModel
resolve_peripheral_buses gathered override decode_mode =
    let set = conn_set gathered override in
    let (stages, master) = add_stage (is_connected set (codes "dmac")) dmac_stage (
      add_stage (is_connected set (codes "cpu0") && is_connected set (codes "cpu1")) cpus_stage
        ([], codes "cpu0")) in
    record {
      master_bus = master;
      connected = sort_by str_lt (select (is_connected set) gathered);
      disconnected = sort_by str_lt (select (λ b. not (is_connected set b)) gathered);
      mux_stages = stages;
      decode_mode = decode_mode;
    }
