-- ===== src/Elaborate/Bus/Chain.antt =====
-- The masters of the peripheral buses and the chain of the stages that join them.
use jcore_soc.Base.{
  ◌≡◌, Bool, true, false, not, ◌&&◌, ◌||◌, Option, none, some, List, [], ◌∷◌, if◌then◌else◌, all,
  any, Bytes, codes, str_eq,
}
use jcore_soc.Elaborate.Model.{StrMap, get}
use jcore_soc.Elaborate.Bus.{MuxStage, PeripheralBusModel, conn_set, is_connected}

abbrev pub among : List Bytes → Bytes → Bool
among bs b = any (λ c. str_eq c b) bs

-- The override turns the bus off.
abbrev pub off : Option Bool → Bool
off none = false
off (some v) = not v

-- The bus that a chain of stages ends in, where each takes the bus before it.
abbrev pub chain_end : Bytes → List MuxStage → Option Bytes
chain_end bus [] = some bus
chain_end bus (s ∷ ss) = let on = chain_end s.out ss in if str_eq s.in1 bus then on else none

-- A stage joins the bus to the chain.
abbrev pub joins : List MuxStage → Bytes → Bool
joins ss b = any (λ s. str_eq s.in2 b) ss

-- Every key of the override is a bus that was gathered.
abbrev pub names_gathered : List Bytes → StrMap Bool → Bool
names_gathered gathered override = all (λ e. among gathered e.0) override

-- The buses are told apart by the override, and the stages join cpu1, if cpu0 and cpu1 are connected,
-- and dmac, if it is, and no other bus to a chain from cpu0 to the master bus.
pub record Topology (gathered : List Bytes) (override : StrMap Bool) (m : PeripheralBusModel)
    : Type 0 where
  pub on : (b : Bytes) → among m.connected b ≡ among gathered b && not (off (get override b))
  pub others : (b : Bytes) → among m.disconnected b ≡ among gathered b && off (get override b)
  pub chained : chain_end (codes "cpu0") m.mux_stages ≡ some m.master_bus
  pub joined :
      (b : Bytes)
      → joins m.mux_stages b
        ≡ (str_eq (codes "cpu1") b
            && (among m.connected (codes "cpu0") && among m.connected (codes "cpu1")))
          || (str_eq (codes "dmac") b && among m.connected (codes "dmac"))

module _ (gathered : List Bytes) (override : StrMap Bool)
    (named : names_gathered gathered override ≡ true) where
  abbrev conn : Bytes → Bool
  conn b = is_connected (conn_set gathered override) b
