-- ===== src/Tests/Irq.antt =====
-- Two devices on one interrupt path of an AIC, and one on a path of its own.
use jcore_soc.Base.{
  ℕ, ◌+◌, ◌≡◌, refl, true, false, Option, none, some, List, [], ◌∷◌, select, Bytes, codes, str_eq,
  itoa, pos, insert_by, sort_by,
}
use jcore_soc.Elaborate.Model.{ResolvedDevice, ResolvedPort, Resolution, kind_irq, get, lc}
use jcore_soc.Elaborate.Irq.Model.{
  Device, IrqRef, IrqTuple, IrqModel, IrqOrAssign, group_tuples, has_key,
}
use jcore_soc.Elaborate.Irq.Groups.{group_of, group_of-group_tuples}
use jcore_soc.Elaborate.Irq.Wire.{build_irq}
use jcore_soc.Elaborate.Irq.Sources.{model_combined, build_irq-combined}

abbrev irq_port : ResolvedPort
irq_port = record {
  name = codes "irq";
  dir = codes "out";
  type_mark = none;
  type_text = [];
  kind = kind_irq;
  global_signal = [];
}

abbrev resolved : Bytes → Bytes → ResolvedDevice
resolved name class_name = record {
  name = name;
  class_name = class_name;
  base_addr = none;
  ports = irq_port ∷ [];
  data_bus = false;
}

abbrev board : Resolution
board = record {
  top_entities = [];
  padring_entities = [];
  classes = [];
  devices =
      resolved (codes "aic0") (codes "aic")
      ∷ resolved (codes "spi") (codes "spi")
      ∷ resolved (codes "emac") (codes "emac")
      ∷ resolved (codes "uart") (codes "uart")
      ∷ [];
}

abbrev with_irq : Bytes → ℕ → Device
with_irq name n = record {
  class_name = name;
  name = name;
  cpu = none;
  irq = some (record { int = some (pos n); named = none });
  port_names = [];
}

abbrev design : List Device
design =
    record { class_name = codes "aic"; name = []; cpu = none; irq = none; port_names = [] }
    ∷ with_irq (codes "spi") 4
    ∷ with_irq (codes "emac") 4
    ∷ with_irq (codes "uart") 1
    ∷ []

abbrev tuple : Bytes → ℕ → IrqTuple
tuple name n = record {
  dev = name;
  port = codes "irq";
  cpu = pos 0;
  path = pos n;
  vector = pos (0x11 + n);
}

abbrev tuples : List IrqTuple
tuples = tuple (codes "spi") 4 ∷ tuple (codes "emac") 4 ∷ tuple (codes "uart") 1 ∷ []

group_of-group_tuples_example :
    group_of (group_tuples tuples []) (pos 0) (pos 4) ≡ select (has_key (pos 0) (pos 4)) tuples
group_of-group_tuples_example = group_of-group_tuples tuples (pos 0) (pos 4)

build_irq-combined_example : model_combined (build_irq board (some design)).0 ≡ true
build_irq-combined_example = build_irq-combined board (some design)

abbrev assigns_of : Option IrqModel → List IrqOrAssign
assigns_of none = []
assigns_of (some m) = m.or_assigns

-- The shared path is an OR of two sources.
or_assigns-design :
    assigns_of (build_irq board (some design)).0
    ≡ record { target = codes "irqs0(4)"; sources = codes "irq_0_4_a" ∷ codes "irq_0_4_b" ∷ [] }
      ∷ []
unfolding build_irq str_eq lc sort_by jcore_soc.Elaborate.Irq.Model.int_keys insert_by group_tuples
    jcore_soc.Elaborate.Irq.irq_port_name get jcore_soc.Elaborate.Irq.Model.int_get itoa
    jcore_soc.Vhdl.Lexer.rune_text
or_assigns-design = refl
