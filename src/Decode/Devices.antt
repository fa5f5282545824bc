-- ===== src/Decode/Devices.antt =====
-- tools/socgen/emit/databus.go: `busDevicesOf`, the devices that the decoder is built for, and their
-- literals.
pub mod Kept
pub mod Accepted
use jcore_soc.Base.{
  ℕ, Bool, true, Option, none, some, List, [], ◌∷◌, if◌then◌else◌, Bytes, str_lt, is_neg, to_nat,
  sort_by,
}
use jcore_soc.Elaborate.Model.{ResolvedClass, ResolvedDevice, Resolution, StrMap, class_of}
use jcore_soc.Decode.Radix.{BusDevice}

-- `left`, 0 without a class; `none` for a negative LeftAddrBit, which a BusDevice has no place for.
abbrev pub left_of : Option ResolvedClass → Option ℕ
left_of none = some 0
left_of (some rc) = if is_neg rc.left_addr_bit then none else some (to_nat rc.left_addr_bit)

-- The body of the loop: a device off the bus or without a base address is passed over.
unfoldable pub add_device :
    Bytes → Bool → Option ℕ → Option ℕ → Option (List BusDevice) → Option (List BusDevice)
add_device name true (some base) (some left) (some rest) =
    some (record { name = name; base_addr = base; left_addr_bit = left } ∷ rest)
add_device name true (some base) _ _ = none
add_device name _ _ _ rest = rest

unfoldable pub collect : StrMap ResolvedClass → List ResolvedDevice → Option (List BusDevice)
unfolding add_device
collect classes [] = some []
collect classes (dev ∷ devs) =
    add_device dev.name dev.data_bus dev.base_addr (left_of (class_of classes dev))
      (collect classes devs)

abbrev pub name_less : BusDevice → BusDevice → Bool
name_less d e = str_lt d.name e.name

unfoldable pub bus_devices_of : Resolution → Option (List BusDevice)
unfolding collect
bus_devices_of res = elim (collect res.classes res.devices) [
  | none ↦ none
  | some devs ↦ some (sort_by name_less devs)
]
