-- ===== src/Elaborate/Prune.antt =====
-- tools/socgen/elaborate/prune.go: the signals that nothing reads are removed.
pub mod Kept
use jcore_soc.Base.{
  Bool, true, false, not, ◌&&◌, ◌||◌, none, some, List, [], ◌∷◌, map, if◌then◌else◌, any, select,
  Bytes, codes, str_eq,
}
use jcore_soc.Elaborate.Model.{
  ResolvedPort, ResolvedDevice, ResolvedEntity, Resolution, StrMap, get, keys, PortKind,
  kind_signal, kind_irq,
}
use jcore_soc.Elaborate.Irq.Model.{IrqRef}
use jcore_soc.Elaborate.Net.{SignalPortRef, Signal, is_signal, is_pin}

abbrev pub is_named : List Bytes → Bytes → Bool
is_named names n = any (str_eq n) names

-- The body of the loop of `markNamedIRQPorts`, with the names of the interrupt map.
abbrev pub mark_port : List Bytes → ResolvedPort → ResolvedPort
mark_port named p =
    if is_signal p.kind && is_named named p.name
    then record p { kind = kind_irq; global_signal = [] }
    else p

unfoldable pub mark_named_irq_ports : List Bytes → List ResolvedPort → List ResolvedPort
mark_named_irq_ports named [] = []
mark_named_irq_ports named (p ∷ ps) = mark_port named p ∷ mark_named_irq_ports named ps

-- A port reads the signal, or a pin is connected to it.
abbrev pub is_read : SignalPortRef → Bool
is_read p = str_eq p.dir (codes "in") || is_pin p

-- The signal stays: it is a zero signal, its pad is bound to an entity, or it is read.
abbrev pub is_kept : List Bytes → List Bytes → StrMap Signal → Bytes → Bool
is_kept zeros bound sigs n =
    is_named zeros n
    || (is_named bound n || elim (get sigs n) [ none ↦ false | some s ↦ any is_read s.ports ])

abbrev pub clear_port : List Bytes → ResolvedPort → ResolvedPort
clear_port pruned p =
    if is_signal p.kind && is_named pruned p.global_signal
    then record p { global_signal = [] }
    else p

unfoldable pub clear_pruned_refs : List Bytes → List ResolvedPort → List ResolvedPort
clear_pruned_refs pruned [] = []
clear_pruned_refs pruned (p ∷ ps) = clear_port pruned p ∷ clear_pruned_refs pruned ps

abbrev pub clear_entity : List Bytes → Bytes × ResolvedEntity → Bytes × ResolvedEntity
clear_entity pruned (k, e) = (k, record e { ports = clear_pruned_refs pruned e.ports })

abbrev pub pruned_names : List Bytes → List Bytes → StrMap Signal → List Bytes
pruned_names zeros bound sigs = select (λ n. not (is_kept zeros bound sigs n)) (keys sigs)

-- The map behind `delete` of the removed names.
unfoldable pub kept_where : (Bytes → Bool) → StrMap Signal → StrMap Signal
kept_where f [] = []
kept_where f ((n, s) ∷ m) =
    let rest = kept_where f m in elim (f n) [ true ↦ (n, s) ∷ rest | false ↦ rest ]

-- The net list and the resolution behind `removeWriteOnlySignals`.
unfoldable pub remove_write_only_signals :
    List Bytes → List Bytes → StrMap Signal → Resolution → StrMap Signal × Resolution
unfolding clear_pruned_refs kept_where
remove_write_only_signals zeros bound sigs res =
    let pruned = pruned_names zeros bound sigs in
    let clear : ResolvedDevice → ResolvedDevice =
      λ dev. record dev { ports = clear_pruned_refs pruned dev.ports } in
    (
      kept_where (is_kept zeros bound sigs) sigs,
      record res {
        devices = map clear res.devices;
        top_entities = map (clear_entity pruned) res.top_entities;
        padring_entities = map (clear_entity pruned) res.padring_entities;
      },
    )
