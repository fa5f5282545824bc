-- ===== src/Elaborate/Net/Ports.antt =====
-- Which ports the gathered signals have.
use jcore_soc.Base.{
  ◌≡◌, refl, sym, ap, ◌∙◌, inl, inr, Bool, true, false, ◌&&◌, Option, none, some, List, [], ◌∷◌,
  ◌++◌, append_assoc, append-nil, if◌then◌else◌, Bool-cases, Bytes, codes, str_eq, str_eq_iff,
}
use jcore_soc.Elaborate.Model.{
  ResolvedPort, ResolvedDevice, ResolvedEntity, Resolution, StrMap, get, put,
}
use jcore_soc.Elaborate.Net.{
  Context, SignalPortRef, Signal, port_ref, signal_or_new, is_connected, with_port, add_port,
  add_ports, add_devices, ports_at, add_entities, sorted_entity_names, gather_signals, new_signal,
}

-- The ports of a signal, none where it is not there.
abbrev pub ports_of : StrMap Signal → Bytes → List SignalPortRef
ports_of sigs n = elim (get sigs n) [ none ↦ [] | some s ↦ s.ports ]

-- The references of the ports of a list that are connected to the signal.
abbrev pub refs : Bytes → Context → List ResolvedPort → List SignalPortRef
refs n ctx [] = []
refs n ctx (p ∷ ps) =
    let rest = refs n ctx ps in
    elim (is_connected p && str_eq p.global_signal n) [
      | true ↦ port_ref ctx p ∷ rest
      | false ↦ rest
    ]

abbrev pub device_refs : Bytes → List ResolvedDevice → List SignalPortRef
device_refs n [] = []
device_refs n (dev ∷ devs) =
    refs n (record { kind = codes "device"; id = dev.name }) dev.ports ++ device_refs n devs

abbrev pub entity_refs : Bytes → Bytes → StrMap ResolvedEntity → List Bytes → List SignalPortRef
entity_refs n kind entities [] = []
entity_refs n kind entities (name ∷ names) =
    refs n (record { kind = kind; id = name }) (ports_at entities name)
    ++ entity_refs n kind entities names

ports-signal_or_new :
    (sigs : StrMap Signal) (p : ResolvedPort)
    → (signal_or_new sigs p).ports ≡ ports_of sigs p.global_signal
ports-signal_or_new sigs p = by_entry (get sigs p.global_signal)
  where
    by_entry :
        (o : Option Signal)
        → (elim o as (λ _. Signal) [ some s ↦ s | none ↦ new_signal p ]).ports
          ≡ elim o [ none ↦ [] | some s ↦ s.ports ]
    by_entry none = refl
    by_entry (some s) = refl

ports_of-put :
    (n k : Bytes) (s : Signal) (sigs : StrMap Signal)
    → ports_of (put k s sigs) n ≡ (if str_eq k n then s.ports else ports_of sigs n)
unfolding get
ports_of-put n k s sigs = by_test (str_eq k n)
  where
    by_test :
        (b : Bool)
        → (elim (if b then some s else get sigs n) as (λ _. List SignalPortRef) [
          | none ↦ []
          | some t ↦ t.ports
        ])
          ≡ (if b then s.ports else ports_of sigs n)
    by_test true = refl
    by_test false = refl

-- A port put to the ports of its signal.
ports_of-with_port :
    (n k : Bytes) (r : SignalPortRef) (s : Signal) (sigs : StrMap Signal)
    → s.ports ≡ ports_of sigs k
    → ports_of (put k (with_port r s) sigs) n
      ≡ ports_of sigs n ++ (if str_eq k n then r ∷ [] else [])
ports_of-with_port n k r s sigs e =
    ports_of-put n k (with_port r s) sigs ∙ elim (Bool-cases (str_eq k n)) [
      | inr other ↦ rw other (sym (append-nil (ports_of sigs n)))
      | inl same ↦
          rw same (ap (λ ps. ps ++ r ∷ []) (e ∙ ap (ports_of sigs) ((str_eq_iff k n).0 same)))
    ]

ports_of-add_port :
    (n : Bytes) (ctx : Context) (p : ResolvedPort) (sigs : StrMap Signal)
    → ports_of (add_port ctx p sigs) n ≡ ports_of sigs n ++ refs n ctx (p ∷ [])
unfolding add_port
ports_of-add_port n ctx p sigs = by_test (is_connected p) (str_eq p.global_signal n) (
    ports_of-with_port n p.global_signal (port_ref ctx p) (signal_or_new sigs p) sigs
      (ports-signal_or_new sigs p))
  where
    by_test :
        (c b : Bool)
        → ports_of (put p.global_signal (with_port (port_ref ctx p) (signal_or_new sigs p)) sigs) n
          ≡ ports_of sigs n ++ (if b then port_ref ctx p ∷ [] else [])
        → ports_of
            (if c
              then put p.global_signal (with_port (port_ref ctx p) (signal_or_new sigs p)) sigs
              else sigs)
            n
          ≡ ports_of sigs n ++ elim (c && b) [ true ↦ port_ref ctx p ∷ [] | false ↦ [] ]
    by_test false b h = sym (append-nil (ports_of sigs n))
    by_test true true h = h
    by_test true false h = h

refs-cons :
    (n : Bytes) (ctx : Context) (p : ResolvedPort) (ps : List ResolvedPort)
    → refs n ctx (p ∷ []) ++ refs n ctx ps ≡ refs n ctx (p ∷ ps)
refs-cons n ctx p ps = by_test (is_connected p && str_eq p.global_signal n)
  where
    by_test :
        (b : Bool)
        → elim b [ true ↦ port_ref ctx p ∷ [] | false ↦ [] ] ++ refs n ctx ps
          ≡ elim b [ true ↦ port_ref ctx p ∷ refs n ctx ps | false ↦ refs n ctx ps ]
    by_test true = refl
    by_test false = refl

ports_of-add_ports :
    (n : Bytes) (ctx : Context) (ps : List ResolvedPort) (sigs : StrMap Signal)
    → ports_of (add_ports ctx ps sigs) n ≡ ports_of sigs n ++ refs n ctx ps
unfolding add_ports
ports_of-add_ports n ctx [] sigs = sym (append-nil (ports_of sigs n))
ports_of-add_ports n ctx (p ∷ ps) sigs =
    ports_of-add_ports n ctx ps (add_port ctx p sigs)
    ∙ ap (λ rs. rs ++ refs n ctx ps) (ports_of-add_port n ctx p sigs)
    ∙ append_assoc (ports_of sigs n) (refs n ctx (p ∷ [])) (refs n ctx ps)
    ∙ ap (λ rs. ports_of sigs n ++ rs) (refs-cons n ctx p ps)

ports_of-add_devices :
    (n : Bytes) (devs : List ResolvedDevice) (sigs : StrMap Signal)
    → ports_of (add_devices devs sigs) n ≡ ports_of sigs n ++ device_refs n devs
unfolding add_devices
ports_of-add_devices n [] sigs = sym (append-nil (ports_of sigs n))
ports_of-add_devices n (dev ∷ devs) sigs =
    let ctx : Context = record { kind = codes "device"; id = dev.name } in
    ports_of-add_devices n devs (add_ports ctx dev.ports sigs)
    ∙ ap (λ rs. rs ++ device_refs n devs) (ports_of-add_ports n ctx dev.ports sigs)
    ∙ append_assoc (ports_of sigs n) (refs n ctx dev.ports) (device_refs n devs)

ports_of-add_entities :
    (n kind : Bytes) (entities : StrMap ResolvedEntity) (names : List Bytes) (sigs : StrMap Signal)
    → ports_of (add_entities kind entities names sigs) n
      ≡ ports_of sigs n ++ entity_refs n kind entities names
unfolding add_entities
ports_of-add_entities n kind entities [] sigs = sym (append-nil (ports_of sigs n))
ports_of-add_entities n kind entities (name ∷ names) sigs =
    let ctx : Context = record { kind = kind; id = name } in
    let ps = ports_at entities name in
    ports_of-add_entities n kind entities names (add_ports ctx ps sigs)
    ∙ ap (λ rs. rs ++ entity_refs n kind entities names) (ports_of-add_ports n ctx ps sigs)
    ∙ append_assoc (ports_of sigs n) (refs n ctx ps) (entity_refs n kind entities names)

-- The ports of a gathered signal are the connected ports that name it: those of the devices in order,
-- then those of the top entities and of the padring entities, by the entities' sorted names.
pub ports_of-gather_signals :
    (res : Resolution) (n : Bytes)
    → ports_of (gather_signals res) n
      ≡ device_refs n res.devices
        ++ (entity_refs n (codes "top") res.top_entities (sorted_entity_names res.top_entities)
            ++ entity_refs n
                (codes "padring")
                res.padring_entities
                (sorted_entity_names res.padring_entities))
unfolding gather_signals get
ports_of-gather_signals res n =
    let tops = sorted_entity_names res.top_entities in
    let pads = sorted_entity_names res.padring_entities in
    let ds = device_refs n res.devices in
    let ts = entity_refs n (codes "top") res.top_entities tops in
    let rs = entity_refs n (codes "padring") res.padring_entities pads in
    ports_of-add_entities n (codes "padring") res.padring_entities pads
      (add_entities (codes "top") res.top_entities tops (add_devices res.devices []))
    ∙ ap (λ xs. xs ++ rs)
        (ports_of-add_entities n (codes "top") res.top_entities tops (add_devices res.devices [])
          ∙ ap (λ xs. xs ++ ts) (ports_of-add_devices n res.devices []))
    ∙ append_assoc ds ts rs
