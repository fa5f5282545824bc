-- ===== src/Elaborate/Inject/Driver.antt =====
-- What `injectInternalBusPorts` adds: the ports of the buses, and a driver of `pi` where it lacks one.
use jcore_soc.Base.{
  ℕ, ◌≤◌, ◌<◌, max, length, ◌≡◌, refl, sym, ap, subst, ◌∙◌, inl, inr, Bool, true, false, not, ◌&&◌,
  ◌||◌, Option, none, some, List, [], ◌∷◌, ◌++◌, arith, Bool-cases, Option-cases, any, any-sort_by,
  select, Bytes, codes, str_eq, str_eq_iff, str_eq_refl, str_lt, sort_by, length-append,
}
use jcore_soc.Elaborate.Model.{StrMap, get, put}
use jcore_soc.Elaborate.Net.{Signal, SignalPortRef, is_out, with_port}
use jcore_soc.Elaborate.Net.Zero.{any-last, get-put_same, get-put_other}
use jcore_soc.Elaborate.Bus.{PeripheralBusModel}
use jcore_soc.Elaborate.Inject.{
  is_device_in, pi_ref, inject_pi, inject_buses, inject_internal_bus_ports, add_internal_port,
  internal_ref, dev_internal,
}

abbrev pub bus_in : Bytes → Bytes
bus_in b = b ++ codes "_periph_dbus_i"

abbrev pub bus_out : Bytes → Bytes
bus_out b = b ++ codes "_periph_dbus_o"

-- A signal that is not there has no ports.
abbrev pub ports_in : Option Signal → List SignalPortRef
ports_in none = []
ports_in (some s) = s.ports

abbrev pub ports_at : StrMap Signal → Bytes → List SignalPortRef
ports_at sigs n = ports_in (get sigs n)

-- A port of the name on the inner side of the devices.
abbrev pub is_inner : Bytes → Bytes → SignalPortRef → Bool
is_inner name dir p =
    str_eq p.context.kind (codes "device")
    && str_eq p.context.id (codes "_internal")
    && str_eq p.port_name name
    && str_eq p.dir dir

abbrev pub has_inner : StrMap Signal → Bytes → Bytes → Bool
has_inner sigs name dir = any (is_inner name dir) (ports_at sigs name)

-- How many ports drive the signal.
abbrev pub drivers : StrMap Signal → Bytes → ℕ
drivers sigs n = length (select is_out (ports_at sigs n))

-- Where a device reads the signal, a port drives it.
abbrev pub fed : StrMap Signal → Bytes → Bool
fed sigs n = not (any is_device_in (ports_at sigs n)) || any is_out (ports_at sigs n)

-- No signal loses a port.
abbrev Grows : StrMap Signal → StrMap Signal → Type 0
Grows sigs sigs' =
    (n : Bytes) (p : SignalPortRef → Bool)
    → any p (ports_at sigs n) ≡ true
    → any p (ports_at sigs' n) ≡ true

Grows-trans : (a b c : StrMap Signal) → Grows a b → Grows b c → Grows a c
Grows-trans a b c g h n p e = h n p (g n p e)

any-first : {A : Type 0} (p : A → Bool) (xs ys : List A) → any p xs ≡ true → any p (xs ++ ys) ≡ true
any-first p [] ys h = cc
any-first p (x ∷ xs) ys h = ground (arith, any-first p xs ys, h)

put-Grows :
    (name : Bytes) (s : Signal) (r : SignalPortRef) (sigs : StrMap Signal)
    → ports_at sigs name ≡ s.ports
    → Grows sigs (put name (with_port r s) sigs)
put-Grows name s r sigs e n p h = elim (Bool-cases (str_eq name n)) [
  | inl y ↦
      let same = (str_eq_iff name n).0 y in
      subst
        (λ k.
          any p (ports_at sigs k) ≡ true
          → any p (ports_at (put name (with_port r s) sigs) k) ≡ true)
        same
        (λ h'.
          ap (λ o. any p (ports_in o)) (get-put_same name (with_port r s) sigs)
          ∙ any-first p s.ports (r ∷ []) (sym (ap (any p) e) ∙ h'))
        h
  | inr other ↦ ap (λ o. any p (ports_in o)) (get-put_other name n (with_port r s) sigs other) ∙ h
]

add_internal_port-Grows :
    (name mark dir : Bytes) (sigs : StrMap Signal)
    → Grows sigs (add_internal_port name mark dir dev_internal sigs)
unfolding add_internal_port
add_internal_port-Grows name mark dir sigs = elim (Option-cases (get sigs name)) [
  | inl absent ↦ rw (absent, add_internal_port) (put-Grows name _ _ sigs (ap ports_in absent))
  | inr (s, found) ↦ rw (found, add_internal_port) (put-Grows name s _ sigs (ap ports_in found))
]

inner-put :
    (name dir : Bytes) (s : Signal) (sigs : StrMap Signal)
    → has_inner (put name (with_port (internal_ref dev_internal name dir s) s) sigs) name dir ≡ true
inner-put name dir s sigs =
    ap (λ o. any (is_inner name dir) (ports_in o))
      (get-put_same name (with_port (internal_ref dev_internal name dir s) s) sigs)
    ∙ any-last (is_inner name dir) s.ports (internal_ref dev_internal name dir s) (
        rw
          (
            str_eq_refl (codes "device"),
            str_eq_refl (codes "_internal"),
            str_eq_refl name,
            str_eq_refl dir,
          )
          refl)

add_internal_port-inner :
    (name mark dir : Bytes) (sigs : StrMap Signal)
    → has_inner (add_internal_port name mark dir dev_internal sigs) name dir ≡ true
unfolding add_internal_port
add_internal_port-inner name mark dir sigs = elim (Option-cases (get sigs name)) [
  | inl absent ↦
      rw (absent, add_internal_port)
        (inner-put name dir (record { name = name; type_text = mark; ports = [] }) sigs)
  | inr (s, found) ↦ rw (found, add_internal_port) (inner-put name dir s sigs)
]

abbrev with_bus : Bytes → StrMap Signal → StrMap Signal
with_bus b sigs =
    add_internal_port (bus_out b) (codes "cpu_data_o_t") (codes "in") dev_internal
      (add_internal_port (bus_in b) (codes "cpu_data_i_t") (codes "out") dev_internal sigs)

with_bus-Grows : (b : Bytes) (sigs : StrMap Signal) → Grows sigs (with_bus b sigs)
with_bus-Grows b sigs =
    Grows-trans _ _ _ (add_internal_port-Grows (bus_in b) (codes "cpu_data_i_t") (codes "out") sigs)
      (add_internal_port-Grows (bus_out b) (codes "cpu_data_o_t") (codes "in") _)

inject_buses-Grows : (bs : List Bytes) (sigs : StrMap Signal) → Grows sigs (inject_buses bs sigs)
unfolding inject_buses
inject_buses-Grows [] sigs = λ n p h. h
inject_buses-Grows (b ∷ bs) sigs =
    Grows-trans _ _ _ (with_bus-Grows b sigs) (inject_buses-Grows bs (with_bus b sigs))

abbrev pub HasBus : StrMap Signal → Bytes → Type 0
HasBus sigs b =
    (has_inner sigs (bus_in b) (codes "out") ≡ true)
    × (has_inner sigs (bus_out b) (codes "in") ≡ true)

Grows-HasBus : (a c : StrMap Signal) (b : Bytes) → Grows a c → HasBus a b → HasBus c b
Grows-HasBus a c b g (i, o) = (g (bus_in b) _ i, g (bus_out b) _ o)

with_bus-HasBus : (b : Bytes) (sigs : StrMap Signal) → HasBus (with_bus b sigs) b
with_bus-HasBus b sigs = (
  add_internal_port-Grows (bus_out b) (codes "cpu_data_o_t") (codes "in") _ (bus_in b) _
      (add_internal_port-inner (bus_in b) (codes "cpu_data_i_t") (codes "out") sigs),
  add_internal_port-inner (bus_out b) (codes "cpu_data_o_t") (codes "in") _,
)

inject_buses-HasBus :
    (bs : List Bytes) (b : Bytes) (sigs : StrMap Signal)
    → any (λ c. str_eq c b) bs ≡ true
    → HasBus (inject_buses bs sigs) b
unfolding inject_buses
inject_buses-HasBus [] b sigs h = cc
inject_buses-HasBus (c ∷ bs) b sigs h = elim (Bool-cases (str_eq c b)) [
  | inl y ↦
      subst (HasBus (inject_buses bs (with_bus c sigs))) ((str_eq_iff c b).0 y)
        (Grows-HasBus _ _ c (inject_buses-Grows bs (with_bus c sigs)) (with_bus-HasBus c sigs))
  | inr n ↦ inject_buses-HasBus bs b (with_bus c sigs) (ground (arith, h, n))
]

-- The buses do not touch `pi`: its name is shorter than theirs.
longer : (b t : Bytes) → length (codes "pi") < length t → str_eq (b ++ t) (codes "pi") ≡ false
longer b t h = elim (Bool-cases (str_eq (b ++ t) (codes "pi"))) [
  | inl y ↦
      let same : length (b ++ t) ≡ length (codes "pi") =
        ap length ((str_eq_iff (b ++ t) (codes "pi")).0 y) in
      absurd (omega (arith, same, length-append b t, h))
  | inr n ↦ n
]

ports-add_internal_port :
    (name mark dir n : Bytes) (sigs : StrMap Signal)
    → str_eq name n ≡ false
    → ports_at (add_internal_port name mark dir dev_internal sigs) n ≡ ports_at sigs n
unfolding add_internal_port
ports-add_internal_port name mark dir n sigs other = elim (Option-cases (get sigs name)) [
  | inl absent ↦ rw (absent, add_internal_port) (ap ports_in (get-put_other name n _ sigs other))
  | inr (s, found) ↦ rw (found, add_internal_port) (ap ports_in (get-put_other name n _ sigs other))
]

ports-inject_buses :
    (bs : List Bytes) (sigs : StrMap Signal)
    → ports_at (inject_buses bs sigs) (codes "pi") ≡ ports_at sigs (codes "pi")
unfolding inject_buses
ports-inject_buses [] sigs = refl
ports-inject_buses (b ∷ bs) sigs =
    ports-inject_buses bs (with_bus b sigs)
    ∙ ports-add_internal_port (bus_out b) _ _ (codes "pi") _
        (longer b (codes "_periph_dbus_o") (omega arith))
    ∙ ports-add_internal_port (bus_in b) _ _ (codes "pi") sigs
        (longer b (codes "_periph_dbus_i") (omega arith))

count-last :
    {A : Type 0} (p : A → Bool) (xs : List A) (x : A)
    → any p xs ≡ false
    → length (select p (xs ++ x ∷ [])) ≤ 1
count-last p [] x h = elim (Bool-cases (p x)) [
  | inl y ↦ rw y (omega arith)
  | inr n ↦ rw n (omega arith)
]
count-last p (y ∷ xs) x h =
    let first : p y ≡ false = ground (arith, h) in rw first (count-last p xs x (ground (arith, h)))

-- `pi` ends with a driver if a device reads it, and with no second one.
abbrev IsFed : ℕ → StrMap Signal → Type 0
IsFed before sigs = (fed sigs (codes "pi") ≡ true) × (drivers sigs (codes "pi") ≤ max 1 before)

abbrev FedPorts : ℕ → List SignalPortRef → Type 0
FedPorts before ps =
    (not (any is_device_in ps) || any is_out ps ≡ true) × (length (select is_out ps) ≤ max 1 before)

at_pi :
    (before : ℕ) (sigs : StrMap Signal) (o : Option Signal)
    → get sigs (codes "pi") ≡ o
    → FedPorts before (ports_in o)
    → IsFed before sigs
at_pi before sigs o e h = subst (λ x. FedPorts before (ports_in x)) (sym e) h

inject_pi-IsFed : (sigs : StrMap Signal) → IsFed (drivers sigs (codes "pi")) (inject_pi sigs)
unfolding inject_pi
inject_pi-IsFed sigs = elim (Option-cases (get sigs (codes "pi"))) [
  | inl absent ↦ rw (absent, inject_pi) (at_pi 0 sigs none absent (refl, omega arith))
  | inr (s, found) ↦ elim (Bool-cases (any is_device_in s.ports && not (any is_out s.ports))) [
    | inl y ↦
        let none_out : any is_out s.ports ≡ false = ground (arith, y) in
        let out = any-last is_out s.ports (pi_ref s) (str_eq_refl (codes "out")) in
        let few : length (select is_out (s.ports ++ pi_ref s ∷ [])) ≤ 1 =
          count-last is_out s.ports (pi_ref s) none_out in
        rw (found, y, inject_pi)
          (at_pi (length (select is_out s.ports)) _ (some (with_port (pi_ref s) s))
            (get-put_same (codes "pi") (with_port (pi_ref s) s) sigs)
            (ground (arith, out), omega (arith, few)))
    | inr kept ↦
        rw (found, kept, inject_pi)
          (at_pi (length (select is_out s.ports)) sigs (some s) found
            (ground (arith, kept), omega arith))
  ]
]

inject_pi-Grows : (sigs : StrMap Signal) → Grows sigs (inject_pi sigs)
unfolding inject_pi
inject_pi-Grows sigs = elim (Option-cases (get sigs (codes "pi"))) [
  | inl absent ↦ rw (absent, inject_pi) (λ n p h. h)
  | inr (s, found) ↦ elim (Bool-cases (any is_device_in s.ports && not (any is_out s.ports))) [
    | inl y ↦
        rw (found, y, inject_pi) (put-Grows (codes "pi") s (pi_ref s) sigs (ap ports_in found))
    | inr kept ↦ rw (found, kept, inject_pi) (λ n p h. h)
  ]
]

-- What the net list has behind `injectInternalBusPorts`.
pub record Injected (bus : PeripheralBusModel) (before after : StrMap Signal) : Type 0 where
  pub buses :
      (b : Bytes)
      → any (λ c. str_eq c b) (bus.connected ++ bus.disconnected) ≡ true
      → HasBus after b
  pub grows :
      (n : Bytes) (p : SignalPortRef → Bool)
      → any p (ports_at before n) ≡ true
      → any p (ports_at after n) ≡ true
  pub driven : fed after (codes "pi") ≡ true
  pub no_second : drivers after (codes "pi") ≤ max 1 (drivers before (codes "pi"))

-- After injectInternalBusPorts of a design with a data bus, each connected or disconnected bus has the
-- out port of its read data and the in port of its written data on the inner side of the devices, and
-- every port of a signal before is one after. The signal pi has an out port if a device reads it, and
-- no more of them than it had before, or one.
pub inject_internal_bus_ports-Injected :
    (bus : PeripheralBusModel) (sigs : StrMap Signal)
    → Injected bus sigs (inject_internal_bus_ports (some bus) sigs)
unfolding inject_internal_bus_ports
inject_internal_bus_ports-Injected bus sigs =
    let names : List Bytes = bus.connected ++ bus.disconnected in
    let bs : List Bytes = sort_by str_lt names in
    let mid : StrMap Signal = inject_buses bs sigs in
    let last : Grows mid (inject_pi mid) = inject_pi-Grows mid in
    let pi : IsFed (drivers mid (codes "pi")) (inject_pi mid) = inject_pi-IsFed mid in
    record {
      buses = λ b h.
          Grows-HasBus _ _ b last
            (inject_buses-HasBus bs b sigs (any-sort_by str_lt (λ c. str_eq c b) names ∙ h));
      grows = Grows-trans _ _ _ (inject_buses-Grows bs sigs) last;
      driven = pi.0;
      no_second =
          subst (λ ps. drivers (inject_pi mid) (codes "pi") ≤ max 1 (length (select is_out ps)))
            (ports-inject_buses bs sigs) pi.1;
    }
