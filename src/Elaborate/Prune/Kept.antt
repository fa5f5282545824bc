-- ===== src/Elaborate/Prune/Kept.antt =====
-- No port refers to a signal that was removed.
use jcore_soc.Base.{
  ◌≡◌, refl, sym, ap, ◌∙◌, inl, inr, Bool, true, false, not, ◌&&◌, ◌||◌, none, List, [], ◌∷◌, map,
  arith, if◌then◌else◌, Bool-cases, &&-elim, is_some, drop, all, select, Bytes, str_eq, str_eq_iff,
}
use jcore_soc.Elaborate.Model.{ResolvedPort, ResolvedDevice, Resolution, StrMap, get, keys}
use jcore_soc.Elaborate.Net.{Signal, is_signal}
use jcore_soc.Elaborate.Prune.{
  is_named, is_kept, clear_port, clear_pruned_refs, pruned_names, kept_where,
  remove_write_only_signals,
}

-- The port is connected to no signal, or to one that is there.
abbrev pub refers_to : StrMap Signal → ResolvedPort → Bool
refers_to sigs p =
    not (is_signal p.kind) || (str_eq p.global_signal [] || is_some (get sigs p.global_signal))

abbrev pub all_refer : StrMap Signal → List ResolvedDevice → Bool
all_refer sigs devs = all (λ (dev : ResolvedDevice). all (refers_to sigs) dev.ports) devs

get-kept_where :
    (f : Bytes → Bool) (m : StrMap Signal) (n : Bytes)
    → get (kept_where f m) n ≡ (if f n then get m n else none)
unfolding kept_where get
get-kept_where f [] n = ground arith
get-kept_where f ((k, s) ∷ m) n = elim (Bool-cases (str_eq k n)) [
  | inl same ↦
      let e : k ≡ n = (str_eq_iff k n).0 same in
      elim (Bool-cases (f k)) [
        | inl y ↦ ground (arith, y, same, e, ap f e)
        | inr drop ↦ ground (arith, drop, same, ap f e, get-kept_where f m n)
      ]
  | inr other ↦ ground (arith, other, get-kept_where f m n)
]

named-select :
    (f : Bytes → Bool) (n : Bytes) (xs : List Bytes)
    → is_named xs n ≡ true
    → f n ≡ true
    → is_named (select f xs) n ≡ true
named-select f n [] h y = h
named-select f n (x ∷ xs) h y = elim (Bool-cases (str_eq n x)) [
  | inl same ↦
      let e : f x ≡ true = sym (ap f ((str_eq_iff n x).0 same)) ∙ y in ground (arith, e, same)
  | inr other ↦ ground (arith, other, h, named-select f n xs)
]

named-keys : (m : StrMap Signal) (n : Bytes) → is_some (get m n) ≡ true → is_named (keys m) n ≡ true
unfolding get keys
named-keys [] n h = cc h
named-keys ((k, s) ∷ m) n h = elim (Bool-cases (str_eq k n)) [
  | inl same ↦
      let e : str_eq n k ≡ true = (str_eq_iff n k).1 (sym ((str_eq_iff k n).0 same)) in
      ground (arith, e)
  | inr other ↦
      let there : is_some (get m n) ≡ true = ground (arith, other, h) in
      let kept =
        named-select (λ j. not (str_eq k j)) n (keys m) (named-keys m n there) (rw other) in
      ground (arith, kept)
]

-- A signal that is there and not named for removal stays.
there-kept_where :
    (f : Bytes → Bool) (sigs : StrMap Signal) (n : Bytes)
    → is_some (get sigs n) ≡ true
    → is_named (select (λ k. not (f k)) (keys sigs)) n ≡ false
    → is_some (get (kept_where f sigs) n) ≡ true
there-kept_where f sigs n there free = elim (Bool-cases (f n)) [
  | inl y ↦ ap is_some (get-kept_where f sigs n ∙ rw y) ∙ there
  | inr drop ↦
      let hit = named-select (λ k. not (f k)) n (keys sigs) (named-keys sigs n there) (rw drop) in
      cc (hit, free)
]

refers_to-clear_port :
    (f : Bytes → Bool) (sigs : StrMap Signal) (p : ResolvedPort)
    → refers_to sigs p ≡ true
    → refers_to (kept_where f sigs) (clear_port (select (λ k. not (f k)) (keys sigs)) p) ≡ true
unfolding str_eq
refers_to-clear_port f sigs p h =
    let names = select (λ k. not (f k)) (keys sigs) in
    let g = p.global_signal in
    elim (Bool-cases (is_signal p.kind && is_named names g)) [
      | inl y ↦ rw (y, clear_port) (ground arith)
      | inr free ↦ rw (free, clear_port) (ground (arith, h, free, there-kept_where f sigs g))
    ]

refer-clear_pruned_refs :
    (f : Bytes → Bool) (sigs : StrMap Signal) (ps : List ResolvedPort)
    → all (refers_to sigs) ps ≡ true
    → all
        (refers_to (kept_where f sigs))
        (clear_pruned_refs (select (λ k. not (f k)) (keys sigs)) ps)
      ≡ true
unfolding clear_pruned_refs
refer-clear_pruned_refs f sigs [] h = refl
refer-clear_pruned_refs f sigs (p ∷ ps) h =
    let r = &&-elim (refers_to sigs p) (all (refers_to sigs) ps) h in
    rw (refers_to-clear_port f sigs p r.0, refer-clear_pruned_refs f sigs ps r.1)

-- Where every device port refers to a signal of the net list or to none, this is so behind
-- removeWriteOnlySignals too, with the net list that is left.
pub refer-remove_write_only_signals :
    (zeros bound : List Bytes) (sigs : StrMap Signal) (res : Resolution)
    → all_refer sigs res.devices ≡ true
    → all_refer
        (remove_write_only_signals zeros bound sigs res).0
        (remove_write_only_signals zeros bound sigs res).1.devices
      ≡ true
unfolding remove_write_only_signals
refer-remove_write_only_signals zeros bound sigs res h = devices res.devices h
  where
    devices :
        (devs : List ResolvedDevice)
        → all_refer sigs devs ≡ true
        → all_refer (kept_where (is_kept zeros bound sigs) sigs) (
            map
              (λ (dev : ResolvedDevice). record dev {
                ports = clear_pruned_refs (pruned_names zeros bound sigs) dev.ports;
              })
              devs)
          ≡ true
    devices [] h = refl
    devices (dev ∷ devs) h =
        let r = &&-elim (all (refers_to sigs) dev.ports) (all_refer sigs devs) h in
        rw (refer-clear_pruned_refs (is_kept zeros bound sigs) sigs dev.ports r.0, devices devs r.1)
