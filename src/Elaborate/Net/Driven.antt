-- ===== src/Elaborate/Net/Driven.antt =====
-- What the checks on the signals accept.
use jcore_soc.Base.{
  ◌≤◌, ◌≡◌, refl, sym, subst, ◌∙◌, ◌⊎◌, inl, inr, Bool, true, false, not, ◌&&◌, ◌||◌, none, some,
  List, [], ◌∷◌, map, arith, ltb, ◌==◌, if◌then◌else◌, Bool-cases, length, All, any, select, Bytes,
  str_eq, str_eq_iff, str_lt, sort_by, All-sort_by,
}
use jcore_soc.Elaborate.Model.{StrMap, get, keys}
use jcore_soc.Elaborate.Address.Pairs.{append-empty}
use jcore_soc.Elaborate.Net.{
  SignalPortRef, Signal, SignalError, is_driver, is_consumer, distinct, multi_driver_allowed,
  signal_errors, errors_of, validate_signals,
}

-- One type, one driver where no exception for pins applies, and a driver where a port consumes.
pub record IsDriven (s : Signal) : Type 0 where
  pub typed : length (distinct (map (λ (p : SignalPortRef). p.type_text) s.ports)) ≤ 1
  pub single :
      (length (select is_driver s.ports) ≤ 1)
      ⊎ (multi_driver_allowed (select is_driver s.ports) ≡ true)
  pub driven : not (any is_consumer s.ports) || any is_driver s.ports ≡ true

any-select : {A : Type 0} (p : A → Bool) (xs : List A) → any p xs ≡ ltb 0 (length (select p xs))
any-select p [] = refl
any-select p (x ∷ xs) = by_test (p x) (any-select p xs)
  where
    by_test :
        (b : Bool)
        → any p xs ≡ ltb 0 (length (select p xs))
        → (b || any p xs) ≡ ltb 0 (length (elim b [ true ↦ x ∷ select p xs | false ↦ select p xs ]))
    by_test true h = ground arith
    by_test false h = h

if-empty : {A : Type 0} (b : Bool) (x : A) → (if b then x ∷ [] else []) ≡ [] → b ≡ false
if-empty true x h = cc h
if-empty false x h = refl

signal_errors-empty : (n : Bytes) (s : Signal) → signal_errors n s ≡ [] → IsDriven s
unfolding signal_errors
signal_errors-empty n s h =
    let drivers = select is_driver s.ports in
    let (t, rest) = (append-empty _ _).0 h in
    let (m, u) = (append-empty _ _).0 rest in
    let types = distinct (map (λ (p : SignalPortRef). p.type_text) s.ports) in
    let ins = select is_consumer s.ports in
    let one : ltb 1 (length types) ≡ false = if-empty _ _ t in
    let alone : (ltb 1 (length drivers) && not (multi_driver_allowed drivers)) ≡ false =
      if-empty _ _ m in
    let fed : (length drivers == 0 && ltb 0 (length ins)) ≡ false = if-empty _ _ u in
    record {
      typed = ground (arith, one);
      single = elim (Bool-cases (multi_driver_allowed drivers)) [
        | inl y ↦ inr y
        | inr refused ↦ inl (ground (arith, alone, refused))
      ];
      driven = ground (arith, fed, any-select is_driver s.ports, any-select is_consumer s.ports);
    }

NoErrors : StrMap Signal → Bytes → Type 0
NoErrors sigs n = elim (get sigs n) [ none ↦ [] | some s ↦ signal_errors n s ] ≡ []

errors_of-empty :
    (ns : List Bytes) (sigs : StrMap Signal) → errors_of ns sigs ≡ [] → All (NoErrors sigs) ns
unfolding errors_of NoErrors
errors_of-empty [] sigs h = tt
errors_of-empty (n ∷ ns) sigs h =
    let (a, b) = (append-empty _ _).0 h in (a, errors_of-empty ns sigs b)

All-select :
    (P : Bytes → Type 0) (k : Bytes) (xs : List Bytes)
    → P k
    → All P (select (λ j. not (str_eq k j)) xs)
    → All P xs
All-select P k [] pk h = tt
All-select P k (x ∷ xs) pk h = by_test (str_eq k x) refl (All-select P k xs pk) h
  where
    by_test :
        (b : Bool)
        → str_eq k x ≡ b
        → (All P (select (λ j. not (str_eq k j)) xs) → All P xs)
        → All P (elim (not b) [
          | true ↦ x ∷ select (λ j. not (str_eq k j)) xs
          | false ↦ select (λ j. not (str_eq k j)) xs
        ])
        → P x × All P xs
    by_test true e ih h = (subst P ((str_eq_iff k x).0 e) pk, ih h)
    by_test false e ih h = (h.0, ih h.1)

-- What holds of all keys holds of a key that is there.
All-keys :
    {A : Type 0} (P : Bytes → Type 0) (m : StrMap A) (n : Bytes) (v : A)
    → All P (keys m)
    → get m n ≡ some v
    → P n
unfolding keys get
All-keys P [] n v h e = cc e
All-keys P ((k, w) ∷ m) n v (pk, h) e = elim (Bool-cases (str_eq k n)) [
  | inl same ↦ subst P ((str_eq_iff k n).0 same) pk
  | inr other ↦
      let behind : get m n ≡ some v = sym (rw other) ∙ e in
      All-keys P m n v (All-select P k (keys m) pk h) behind
]

-- Where validateSignals reports nothing, each signal has one type, one driver, where the exceptions
-- for pins do not apply, and a driver if a port consumes it.
pub validate_signals-IsDriven :
    (sigs : StrMap Signal) (n : Bytes) (s : Signal)
    → validate_signals sigs ≡ []
    → get sigs n ≡ some s
    → IsDriven s
unfolding validate_signals NoErrors
validate_signals-IsDriven sigs n s valid found =
    let all_names = errors_of-empty (sort_by str_lt (keys sigs)) sigs valid in
    let each = (All-sort_by str_lt (NoErrors sigs) (keys sigs)).0 all_names in
    let here = All-keys (NoErrors sigs) sigs n s each found in
    signal_errors-empty n s (
      subst (λ o. elim o as (λ _. List SignalError) [ none ↦ [] | some t ↦ signal_errors n t ] ≡ [])
        found here)
