-- ===== src/Base/Sort.antt =====
-- Insertion sort by a Boolean order, for Go's `sort.Slice`, `sort.Strings` and `sort.Ints`, and what
-- sorting keeps.
use mathlib.Core.Path.{◌≡◌, refl, sym, ap, subst, ◌∙◌}
use mathlib.Core.Logic.{◌↔◌, inl, inr}
use mathlib.Core.Bool.{Bool, true, false, ◌||◌}
use mathlib.Core.List.{List, [], ◌∷◌}
use native.Mathlib.Omega.{arith}
use jcore_soc.Base.Tests.{Bool-cases}
use jcore_soc.Base.Lists.{All, AllPairs, any}

module _ {ℓ} {A : Type ℓ} (less : A → A → Bool) where
  unfoldable pub insert_by : A → List A → List A
  insert_by x [] = x ∷ []
  insert_by x (y ∷ ys) =
      let rest = insert_by x ys in elim (less y x) [ true ↦ y ∷ rest | false ↦ x ∷ (y ∷ ys) ]

  unfoldable pub sort_by : List A → List A
  sort_by [] = []
  sort_by (x ∷ xs) = insert_by x (sort_by xs)

  insert_by-behind :
      (x y : A) (ys : List A) → less y x ≡ true → insert_by x (y ∷ ys) ≡ y ∷ insert_by x ys
  unfolding insert_by
  insert_by-behind x y ys l = rw (l, insert_by)

  insert_by-here : (x y : A) (ys : List A) → less y x ≡ false → insert_by x (y ∷ ys) ≡ x ∷ (y ∷ ys)
  unfolding insert_by
  insert_by-here x y ys l = rw (l, insert_by)

  any-insert_by : (p : A → Bool) (x : A) (ys : List A) → any p (insert_by x ys) ≡ p x || any p ys
  unfolding insert_by
  any-insert_by p x [] = refl
  any-insert_by p x (y ∷ ys) = elim (Bool-cases (less y x)) [
    | inl l ↦ rw (insert_by-behind x y ys l, any-insert_by p x ys) (swapped (p x) (p y) (any p ys))
    | inr n ↦ rw (insert_by-here x y ys n) refl
  ]
    where
      swapped : (a b c : Bool) → b || (a || c) ≡ a || (b || c)
      swapped a b c = ground arith

  pub any-sort_by : (p : A → Bool) (xs : List A) → any p (sort_by xs) ≡ any p xs
  unfolding sort_by
  any-sort_by p [] = refl
  any-sort_by p (x ∷ xs) = any-insert_by p x (sort_by xs) ∙ ap (λ b. p x || b) (any-sort_by p xs)

  module _ {κ} (P : A → Type κ) where
    All-insert_by : (x : A) (ys : List A) → All P (insert_by x ys) ↔ (P x × All P ys)
    unfolding insert_by
    All-insert_by x [] = (λ h. h, λ h. h)
    All-insert_by x (y ∷ ys) = elim (Bool-cases (less y x)) [
      | inr n ↦
          subst (λ zs. All P zs ↔ (P x × All P (y ∷ ys))) (sym (insert_by-here x y ys n))
            (λ h. h, λ h. h)
      | inl l ↦
          let ih = All-insert_by x ys in
          subst (λ zs. All P zs ↔ (P x × All P (y ∷ ys))) (sym (insert_by-behind x y ys l))
            (λ h. ((ih.0 h.1).0, (h.0, (ih.0 h.1).1)), λ h. (h.1.0, ih.1 (h.0, h.1.1)))
    ]

    pub All-sort_by : (xs : List A) → All P (sort_by xs) ↔ All P xs
    unfolding sort_by
    All-sort_by [] = (λ h. h, λ h. h)
    All-sort_by (x ∷ xs) =
        let i = All-insert_by x (sort_by xs) in
        let ih = All-sort_by xs in (λ h. ((i.0 h).0, ih.0 (i.0 h).1), λ h. i.1 (h.0, ih.1 h.1))

  module _ {κ} (R : A → A → Type κ) (symmetric : (x y : A) → R x y → R y x) where
    AllPairs-insert_by :
        (x : A) (ys : List A) → AllPairs R (insert_by x ys) ↔ (All (R x) ys × AllPairs R ys)
    unfolding insert_by
    AllPairs-insert_by x [] = (λ h. h, λ h. h)
    AllPairs-insert_by x (y ∷ ys) = elim (Bool-cases (less y x)) [
      | inr n ↦
          subst (λ zs. AllPairs R zs ↔ (All (R x) (y ∷ ys) × AllPairs R (y ∷ ys)))
            (sym (insert_by-here x y ys n)) (λ h. h, λ h. h)
      | inl l ↦
          let ih = AllPairs-insert_by x ys in
          let heads = All-insert_by (R y) x ys in
          subst (λ zs. AllPairs R zs ↔ (All (R x) (y ∷ ys) × AllPairs R (y ∷ ys)))
            (sym (insert_by-behind x y ys l))
            (
              λ h.
                  let (yx, y_all) = heads.0 h.0 in
                  let (x_all, pairs) = ih.0 h.1 in ((symmetric y x yx, x_all), (y_all, pairs)),
              λ h. (heads.1 (symmetric x y h.0.0, h.1.0), ih.1 (h.0.1, h.1.1)),
            )
    ]

    -- A symmetric relation of all pairs does not depend on the order.
    pub AllPairs-sort_by : (xs : List A) → AllPairs R (sort_by xs) ↔ AllPairs R xs
    unfolding sort_by
    AllPairs-sort_by [] = (λ h. h, λ h. h)
    AllPairs-sort_by (x ∷ xs) =
        let i = AllPairs-insert_by x (sort_by xs) in
        let heads = All-sort_by (R x) xs in
        let ih = AllPairs-sort_by xs in
        (λ h. (heads.0 (i.0 h).0, ih.0 (i.0 h).1), λ h. i.1 (heads.1 h.0, ih.1 h.1))
