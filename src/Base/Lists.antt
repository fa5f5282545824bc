-- ===== src/Base/Lists.antt =====
-- Lists measured and indexed by native numbers, under the library's names.
use Prim.Native.Nat.{ℕ, zero, suc, ◌+◌}
use mathlib.Core.Path.{◌≡◌, refl, ap}
use mathlib.Core.Bool.{Bool, true, false, ◌&&◌, ◌||◌}
use mathlib.Core.List.{List, [], ◌∷◌, ◌++◌}
use mathlib.Core.Option.{Option, none, some}
use native.Mathlib.Omega.{arith}

module _ {ℓ} {A : Type ℓ} where
  abbrev pub length : List A → ℕ
  length [] = 0
  length (x ∷ xs) = suc (length xs)

  abbrev pub get_elem? : List A → ℕ → Option A
  get_elem? [] i = none
  get_elem? (x ∷ xs) zero = some x
  get_elem? (x ∷ xs) (suc i) = get_elem? xs i

  abbrev pub get_or : List A → ℕ → A → A
  get_or [] i d = d
  get_or (x ∷ xs) zero d = x
  get_or (x ∷ xs) (suc i) d = get_or xs i d

  abbrev pub take : ℕ → List A → List A
  take zero xs = []
  take (suc n) [] = []
  take (suc n) (x ∷ xs) = x ∷ take n xs

  abbrev pub drop : ℕ → List A → List A
  drop zero xs = xs
  drop (suc n) [] = []
  drop (suc n) (x ∷ xs) = drop n xs

  abbrev pub replicate : ℕ → A → List A
  replicate zero a = []
  replicate (suc n) a = a ∷ replicate n a

  pub length-append : (xs ys : List A) → length (xs ++ ys) ≡ length xs + length ys
  length-append [] ys = omega arith
  length-append (x ∷ xs) ys = omega (arith, length-append xs ys)

  pub take-append : (xs ys : List A) → take (length xs) (xs ++ ys) ≡ xs
  take-append [] ys = refl
  take-append (x ∷ xs) ys = ap (λ t. x ∷ t) (take-append xs ys)

module _ {ℓ κ} {A : Type ℓ} (P : A → Type κ) where
  abbrev pub All : List A → Type κ
  All [] = Unit
  All (x ∷ xs) = P x × All xs

  pub All-append : (xs ys : List A) → All xs → All ys → All (xs ++ ys)
  All-append [] ys _ hy = hy
  All-append (x ∷ xs) ys (px, hx) hy = (px, All-append xs ys hx hy)

module _ {ℓ} {A : Type ℓ} (p : A → Bool) where
  abbrev pub all : List A → Bool
  all [] = true
  all (x ∷ xs) = p x && all xs

  abbrev pub any : List A → Bool
  any [] = false
  any (x ∷ xs) = p x || any xs

  -- Keeps the elements that pass a Boolean test, in order.
  abbrev pub select : List A → List A
  select [] = []
  select (x ∷ xs) = let rest = select xs in elim (p x) [ true ↦ x ∷ rest | false ↦ rest ]

-- The relation holds of every element and each one behind it.
module _ {ℓ κ} {A : Type ℓ} (R : A → A → Type κ) where
  abbrev pub AllPairs : List A → Type κ
  AllPairs [] = Unit
  AllPairs (x ∷ xs) = All (R x) xs × AllPairs xs

  pub AllPairs-append_left : (xs ys : List A) → AllPairs (xs ++ ys) → AllPairs xs
  AllPairs-append_left [] ys h = tt
  AllPairs-append_left (x ∷ xs) ys (r, h) = (heads x xs ys r, AllPairs-append_left xs ys h)
    where
      heads : (x : A) (xs ys : List A) → All (R x) (xs ++ ys) → All (R x) xs
      heads x [] ys h = tt
      heads x (y ∷ xs) ys (r, h) = (r, heads x xs ys h)

pub AllPairs-map {ℓ κ} :
    {A : Type ℓ}
    → (R S : A → A → Type κ) → ((x y : A) → R x y → S x y)
    → (xs : List A) → AllPairs R xs
    → AllPairs S xs
AllPairs-map {A = A} R S f [] h = tt
AllPairs-map {A = A} R S f (x ∷ xs) (r, h) = (heads x xs r, AllPairs-map R S f xs h)
  where
    heads : (x : A) (ys : List A) → All (R x) ys → All (S x) ys
    heads x [] h = tt
    heads x (y ∷ ys) (r, h) = (f x y r, heads x ys h)
