-- ===== src/Base/Int.antt =====
-- Go's `int`, as integers over the native numbers, under the library's names.
use Prim.Native.Nat.{ℕ, ◌+◌, ◌-◌}
use mathlib.Core.Path.{◌≡◌}
use mathlib.Core.Bool.{Bool, true, false}
use mathlib.Core.Logic.{◌↔◌}
use mathlib.Core.List.{◌∷◌}
use native.Mathlib.Omega.{arith}
use jcore_soc.Base.Tests.{ltb, ◌==◌, if◌then◌else◌}
use jcore_soc.Base.Text.{Bytes, itoa}

pub data ℤ : Type 0 where
  pos : ℕ → ℤ
  negsuc : ℕ → ℤ

abbrev pub is_neg : ℤ → Bool
is_neg (pos n) = false
is_neg (negsuc n) = true

abbrev pub to_nat : ℤ → ℕ
to_nat (pos n) = n
to_nat (negsuc n) = 0

abbrev pub int_eq : ℤ → ℤ → Bool
int_eq (pos m) (pos n) = m == n
int_eq (negsuc m) (negsuc n) = m == n
int_eq _ _ = false

abbrev pub int_lt : ℤ → ℤ → Bool
int_lt (pos m) (pos n) = ltb m n
int_lt (negsuc m) (negsuc n) = ltb n m
int_lt (pos m) (negsuc n) = false
int_lt (negsuc m) (pos n) = true

-- `k + i` of a number k.
abbrev pub add_nat : ℕ → ℤ → ℤ
add_nat k (pos n) = pos (k + n)
add_nat k (negsuc n) = if ltb n k then pos (k - n - 1) else negsuc (n - k)

-- `strconv.Itoa`.
abbrev pub show_int : ℤ → Bytes
show_int (pos n) = itoa n
show_int (negsuc n) = b'-' ∷ itoa (n + 1)

pub int_eq_iff : (i j : ℤ) → (int_eq i j ≡ true) ↔ (i ≡ j)
int_eq_iff i j = ground arith
