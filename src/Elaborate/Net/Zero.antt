-- ===== src/Elaborate/Net/Zero.antt =====
-- The zero signals get a driver.
use jcore_soc.Base.{
  ◌≡◌, Bool, true, false, Option, none, some, List, [], ◌∷◌, ◌++◌, arith, any, Bytes, str_eq,
  str_eq_refl,
}
use jcore_soc.Elaborate.Model.{StrMap, get, put}
use jcore_soc.Elaborate.Net.{Signal, is_out}

-- The signal is not there, or a port drives it.
abbrev pub out_or_absent : Option Signal → Bool
out_or_absent none = true
out_or_absent (some s) = any is_out s.ports

pub any-last :
    {A : Type 0} (p : A → Bool) (xs : List A) (x : A) → p x ≡ true → any p (xs ++ x ∷ []) ≡ true
any-last p [] x h = rw h
any-last p (y ∷ xs) x h = ground (arith, any-last p xs x h)

pub get-put_same : {A : Type 0} (k : Bytes) (v : A) (m : StrMap A) → get (put k v m) k ≡ some v
unfolding get
get-put_same k v m = rw (str_eq_refl k, get)

pub get-put_at :
    {A : Type 0} (k : Bytes) (v : A) (m : StrMap A) (j : Bytes)
    → str_eq k j ≡ true
    → get (put k v m) j ≡ some v
unfolding get
get-put_at k v m j y = rw (y, get)

pub get-put_other :
    {A : Type 0} (k n : Bytes) (v : A) (m : StrMap A)
    → str_eq k n ≡ false
    → get (put k v m) n ≡ get m n
unfolding get
get-put_other k n v m h = rw (h, get)
