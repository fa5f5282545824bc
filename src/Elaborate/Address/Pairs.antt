-- ===== src/Elaborate/Address/Pairs.antt =====
-- The loops over all pairs of sorted ranges find an overlap exactly when two ranges overlap.
use jcore_soc.Base.{
  ◌<◌, ◌≡◌, refl, ◌↔◌, ◌⊎◌, inl, inr, List, [], ◌∷◌, ◌++◌, arith, All, AllPairs, sort_by,
  AllPairs-sort_by,
}
use jcore_soc.Elaborate.Address.{AddrRange, range_less, overlaps_with, overlap_errors}

-- The ranges have no address in common.
abbrev pub Disjoint : AddrRange → AddrRange → Type 0
Disjoint r s = (r.hi < s.lo) ⊎ (s.hi < r.lo)

Disjoint-sym : (r s : AddrRange) → Disjoint r s → Disjoint s r
Disjoint-sym r s (inl h) = inr h
Disjoint-sym r s (inr h) = inl h

pub append-empty : {A : Type 0} → (xs ys : List A) → (xs ++ ys ≡ []) ↔ ((xs ≡ []) × (ys ≡ []))
append-empty [] ys = (λ e. (refl, e), λ e. e.1)
append-empty (x ∷ xs) ys = (λ e. cc e, λ e. cc (e.0))

overlaps_with-empty :
    (r : AddrRange) (rs : List AddrRange) → (overlaps_with r rs ≡ []) ↔ All (Disjoint r) rs
unfolding overlaps_with
overlaps_with-empty r [] = (λ _. tt, λ _. refl)
overlaps_with-empty r (s ∷ rs) = ground (arith, overlaps_with-empty r rs)

overlap_errors-empty : (rs : List AddrRange) → (overlap_errors rs ≡ []) ↔ AllPairs Disjoint rs
unfolding overlap_errors
overlap_errors-empty [] = (λ _. tt, λ _. refl)
overlap_errors-empty (r ∷ rs) =
    let x = append-empty (overlaps_with r rs) (overlap_errors rs) in
    let h = overlaps_with-empty r rs in
    let t = overlap_errors-empty rs in
    (λ e. (h.0 (x.0 e).0, t.0 (x.0 e).1), λ d. x.1 (h.1 d.0, t.1 d.1))

-- The sorted ranges give no error exactly when the ranges are pairwise disjoint.
pub sorted-empty :
    (rs : List AddrRange) → (overlap_errors (sort_by range_less rs) ≡ []) ↔ AllPairs Disjoint rs
sorted-empty rs =
    let e = overlap_errors-empty (sort_by range_less rs) in
    let p = AllPairs-sort_by range_less Disjoint Disjoint-sym rs in
    (λ h. p.0 (e.0 h), λ h. e.1 (p.1 h))
