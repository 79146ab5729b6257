-- ===== src/Geofence/ZoneSet/Diff.antt =====
-- `ZoneSet.Equal` and `diffZoneSets` against the sets that the sorted lists stand for.
use cdp_go.Base.{
  Bytes, List, [], ap, arith, bytes_eq_iff, inl, inr, length, refl, true, ◌↔◌, ◌∷◌, ◌≡◌,
}
use cdp_go.Geofence.Names.{IsBelow-trans, IsSorted, name_lt_asymm, name_lt_total}
use cdp_go.Geofence.ZoneSet.{ZoneSet, diff_names, elems, equal, same_names}
use cdp_go.Geofence.ZoneSet.Members.{has, has-IsBelow, lt→bytes_ne, minus, minus-IsBelow}

pub same_names_iff : (xs ys : List Bytes) → (same_names xs ys ≡ true) ↔ (xs ≡ ys)
unfolding same_names
same_names_iff [] [] = ground arith
same_names_iff [] (y ∷ ys) = ground arith
same_names_iff (x ∷ xs) [] = ground arith
same_names_iff (x ∷ xs) (y ∷ ys) = ground (arith, bytes_eq_iff x y, same_names_iff xs ys)

-- Two sets are equal exactly when they have the same names, nil or not.
pub equal_iff : (z w : ZoneSet) → (equal z w ≡ true) ↔ (elems z ≡ elems w)
unfolding equal
equal_iff z w =
    ground (arith, same_names_iff (elems z) (elems w), λ (e : elems z ≡ elems w). ap length e)

minus-nil : (xs : List Bytes) → minus xs [] ≡ xs
unfolding minus has
minus-nil [] = refl
minus-nil (x ∷ xs) = ap (◌∷◌ x) (minus-nil xs)

-- Of two sorted sets `diffZoneSets` finds the names that only the first has and those that only the
-- second has.
pub diff_names-minus :
    (prev next : List Bytes)
    → IsSorted prev
    → IsSorted next
    → diff_names prev next ≡ (minus prev next, minus next prev)
unfolding diff_names minus has
diff_names-minus [] next h k = ground (arith, minus-nil next)
diff_names-minus (a ∷ prev) [] h k = ground (arith, minus-nil prev)
diff_names-minus (a ∷ prev) (b ∷ next) h k = elim (name_lt_total a b) [
  | inl same ↦ ground (
    arith,
    bytes_eq_iff a b,
    bytes_eq_iff b a,
    minus-IsBelow b prev next,
    minus-IsBelow a next prev,
    rw same at h.0,
    rw (← same) at k.0,
    diff_names-minus prev next h.1 k.1,
  )
  | inr (inl less) ↦
      let below = IsBelow-trans a b next less k.0 in
      ground (
        arith,
        less,
        lt→bytes_ne a b less,
        has-IsBelow a next below,
        minus-IsBelow a next prev below,
        diff_names-minus prev (b ∷ next) h.1 k,
      )
  | inr (inr more) ↦
      let below = IsBelow-trans b a prev more h.0 in
      ground (
        arith,
        name_lt_asymm b a more,
        lt→bytes_ne b a more,
        has-IsBelow b prev below,
        minus-IsBelow b prev next below,
        diff_names-minus (a ∷ prev) next h k.1,
      )
]
