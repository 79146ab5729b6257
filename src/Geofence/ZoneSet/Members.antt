-- ===== src/Geofence/ZoneSet/Members.antt =====
-- Sets of names as sorted lists: membership, difference and the changes that events describe.
use cdp_go.Base.{
  All, Bool, Bool-cases, Bytes, List, [], ap, arith, bytes_eq, bytes_eq_iff, false, if◌then◌else◌,
  inl, inr, not, refl, true, ◌&&◌, ◌||◌, ◌∷◌, ◌≡◌,
}
use cdp_go.Geofence.Names.{
  IsBelow, IsBelow-trans, IsNew, IsSorted, insert_name, name_lt, name_lt_irrefl, name_lt_total,
}

unfoldable pub has : Bytes → List Bytes → Bool
has a [] = false
has a (x ∷ xs) = bytes_eq a x || has a xs

-- The names of the first list that the second does not have.
unfoldable pub minus : List Bytes → List Bytes → List Bytes
minus [] ys = []
minus (x ∷ xs) ys = if has x ys then minus xs ys else x ∷ minus xs ys

unfoldable pub remove_name : Bytes → List Bytes → List Bytes
remove_name a [] = []
remove_name a (x ∷ xs) = if bytes_eq a x then remove_name a xs else x ∷ remove_name a xs

pub bytes_eq_refl : (a : Bytes) → bytes_eq a a ≡ true
bytes_eq_refl a = (bytes_eq_iff a a).1 refl

pub lt→bytes_ne :
    (a b : Bytes) → name_lt a b ≡ true → (bytes_eq a b ≡ false) × (bytes_eq b a ≡ false)
lt→bytes_ne a b h = (
  ground (arith, bytes_eq_iff a b, name_lt_irrefl a, λ (e : a ≡ b). ap (name_lt a) e),
  ground (arith, bytes_eq_iff b a, name_lt_irrefl a, λ (e : b ≡ a). ap (name_lt a) e),
)

pub has-IsBelow : (a : Bytes) (xs : List Bytes) → IsBelow a xs → has a xs ≡ false
unfolding has
has-IsBelow a [] h = refl
has-IsBelow a (x ∷ xs) h = ground (arith, lt→bytes_ne a x h.0, has-IsBelow a xs h.1)

-- A name below all of the first list makes no difference in the second.
pub minus-IsBelow :
    (a : Bytes) (xs ys : List Bytes) → IsBelow a xs → minus xs (a ∷ ys) ≡ minus xs ys
unfolding minus has
minus-IsBelow a [] ys h = refl
minus-IsBelow a (x ∷ xs) ys h = ground (arith, lt→bytes_ne a x h.0, minus-IsBelow a xs ys h.1)

pub has-minus :
    (a : Bytes) (xs ys : List Bytes) → has a (minus xs ys) ≡ (has a xs && not (has a ys))
unfolding has minus
has-minus a [] ys = refl
has-minus a (x ∷ xs) ys =
    ground (arith, has-minus a xs ys, bytes_eq_iff a x, λ (e : a ≡ x). ap (λ b. has b ys) e)

pub has-remove_name :
    (a b : Bytes) (xs : List Bytes) → has a (remove_name b xs) ≡ (has a xs && not (bytes_eq b a))
unfolding has remove_name
has-remove_name a b [] = refl
has-remove_name a b (x ∷ xs) =
    ground (arith, has-remove_name a b xs, bytes_eq_iff a x, bytes_eq_iff b x, bytes_eq_iff b a)

pub has-insert_name :
    (a b : Bytes) (xs : List Bytes) → has a (insert_name b xs) ≡ (bytes_eq a b || has a xs)
unfolding has insert_name
has-insert_name a b [] = refl
has-insert_name a b (x ∷ xs) = ground (arith, has-insert_name a b xs)

pub not_has-IsNew : (a : Bytes) (xs : List Bytes) → has a xs ≡ false → IsNew a xs
unfolding has
not_has-IsNew a [] h = tt
not_has-IsNew a (x ∷ xs) h = ground (arith, bytes_eq_iff a x, not_has-IsNew a xs)

remove_name-All {κ} :
    (P : Bytes → Type κ) (a : Bytes) (xs : List Bytes) → All P xs → All P (remove_name a xs)
unfolding remove_name
remove_name-All P a [] h = tt
remove_name-All P a (x ∷ xs) h = elim (Bool-cases (bytes_eq a x)) [
  | inl same ↦ rw same (remove_name-All P a xs h.1)
  | inr other ↦ rw other (h.0, remove_name-All P a xs h.1)
]

pub remove_name-IsSorted : (a : Bytes) (xs : List Bytes) → IsSorted xs → IsSorted (remove_name a xs)
unfolding remove_name
remove_name-IsSorted a [] h = tt
remove_name-IsSorted a (x ∷ xs) h = elim (Bool-cases (bytes_eq a x)) [
  | inl same ↦ rw same (remove_name-IsSorted a xs h.1)
  | inr other ↦
      rw other ((remove_name-All (λ b. name_lt x b ≡ true) a xs h.0, remove_name-IsSorted a xs h.1))
]

-- Two sorted lists with the same names are equal.
pub IsSorted-ext :
    (xs ys : List Bytes) → IsSorted xs → IsSorted ys → ((a : Bytes) → has a xs ≡ has a ys) → xs ≡ ys
unfolding has
IsSorted-ext [] [] h k e = refl
IsSorted-ext [] (y ∷ ys) h k e = ground (arith, e y, bytes_eq_refl y)
IsSorted-ext (x ∷ xs) [] h k e = ground (arith, e x, bytes_eq_refl x)
IsSorted-ext (x ∷ xs) (y ∷ ys) h k e = elim (name_lt_total x y) [
  | inl same ↦
      let tails = IsSorted-ext xs ys h.1 k.1 (λ a. ground (
        arith,
        e a,
        bytes_eq_iff a x,
        bytes_eq_iff a y,
        has-IsBelow x xs h.0,
        has-IsBelow y ys k.0,
      )) in
      cc
  | inr (inl less) ↦ ground (
    arith,
    e x,
    bytes_eq_refl x,
    lt→bytes_ne x y less,
    has-IsBelow x ys (IsBelow-trans x y ys less k.0),
  )
  | inr (inr more) ↦ ground (
    arith,
    e y,
    bytes_eq_refl y,
    lt→bytes_ne y x more,
    has-IsBelow y xs (IsBelow-trans y x xs more h.0),
  )
]
