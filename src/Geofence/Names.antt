-- ===== src/Geofence/Names.antt =====
-- Zone names under Go's order of strings, which is that of their bytes, and `sort.Strings`.
use cdp_go.Base.{
  All, Bool, Bool-cases, Bytes, List, [], arith, false, if◌then◌else◌, inl, inr, ltb, refl, true,
  ◌&&◌, ◌==◌, ◌||◌, ◌∷◌, ◌≡◌, ◌≢◌, ◌⊎◌,
}

-- `a < b` on strings.
unfoldable pub name_lt : Bytes → Bytes → Bool
name_lt [] [] = false
name_lt [] (y ∷ ys) = true
name_lt (x ∷ xs) [] = false
name_lt (x ∷ xs) (y ∷ ys) = ltb x y || (x == y && name_lt xs ys)

pub name_lt_irrefl : (a : Bytes) → name_lt a a ≡ false
unfolding name_lt
name_lt_irrefl [] = refl
name_lt_irrefl (x ∷ a) = ground (arith, name_lt_irrefl a)

pub name_lt_trans : (a b c : Bytes) → name_lt a b ≡ true → name_lt b c ≡ true → name_lt a c ≡ true
unfolding name_lt
name_lt_trans [] [] c h k = cc
name_lt_trans [] (y ∷ b) [] h k = cc
name_lt_trans [] (y ∷ b) (z ∷ c) h k = refl
name_lt_trans (x ∷ a) [] c h k = cc
name_lt_trans (x ∷ a) (y ∷ b) [] h k = cc
name_lt_trans (x ∷ a) (y ∷ b) (z ∷ c) h k = ground (arith, name_lt_trans a b c)

pub name_lt_total : (a b : Bytes) → (a ≡ b) ⊎ (name_lt a b ≡ true) ⊎ (name_lt b a ≡ true)
unfolding name_lt
name_lt_total [] [] = inl refl
name_lt_total [] (y ∷ b) = ground arith
name_lt_total (x ∷ a) [] = ground arith
name_lt_total (x ∷ a) (y ∷ b) = ground (arith, name_lt_total a b)

pub name_lt_asymm : (a b : Bytes) → name_lt a b ≡ true → name_lt b a ≡ false
name_lt_asymm a b h = elim (Bool-cases (name_lt b a)) [
  | inl k ↦ cc (name_lt_trans a b a h k, name_lt_irrefl a)
  | inr k ↦ k
]

-- `sort.Strings`: equal names cannot be told apart, so every sort gives this list.
unfoldable pub insert_name : Bytes → List Bytes → List Bytes
insert_name a [] = a ∷ []
insert_name a (b ∷ bs) = if name_lt b a then b ∷ insert_name a bs else a ∷ (b ∷ bs)

unfoldable pub sort_names : List Bytes → List Bytes
sort_names [] = []
sort_names (a ∷ bs) = insert_name a (sort_names bs)

-- `a` is below all of the names.
abbrev pub IsBelow : Bytes → List Bytes → Type 0
IsBelow a = All (λ b. name_lt a b ≡ true)

-- Sorted, and no name twice.
abbrev pub IsSorted : List Bytes → Type 0
IsSorted [] = Unit
IsSorted (a ∷ bs) = IsBelow a bs × IsSorted bs

-- `a` is none of the names.
abbrev pub IsNew : Bytes → List Bytes → Type 0
IsNew a = All (λ b. a ≢ b)

abbrev pub AreDistinct : List Bytes → Type 0
AreDistinct [] = Unit
AreDistinct (a ∷ bs) = IsNew a bs × AreDistinct bs

pub IsBelow-trans :
    (a b : Bytes) (cs : List Bytes) → name_lt a b ≡ true → IsBelow b cs → IsBelow a cs
IsBelow-trans a b [] h k = tt
IsBelow-trans a b (c ∷ cs) h k = (name_lt_trans a b c h k.0, IsBelow-trans a b cs h k.1)

insert_name-IsBelow :
    (a b : Bytes) (bs : List Bytes)
    → name_lt a b ≡ true
    → IsBelow a bs
    → IsBelow a (insert_name b bs)
unfolding insert_name
insert_name-IsBelow a b [] h k = (h, tt)
insert_name-IsBelow a b (c ∷ cs) h k = ground (arith, insert_name-IsBelow a b cs h k.1)

pub insert_name-IsSorted :
    (a : Bytes) (bs : List Bytes) → IsNew a bs → IsSorted bs → IsSorted (insert_name a bs)
unfolding insert_name
insert_name-IsSorted a [] n h = (tt, tt)
insert_name-IsSorted a (b ∷ bs) n h = elim (Bool-cases (name_lt b a)) [
  | inl above ↦ rw above (insert_name-IsBelow b a bs above h.0, insert_name-IsSorted a bs n.1 h.1)
  | inr not_above ↦ rw not_above (
      let below : name_lt a b ≡ true = ground (arith, name_lt_total a b) in
      ((below, IsBelow-trans a b bs below h.0), h))
]

insert_name-IsNew :
    (a b : Bytes) (bs : List Bytes) → a ≢ b → IsNew a bs → IsNew a (insert_name b bs)
unfolding insert_name
insert_name-IsNew a b [] h k = (h, tt)
insert_name-IsNew a b (c ∷ cs) h k = ground (arith, insert_name-IsNew a b cs h k.1)

sort_names-IsNew : (a : Bytes) (bs : List Bytes) → IsNew a bs → IsNew a (sort_names bs)
unfolding sort_names
sort_names-IsNew a [] h = tt
sort_names-IsNew a (b ∷ bs) h =
    insert_name-IsNew a b (sort_names bs) h.0 (sort_names-IsNew a bs h.1)

pub sort_names-IsSorted : (bs : List Bytes) → AreDistinct bs → IsSorted (sort_names bs)
unfolding sort_names
sort_names-IsSorted [] h = tt
sort_names-IsSorted (b ∷ bs) h =
    insert_name-IsSorted b (sort_names bs) (sort_names-IsNew b bs h.0) (sort_names-IsSorted bs h.1)
