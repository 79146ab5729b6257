-- ===== src/Geofence/ZoneSet.antt =====
-- `ZoneSet` of internal/geofence/engine.go and the comparison of two sets.
pub mod Members
pub mod Diff
use cdp_go.Base.{
  Bool, Bytes, List, [], bytes_eq, false, if◌then◌else◌, length, not, true, ◌&&◌, ◌++◌, ◌==◌, ◌∷◌,
}
use cdp_go.Geofence.Names.{name_lt}

-- A Go slice of names: the nil slice, or one that was made. The engine's code tests for nil.
pub data ZoneSet : Type 0 where
  nil : ZoneSet
  names : List Bytes → ZoneSet

-- `len`, `range` and slicing see no difference between nil and empty.
abbrev pub elems : ZoneSet → List Bytes
elems nil = []
elems (names xs) = xs

abbrev pub is_nil : ZoneSet → Bool
is_nil nil = true
is_nil (names _) = false

-- `append(z, name)`.
abbrev pub append_name : ZoneSet → Bytes → ZoneSet
append_name z name = names (elems z ++ (name ∷ []))

-- The loop of `ZoneSet.Equal`, for lists of one length.
unfoldable pub same_names : List Bytes → List Bytes → Bool
same_names [] [] = true
same_names (x ∷ xs) (y ∷ ys) = bytes_eq x y && same_names xs ys
same_names _ _ = false

-- `ZoneSet.Equal`.
unfoldable pub equal : ZoneSet → ZoneSet → Bool
unfolding same_names
equal z other =
    if not (length (elems z) == length (elems other))
    then false
    else same_names (elems z) (elems other)

-- `diffZoneSets`: the names that are only in `prev`, and those that are only in `next`.
unfoldable pub diff_names : List Bytes → List Bytes → List Bytes × List Bytes
diff_names [] next = ([], next)
diff_names (a ∷ prev) [] = (a ∷ prev, [])
diff_names (a ∷ prev) (b ∷ next) = elim (bytes_eq a b) [
  | true ↦ diff_names prev next
  | false ↦ elim (name_lt a b) [
    | true ↦ let rest = diff_names prev (b ∷ next) in (a ∷ rest.0, rest.1)
    | false ↦ let rest = diff_names (a ∷ prev) next in (rest.0, b ∷ rest.1)
  ]
]
