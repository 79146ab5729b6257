-- ===== src/Geofence/Engine/Hits.antt =====
-- Which names `contains` of internal/geofence/engine.go answers, and in which order.
use cdp_go.Base.{
  Bool-cases, Bytes, List, [], ap, arith, bytes_eq, bytes_eq_iff, inl, inr, refl, sym, true, ◌||◌,
  ◌↔◌, ◌∙◌, ◌∷◌, ◌≡◌, ◌⊎◌,
}
use cdp_go.Geofence.Engine.{Engine, contains}
use cdp_go.Geofence.Engine.Invariant.{contains-IsSorted, contains-zone_names, names_of, zone_names}
use cdp_go.Geofence.Geometry.{Point, Zone, zone_contains}
use cdp_go.Geofence.Names.{AreDistinct, IsSorted, sort_names}
use cdp_go.Geofence.ZoneSet.{elems}
use cdp_go.Geofence.ZoneSet.Members.{has, has-insert_name}

has-sort_names : (a : Bytes) (xs : List Bytes) → has a (sort_names xs) ≡ has a xs
unfolding sort_names has
has-sort_names a [] = refl
has-sort_names a (x ∷ xs) =
    has-insert_name a x (sort_names xs) ∙ ap (λ b. bytes_eq a x || b) (has-sort_names a xs)

-- One of the zones has that name and contains the point.
abbrev pub IsHit : Bytes → Point → List Zone → Type 0
IsHit name p [] = ⊥
IsHit name p (z ∷ zones) = ((z.name ≡ name) × (zone_contains z p ≡ true)) ⊎ IsHit name p zones

has-zone_names :
    (name : Bytes) (p : Point) (zones : List Zone)
    → (has name (zone_names zones p) ≡ true) ↔ IsHit name p zones
unfolding zone_names has
has-zone_names name p [] = (λ e. absurd (ground (arith, e)), λ h. absurd h)
has-zone_names name p (z ∷ zones) =
    let (there, back) = has-zone_names name p zones in
    let same = bytes_eq_iff name z.name in
    elim (Bool-cases (zone_contains z p)) [
      | inl inside ↦ rw inside (
        λ e. elim (Bool-cases (bytes_eq name z.name)) [
          | inl here ↦ inl (sym (same.0 here), refl)
          | inr other ↦ inr (there (rw other at e))
        ],
        λ h. elim h [
          | inl here ↦ rw (same.1 (sym here.0)) refl
          | inr more ↦ ground (arith, back more)
        ],
      )
      | inr outside ↦ (
        λ e. inr (there (rw outside at e)),
        λ h. elim h [
          | inl here ↦ absurd (ground (arith, here.1, outside))
          | inr more ↦ rw outside (back more)
        ],
      )
    ]

-- For zones whose names differ, `contains` answers names in ascending order, none of them twice, and
-- a name is among them if one of the zones has it and contains the point, and only then.
pub contains-IsHit :
    (e : Engine) (p : Point)
    → AreDistinct (names_of e.zones)
    → IsSorted (elems (contains e p))
      × ((name : Bytes) → (has name (elems (contains e p)) ≡ true) ↔ IsHit name p e.zones)
contains-IsHit e p h = (
  contains-IsSorted e p h,
  λ name.
      rw (contains-zone_names e p, has-sort_names name (zone_names e.zones p))
        (has-zone_names name p e.zones),
)
