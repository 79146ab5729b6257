-- ===== src/Geofence/Geometry.antt =====
-- internal/geofence/geometry.go, but for `NewZone` and `slugifyZoneName`.
pub mod Rotation
pub mod Exact
pub mod Edges
pub mod Box
pub mod Prefilter
use mathlib.Core.List.{foldl}
use cdp_go.Base.{
  Bool, Bytes, List, [], false, if◌then◌else◌, length, ltb, not, true, ℕ, ◌&&◌, ◌^◌, ◌||◌, ◌∷◌,
}
use cdp_go.Base.Int.{ltb_ℤ, wrap, ℤ, ◌*ℤ◌, ◌-ℤ◌}

-- A point in int32 millimeters.
pub record Point : Type 0 where
  pub x : ℤ
  pub y : ℤ

pub record Rgb : Type 0 where
  pub r : ℕ
  pub g : ℕ
  pub b : ℕ

pub record BoundingBox : Type 0 where
  pub min_x : ℤ
  pub min_y : ℤ
  pub max_x : ℤ
  pub max_y : ℤ

pub record Zone : Type 0 where
  pub name : Bytes
  pub slug : Bytes
  pub vertices : List Point
  pub color : Rgb
  pub bbox : BoundingBox

-- The int64 operations.
unfoldable pub sub64 : ℤ → ℤ → ℤ
sub64 a b = wrap (2 ^ 64) (a -ℤ b)

unfoldable pub mul64 : ℤ → ℤ → ℤ
mul64 a b = wrap (2 ^ 64) (a *ℤ b)

-- `==` and `!=` on bools.
abbrev pub bool_eq : Bool → Bool → Bool
bool_eq true b = b
bool_eq false b = not b

-- The condition of the loop, for the vertices `i` and `j`.
unfoldable pub crosses : Point → Point → Point → Bool
crosses p i j =
    not (bool_eq (ltb_ℤ p.y i.y) (ltb_ℤ p.y j.y))
    && bool_eq
        (ltb_ℤ (mul64 (sub64 p.x i.x) (sub64 j.y i.y)) (mul64 (sub64 j.x i.x) (sub64 p.y i.y)))
        (ltb_ℤ i.y j.y)

-- The loop over the vertices, with the one before in `j`.
unfoldable pub crossing_loop : Point → Point → List Point → Bool → Bool
crossing_loop p j [] inside = inside
crossing_loop p j (i ∷ vertices) inside =
    crossing_loop p i vertices (if crosses p i j then not inside else inside)

abbrev pub last_vertex : Point → List Point → Point
last_vertex v [] = v
last_vertex v (w ∷ vertices) = last_vertex w vertices

-- `PointInPolygon`.
unfoldable pub point_in_polygon : Point → List Point → Bool
point_in_polygon p [] = false
point_in_polygon p (v ∷ vertices) =
    if ltb (length (v ∷ vertices)) 3
    then false
    else crossing_loop p (last_vertex v vertices) (v ∷ vertices) false

-- The body of the loop in `boundingBox`.
unfoldable pub widen : BoundingBox → Point → BoundingBox
widen bb v = record {
  min_x = if ltb_ℤ v.x bb.min_x then v.x else bb.min_x;
  min_y = if ltb_ℤ v.y bb.min_y then v.y else bb.min_y;
  max_x = if ltb_ℤ bb.max_x v.x then v.x else bb.max_x;
  max_y = if ltb_ℤ bb.max_y v.y then v.y else bb.max_y;
}

-- `boundingBox`, of the vertices `v ∷ vertices`: without a first vertex it panics.
unfoldable pub bounding_box : Point → List Point → BoundingBox
bounding_box v vertices =
    foldl widen (record { min_x = v.x; min_y = v.y; max_x = v.x; max_y = v.y }) vertices

-- `Zone.Contains`.
unfoldable pub zone_contains : Zone → Point → Bool
zone_contains z p =
    if ltb_ℤ p.x z.bbox.min_x
      || ltb_ℤ z.bbox.max_x p.x
      || ltb_ℤ p.y z.bbox.min_y
      || ltb_ℤ z.bbox.max_y p.y
    then false
    else point_in_polygon p z.vertices
