-- ===== src/Geofence/Geometry/Box.antt =====
-- `boundingBox` of internal/geofence/geometry.go.
use mathlib.Core.List.{foldl}
use cdp_go.Base.{All, List, [], arith, false, ◌∷◌, ◌≡◌}
use cdp_go.Base.Int.{ltb_ℤ, ℤ}
use cdp_go.Geofence.Geometry.{BoundingBox, Point, bounding_box, widen}

-- A point that the bounding box does not leave out.
pub record IsBounded (bb : BoundingBox) (v : Point) : Type 0 where
  pub left : ltb_ℤ v.x bb.min_x ≡ false
  pub below : ltb_ℤ v.y bb.min_y ≡ false
  pub right : ltb_ℤ bb.max_x v.x ≡ false
  pub above : ltb_ℤ bb.max_y v.y ≡ false

widen_self : (bb : BoundingBox) (v : Point) → IsBounded (widen bb v) v
unfolding widen
widen_self bb v = record {
  left = ground arith;
  below = ground arith;
  right = ground arith;
  above = ground arith;
}

widen_other : (bb : BoundingBox) (v w : Point) → IsBounded bb w → IsBounded (widen bb v) w
unfolding widen
widen_other bb v w h = record {
  left = ground (arith, h.left);
  below = ground (arith, h.below);
  right = ground (arith, h.right);
  above = ground (arith, h.above);
}

foldl_other :
    (bb : BoundingBox) (vertices : List Point) (w : Point)
    → IsBounded bb w
    → IsBounded (foldl widen bb vertices) w
foldl_other bb [] w h = h
foldl_other bb (v ∷ vertices) w h = foldl_other (widen bb v) vertices w (widen_other bb v w h)

foldl-All :
    (bb : BoundingBox) (vertices : List Point) → All (IsBounded (foldl widen bb vertices)) vertices
foldl-All bb [] = tt
foldl-All bb (v ∷ vertices) =
    (foldl_other (widen bb v) vertices v (widen_self bb v), foldl-All (widen bb v) vertices)

ltb_ℤ_irrefl : (a : ℤ) → ltb_ℤ a a ≡ false
ltb_ℤ_irrefl a = ground arith

-- The bounding box leaves none of the vertices out.
pub bounding_box-IsBounded :
    (v : Point) (vertices : List Point) → All (IsBounded (bounding_box v vertices)) (v ∷ vertices)
unfolding bounding_box
bounding_box-IsBounded v vertices = (
  foldl_other _ vertices v (record {
    left = ltb_ℤ_irrefl v.x;
    below = ltb_ℤ_irrefl v.y;
    right = ltb_ℤ_irrefl v.x;
    above = ltb_ℤ_irrefl v.y;
  }),
  foldl-All _ vertices,
)

-- The bounding box is that of the vertices.
abbrev pub IsBoxed : BoundingBox → List Point → Type 0
IsBoxed bb [] = ⊥
IsBoxed bb (v ∷ vertices) = bb ≡ bounding_box v vertices
