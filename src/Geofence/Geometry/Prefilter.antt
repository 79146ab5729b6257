-- ===== src/Geofence/Geometry/Prefilter.antt =====
-- `Zone.Contains` of internal/geofence/geometry.go: the test of the bounding box before the ray-cast.
use mathlib.Core.Path.{subst}
use cdp_go.Base.{
  All, Bool, List, [], arith, false, if◌then◌else◌, not, refl, sym, true, ◌∙◌, ◌∷◌, ◌≡◌,
}
use cdp_go.Base.Int.{ltb_ℤ}
use cdp_go.Geofence.Geometry.{
  BoundingBox, Point, Zone, crosses, crossing_loop, last_vertex, point_in_polygon, zone_contains,
}
use cdp_go.Geofence.Geometry.Box.{IsBounded, IsBoxed, bounding_box-IsBounded}
use cdp_go.Geofence.Geometry.Edges.{crosses_left, crosses_right, straddles}
use cdp_go.Geofence.Geometry.Exact.{IsSmallPoint}

All-map :
    (P Q R : Point → Type 0)
    → ((v : Point) → P v → Q v → R v)
    → (vertices : List Point) → All P vertices
    → All Q vertices
    → All R vertices
All-map P Q R f [] h k = tt
All-map P Q R f (v ∷ vertices) h k = (f v h.0 k.0, All-map P Q R f vertices h.1 k.1)

last-All :
    (P : Point → Type 0) (v : Point) (vertices : List Point)
    → All P (v ∷ vertices)
    → P (last_vertex v vertices)
last-All P v [] h = h.0
last-All P v (w ∷ vertices) h = last-All P w vertices h.1

module _ (p : Point) where
  abbrev IsLevel : Bool → Point → Type 0
  IsLevel b v = ltb_ℤ p.y v.y ≡ b

  -- All vertices are above the point, or none is.
  loop_level :
      (b : Bool) (j : Point) (vertices : List Point) (inside : Bool)
      → IsLevel b j
      → All (IsLevel b) vertices
      → crossing_loop p j vertices inside ≡ inside
  unfolding crossing_loop crosses
  loop_level b j [] inside h k = refl
  loop_level true j (i ∷ vertices) inside h k =
      rw (h, k.0) (loop_level true i vertices inside k.0 k.1)
  loop_level false j (i ∷ vertices) inside h k =
      rw (h, k.0) (loop_level false i vertices inside k.0 k.1)

  abbrev IsLeft : Point → Type 0
  IsLeft v = IsSmallPoint v × (ltb_ℤ v.x p.x ≡ true)

  abbrev IsRight : Point → Type 0
  IsRight v = IsSmallPoint v × (ltb_ℤ p.x v.x ≡ true)

  loop_right :
      IsSmallPoint p
      → (j : Point) (vertices : List Point) (inside : Bool) → IsLeft j
      → All IsLeft vertices
      → crossing_loop p j vertices inside ≡ inside
  unfolding crossing_loop
  loop_right s j [] inside h k = refl
  loop_right s j (i ∷ vertices) inside h k =
      rw (crosses_right p i j s k.0.0 h.0 k.0.1 h.1) (loop_right s i vertices inside k.0 k.1)

  -- What the loop does when it counts each edge that passes the point's height.
  parity : Point → Point → Bool → Bool
  parity j i inside = if straddles p i j then not inside else inside

  parity_trans :
      (j i w : Point) (inside : Bool) → parity i w (parity j i inside) ≡ parity j w inside
  unfolding parity
  parity_trans j i w inside = ground arith

  loop_left :
      IsSmallPoint p
      → (j : Point) (vertices : List Point) (inside : Bool) → IsRight j
      → All IsRight vertices
      → crossing_loop p j vertices inside ≡ parity j (last_vertex j vertices) inside
  unfolding crossing_loop parity
  loop_left s j [] inside h k = ground arith
  loop_left s j (i ∷ vertices) inside h k =
      rw (crosses_left p i j s k.0.0 h.0 k.0.1 h.1)
        (loop_left s i vertices _ k.0 k.1 ∙ parity_trans j i (last_vertex i vertices) inside)

  parity_self : (j : Point) (inside : Bool) → parity j j inside ≡ inside
  unfolding parity
  parity_self j inside = ground arith

  -- Four ways for the point to be out of the box.
  polygon_level :
      (b : Bool) (v : Point) (vertices : List Point)
      → All (IsLevel b) (v ∷ vertices)
      → point_in_polygon p (v ∷ vertices) ≡ false
  unfolding point_in_polygon
  polygon_level b v vertices h = ground (
    arith,
    loop_level b (last_vertex v vertices) (v ∷ vertices) false (last-All (IsLevel b) v vertices h)
        h,
  )

  polygon_right :
      IsSmallPoint p
      → (v : Point) (vertices : List Point) → All IsLeft (v ∷ vertices)
      → point_in_polygon p (v ∷ vertices) ≡ false
  unfolding point_in_polygon
  polygon_right s v vertices h = ground (
    arith,
    loop_right s (last_vertex v vertices) (v ∷ vertices) false (last-All IsLeft v vertices h) h,
  )

  polygon_left :
      IsSmallPoint p
      → (v : Point) (vertices : List Point) → All IsRight (v ∷ vertices)
      → point_in_polygon p (v ∷ vertices) ≡ false
  unfolding point_in_polygon
  polygon_left s v vertices h =
      let j = last_vertex v vertices in
      ground (
        arith,
        loop_left s j (v ∷ vertices) false (last-All IsRight v vertices h) h ∙ parity_self j false,
      )

-- A point that the box leaves out is not in the polygon.
module _ (bb : BoundingBox) (p v : Point) (vertices : List Point)
    (h : All (IsBounded bb) (v ∷ vertices)) (s : IsSmallPoint p)
    (k : All IsSmallPoint (v ∷ vertices)) where
  out_left : ltb_ℤ p.x bb.min_x ≡ true → point_in_polygon p (v ∷ vertices) ≡ false
  out_left e = polygon_left p s v vertices (
      All-map (IsBounded bb) IsSmallPoint (IsRight p) (λ w b t. (t, ground (arith, b.left)))
        (v ∷ vertices) h k)

  out_right : ltb_ℤ bb.max_x p.x ≡ true → point_in_polygon p (v ∷ vertices) ≡ false
  out_right e = polygon_right p s v vertices (
      All-map (IsBounded bb) IsSmallPoint (IsLeft p) (λ w b t. (t, ground (arith, b.right)))
        (v ∷ vertices) h k)

  out_below : ltb_ℤ p.y bb.min_y ≡ true → point_in_polygon p (v ∷ vertices) ≡ false
  out_below e = polygon_level p true v vertices (
      All-map (IsBounded bb) IsSmallPoint (IsLevel p true) (λ w b t. ground (arith, b.below))
        (v ∷ vertices) h k)

  out_above : ltb_ℤ bb.max_y p.y ≡ true → point_in_polygon p (v ∷ vertices) ≡ false
  out_above e = polygon_level p false v vertices (
      All-map (IsBounded bb) IsSmallPoint (IsLevel p false) (λ w b t. ground (arith, b.above))
        (v ∷ vertices) h k)

contains_boxed :
    (z : Zone) (p v : Point) (vertices : List Point)
    → z.vertices ≡ v ∷ vertices
    → All (IsBounded z.bbox) (v ∷ vertices)
    → IsSmallPoint p
    → All IsSmallPoint (v ∷ vertices)
    → zone_contains z p ≡ point_in_polygon p z.vertices
unfolding zone_contains
contains_boxed z p v vertices e h s k = rw e (
    ground (
      arith,
      out_left z.bbox p v vertices h s k,
      out_right z.bbox p v vertices h s k,
      out_below z.bbox p v vertices h s k,
      out_above z.bbox p v vertices h s k,
    ))

-- The bounding box of a zone changes no answer: for a zone with the box of its vertices and a point,
-- all coordinates below 2 ^ 30 in size, `Contains` answers as `PointInPolygon`.
pub zone_contains-point_in_polygon :
    (z : Zone) (p : Point)
    → IsBoxed z.bbox z.vertices
    → IsSmallPoint p
    → All IsSmallPoint z.vertices
    → zone_contains z p ≡ point_in_polygon p z.vertices
zone_contains-point_in_polygon z p h s k = go z.vertices refl h k
  where
    go :
        (vertices : List Point)
        → z.vertices ≡ vertices
        → IsBoxed z.bbox vertices
        → All IsSmallPoint vertices
        → zone_contains z p ≡ point_in_polygon p z.vertices
    go [] e b t = absurd b
    go (v ∷ vertices) e b t =
        contains_boxed z p v vertices e
          (subst (λ bb. All (IsBounded bb) (v ∷ vertices)) (sym b)
            (bounding_box-IsBounded v vertices))
          s t
