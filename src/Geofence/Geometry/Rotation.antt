-- ===== src/Geofence/Geometry/Rotation.antt =====
-- `PointInPolygon` of internal/geofence/geometry.go and the vertex at which the list starts.
use cdp_go.Base.{
  Bool, Bool-cases, List, [], false, if◌then◌else◌, inl, inr, length, length-append, not, refl,
  ◌++◌, ◌∷◌, ◌≡◌,
}
use cdp_go.Geofence.Geometry.{Point, crosses, crossing_loop, last_vertex, point_in_polygon}
use native.Mathlib.Numerals.{add-one}

module _ (p : Point) where
  crossing_loop-not :
      (j : Point) (vertices : List Point) (inside : Bool)
      → crossing_loop p j vertices (not inside) ≡ not (crossing_loop p j vertices inside)
  unfolding crossing_loop
  crossing_loop-not j [] inside = refl
  crossing_loop-not j (i ∷ vertices) inside = elim (Bool-cases (crosses p i j)) [
    | inl across ↦ rw across (crossing_loop-not i vertices (not inside))
    | inr beside ↦ rw beside (crossing_loop-not i vertices inside)
  ]

  -- The edge to one more vertex flips the answer or does not.
  crossing_loop-append :
      (j v : Point) (vertices : List Point) (inside : Bool)
      → crossing_loop p j (vertices ++ (v ∷ [])) inside ≡ (
          if crosses p v (last_vertex j vertices)
          then not (crossing_loop p j vertices inside)
          else crossing_loop p j vertices inside)
  unfolding crossing_loop
  crossing_loop-append j v [] inside = refl
  crossing_loop-append j v (i ∷ vertices) inside = crossing_loop-append i v vertices _

  last_vertex-append :
      (w v : Point) (vertices : List Point) → last_vertex w (vertices ++ (v ∷ [])) ≡ v
  last_vertex-append w v [] = refl
  last_vertex-append w v (u ∷ vertices) = last_vertex-append u v vertices

  loop_rotates :
      (v : Point) (vertices : List Point)
      → crossing_loop p (last_vertex v vertices) (v ∷ vertices) false
        ≡ crossing_loop p v (vertices ++ (v ∷ [])) false
  loop_rotates v vertices =
      rw (crossing_loop-append v v vertices false)
        (elim (Bool-cases (crosses p v (last_vertex v vertices))) [
          | inl across ↦ unfold crossing_loop in rw across (crossing_loop-not v vertices false)
          | inr beside ↦ unfold crossing_loop in rw beside refl
        ])

  -- The answer is the same for the list of vertices that starts at the second one and ends with
  -- the first.
  pub point_in_polygon-append :
      (v : Point) (vertices : List Point)
      → point_in_polygon p (vertices ++ (v ∷ [])) ≡ point_in_polygon p (v ∷ vertices)
  unfolding point_in_polygon
  point_in_polygon-append v [] = refl
  point_in_polygon-append v (w ∷ vertices) =
      rw
        (
          last_vertex-append w v vertices,
          length-append vertices (v ∷ []),
          loop_rotates v (w ∷ vertices),
          add-one (length vertices),
        )
        refl
