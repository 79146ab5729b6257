-- ===== src/Tests/Zones.antt =====
-- A tag, 00:00:0009, that moves between two zones of internal/geofence and out of both.
use Prim.Native.String.{String}
use cdp_go.Base.{
  Bytes, List, [], arith, codes, false, if◌then◌else◌, refl, some, suc, true, ℕ, ◌+◌, ◌<◌, ◌==◌,
  ◌↔◌, ◌∷◌, ◌≡◌, ◌≢◌, ◌≤◌,
}
use cdp_go.Base.Assoc.{insert, lookup}
use cdp_go.Base.Int.{pos, signed, wrap, ℤ, ◌*ℤ◌, ◌-ℤ◌}
use cdp_go.Cdp.Items.Position.{PositionV3}
use cdp_go.Geofence.Engine.{
  Engine, TagState, clean_up, commit_proposal, contains, count_proposal, emit, hits_loop,
  new_engine, on_position, prune_stale, sort_set, tag_of,
}
use cdp_go.Geofence.Engine.Commits.{IsFresh, commits_at_hysteresis, propose_times}
use cdp_go.Geofence.Engine.Counting.{Repeats, commits_after_run, observe, replay}
use cdp_go.Geofence.Engine.Events.{apply_events, apply_events-emit}
use cdp_go.Geofence.Engine.Hits.{IsHit, contains-IsHit}
use cdp_go.Geofence.Engine.Invariant.{IsEngine, names_of, new_engine-IsEngine, zone_names}
use cdp_go.Geofence.Engine.Outside.{on_position_outside}
use cdp_go.Geofence.Engine.Steps.{on_position-IsEngine, on_position-apply_events}
use cdp_go.Geofence.Engine.Tags.{
  after_position, keep_fresh, lookup-on_position, prune_stale_keeps_fresh, sweeps,
}
use cdp_go.Geofence.Geometry.{
  Point, Rgb, Zone, crosses, crossing_loop, mul64, point_in_polygon, sub64, zone_contains,
}
use cdp_go.Geofence.Geometry.Rotation.{point_in_polygon-append}
use cdp_go.Geofence.Names.{AreDistinct, IsSorted, insert_name, name_lt, sort_names}
use cdp_go.Geofence.ZoneSet.{ZoneSet, diff_names, elems, equal, names, nil, same_names}
use cdp_go.Geofence.ZoneSet.Diff.{diff_names-minus}
use cdp_go.Geofence.ZoneSet.Members.{has, minus}

abbrev at : ℤ → ℤ → Point
at x y = record { x = x; y = y }

abbrev green : Rgb
green = record { r = 0; g = 255; b = 0 }

abbrev square : String → ℕ → ℕ → Zone
square name lo hi = record {
  name = codes name;
  slug = codes name;
  vertices =
      at (pos lo) (pos lo)
      ∷ at (pos hi) (pos lo)
      ∷ at (pos hi) (pos hi)
      ∷ at (pos lo) (pos hi)
      ∷ [];
  color = green;
  bbox = record { min_x = pos lo; min_y = pos lo; max_x = pos hi; max_y = pos hi };
}

abbrev zones : List Zone
zones = square "hall" 0 100 ∷ square "dock" 50 200 ∷ []

abbrev position_at : ℕ → PositionV3
position_at n = record {
  serial_number = 9;
  network_time = n;
  x = pos n;
  y = pos n;
  z = pos 0;
  quality = 0;
  anchor_count = 0;
  flags = 0;
  smoothing = 0;
}

-- A hysteresis of 2.
abbrev pub new_fence : Engine
new_fence = new_engine zones (pos 2) (pos 60)

zones_at :
    (elems (contains new_fence (at (pos 20) (pos 20))) ≡ codes "hall" ∷ [])
    × (elems (contains new_fence (at (pos 70) (pos 70))) ≡ codes "dock" ∷ codes "hall" ∷ [])
    × (contains new_fence (at (pos 500) (pos 70)) ≡ nil)
unfolding new_engine contains hits_loop sort_set sort_names insert_name name_lt zone_contains
    point_in_polygon crossing_loop crosses sub64 mul64 wrap ◌*ℤ◌ ◌-ℤ◌ signed
zones_at = (refl, refl, refl)

names_distinct : AreDistinct (names_of zones)
names_distinct = ground arith

contains-IsHit_example :
    IsSorted (elems (contains new_fence (at (pos 70) (pos 70))))
    × ((name : Bytes)
        → (has name (elems (contains new_fence (at (pos 70) (pos 70)))) ≡ true)
          ↔ IsHit name (at (pos 70) (pos 70)) zones)
unfolding new_engine
contains-IsHit_example = contains-IsHit new_fence (at (pos 70) (pos 70)) names_distinct

new_engine-IsEngine_example : IsEngine new_fence
new_engine-IsEngine_example = new_engine-IsEngine zones (pos 2) (pos 60) names_distinct

-- Two positions in both zones.
abbrev once : Engine
once = (on_position 1 9 (position_at 70) new_fence).0

abbrev twice : Engine
twice = (on_position 2 9 (position_at 70) once).0

pub fence-IsEngine : IsEngine new_fence
fence-IsEngine = new_engine-IsEngine zones (pos 2) (pos 60) names_distinct

once-IsEngine : IsEngine once
once-IsEngine = on_position-IsEngine 1 9 (position_at 70) new_fence fence-IsEngine

twice-IsEngine : IsEngine twice
twice-IsEngine = on_position-IsEngine 2 9 (position_at 70) once once-IsEngine

on_position-IsEngine_example : IsEngine twice
on_position-IsEngine_example = on_position-IsEngine 2 9 (position_at 70) once once-IsEngine

on_position-apply_events_example :
    let (after, events, done) = on_position 2 9 (position_at 70) once in
    (apply_events (elems (tag_of once 9).committed) events ≡ elems (tag_of after 9).committed)
    × ((done ≡ true) ↔ (events ≢ []))
on_position-apply_events_example = on_position-apply_events 2 9 (position_at 70) once once-IsEngine

lookup-on_position_example : lookup 9 (on_position 2 9 (position_at 70) once).0.tags ≡ (
    if 9 == 9
    then some (after_position 2 9 (position_at 70) once).0
    else if sweeps once
    then keep_fresh once.tag_ttl 2 (lookup 9 once.tags)
    else lookup 9 once.tags)
lookup-on_position_example = lookup-on_position 2 9 9 (position_at 70) once once-IsEngine.is_map

on_position_outside_example :
    let (after, events, done) = on_position 3 9 (position_at 500) twice in
    (events ≡ []) × (done ≡ false) × ((tag_of after 9).committed ≡ (tag_of twice 9).committed)
unfolding new_engine on_position clean_up zone_names zone_contains
on_position_outside_example =
    on_position_outside 3 9 (position_at 500) twice twice-IsEngine (omega arith) refl

-- The tag is in both zones and stays so, whatever is said of it outside.
stuck :
    ((tag_of twice 9).committed ≡ names (codes "dock" ∷ codes "hall" ∷ []))
    × ((on_position 2 9 (position_at 70) once).2 ≡ true)
unfolding new_engine contains hits_loop sort_set sort_names insert_name name_lt zone_contains
    point_in_polygon crossing_loop crosses sub64 mul64 wrap ◌*ℤ◌ ◌-ℤ◌ signed on_position clean_up
    tag_of lookup insert count_proposal commit_proposal equal same_names
stuck = (refl, refl)

abbrev hall : ZoneSet
hall = names (codes "hall" ∷ [])

abbrev dock : ZoneSet
dock = names (codes "dock" ∷ [])

commits_after_run_example :
    Repeats 2 hall (hall ∷ hall ∷ [])
    × (elems hall ≢ elems (replay 2 (hall ∷ [])).committed)
    × ((observe 2 hall (replay 2 (hall ∷ []))).0.committed ≡ hall)
unfolding observe replay count_proposal commit_proposal equal same_names
commits_after_run_example = commits_after_run 2 hall (hall ∷ []) (omega arith) refl

abbrev in_hall : TagState
in_hall = record { committed = hall; pending = nil; pending_count = 0; last_seen = 5 }

abbrev in_dock : TagState
in_dock = record { committed = dock; pending = nil; pending_count = 0; last_seen = 5 }

dock-IsFresh : IsFresh dock in_hall
dock-IsFresh = record { not_committed = ground arith; not_pending = ground arith }

commits_at_hysteresis_example :
    (observe 3 dock (propose_times 2 3 dock in_hall) ≡ (in_dock, true))
    × ((n : ℕ) → suc n < 3 → (observe 3 dock (propose_times n 3 dock in_hall)).1 ≡ false)
commits_at_hysteresis_example =
    commits_at_hysteresis 3 (codes "dock") [] in_hall dock-IsFresh (omega arith)

diff_names-minus_example :
    diff_names (codes "dock" ∷ codes "hall" ∷ []) (codes "hall" ∷ codes "yard" ∷ [])
    ≡ (codes "dock" ∷ [], codes "yard" ∷ [])
unfolding minus has name_lt
diff_names-minus_example =
    diff_names-minus (codes "dock" ∷ codes "hall" ∷ []) (codes "hall" ∷ codes "yard" ∷ [])
      ((refl, tt), (tt, tt)) ((refl, tt), (tt, tt))

apply_events-emit_example :
    apply_events (codes "hall" ∷ []) (emit new_fence 9 (position_at 70) hall dock)
    ≡ codes "dock" ∷ []
apply_events-emit_example =
    apply_events-emit new_fence 9 (position_at 70) dock hall (ground arith) (ground arith)

abbrev fleet : List (ℕ × TagState)
fleet = (9, in_hall) ∷ (8, in_dock) ∷ []

prune_stale_keeps_fresh_example :
    (lookup 9 (prune_stale (pos 60) 61 fleet) ≡ some in_hall)
    ↔ ((lookup 9 fleet ≡ some in_hall) × (61 ≤ in_hall.last_seen + 60))
prune_stale_keeps_fresh_example =
    prune_stale_keeps_fresh 60 61 9 fleet in_hall (ground arith) (omega arith)

point_in_polygon-append_example :
    point_in_polygon
      (at (pos 3) (pos 2))
      (at (pos 9) (pos 0) ∷ at (pos 4) (pos 8) ∷ at (pos 0) (pos 0) ∷ [])
    ≡ point_in_polygon
        (at (pos 3) (pos 2))
        (at (pos 0) (pos 0) ∷ at (pos 9) (pos 0) ∷ at (pos 4) (pos 8) ∷ [])
point_in_polygon-append_example =
    point_in_polygon-append (at (pos 3) (pos 2)) (at (pos 0) (pos 0))
      (at (pos 9) (pos 0) ∷ at (pos 4) (pos 8) ∷ [])
