-- ===== src/Tests/Fences.antt =====
-- Zones built from a configuration, and slugs, of internal/geofence.
use Prim.Native.String.{String}
use cdp_go.Base.{All, List, [], arith, codes, false, refl, ◌∷◌, ◌≡◌}
use cdp_go.Base.Int.{negsuc, pos, ℤ}
use cdp_go.Cdp.Result.{err, ok}
use cdp_go.Geofence.Config.{
  GeofenceConfig, ZoneConfig, add_zone, build, build_loop, duplicate_slug, new_zone, or_bad_zone,
  points, seen_name, slugify_zone_name, zone_of,
}
use cdp_go.Geofence.Config.Built.{build-IsEngine}
use cdp_go.Geofence.Config.Outcome.{BuildOutcome, build-BuildOutcome}
use cdp_go.Geofence.Config.Slug.{IsSlug, slugify_zone_name-IsSlug}
use cdp_go.Geofence.Config.Slug.Ascii.{IsSlugOf, slugify_zone_name-IsSlugOf}
use cdp_go.Geofence.Engine.{new_engine}
use cdp_go.Geofence.Engine.Invariant.{IsEngine}
use cdp_go.Geofence.Geometry.{Point, Zone, bounding_box, point_in_polygon, widen, zone_contains}
use cdp_go.Geofence.Geometry.Exact.{IsSmallPoint}
use cdp_go.Geofence.Geometry.Prefilter.{zone_contains-point_in_polygon}
use cdp_go.Strings.{Unicode, is_blank, to_lower, trim, trim_left, trim_right}

-- Strings outside ASCII stay as they are.
abbrev pub ascii_only : Unicode
ascii_only = record { lower = λ s. s; all_space = λ s. false }

abbrev corners : List (ℤ × ℤ)
corners = (pos 0, pos 0) ∷ (pos 100, pos 0) ∷ (pos 100, pos 100) ∷ (pos 0, pos 100) ∷ []

abbrev zone_entry : String → ZoneConfig
zone_entry name = record { name = codes name; vertices = corners; rgb = (0, 255, 0) }

abbrev pub fence_of : List ZoneConfig → GeofenceConfig
fence_of zones = record {
  hysteresis = pos 2;
  prefix = codes "geofence";
  tag_ttl = pos 0;
  zones = zones;
}

-- Two zones, and two whose names have one slug.
abbrev pub two_zones : GeofenceConfig
two_zones = fence_of (zone_entry "Main Hall" ∷ zone_entry "Dock 2" ∷ [])

abbrev same_slugs : GeofenceConfig
same_slugs = fence_of (zone_entry "Main Hall" ∷ zone_entry "main.hall" ∷ [])

slug_run : slugify_zone_name ascii_only (codes " Main.Hall*") ≡ codes "main_hall"
unfolding slugify_zone_name to_lower trim trim_left trim_right
slug_run = refl

duplicate_run :
    build ascii_only same_slugs
    ≡ err (duplicate_slug 1 (codes "main.hall") (codes "main_hall") (codes "Main Hall"))
unfolding build build_loop or_bad_zone new_zone zone_of seen_name add_zone slugify_zone_name
    to_lower is_blank trim trim_left trim_right
duplicate_run = refl

abbrev built_zone : String → String → Zone
built_zone name slug = record {
  name = codes name;
  slug = codes slug;
  vertices = points corners;
  color = record { r = 0; g = 255; b = 0 };
  bbox = record { min_x = pos 0; min_y = pos 0; max_x = pos 100; max_y = pos 100 };
}

abbrev pub built_zones : List Zone
built_zones = built_zone "Main Hall" "main_hall" ∷ built_zone "Dock 2" "dock_2" ∷ []

pub two_zones_built : build ascii_only two_zones ≡ ok built_zones
unfolding build build_loop or_bad_zone new_zone zone_of seen_name add_zone slugify_zone_name
    to_lower is_blank trim trim_left trim_right bounding_box widen
two_zones_built = refl

build-BuildOutcome_example : BuildOutcome ascii_only same_slugs (build ascii_only same_slugs)
build-BuildOutcome_example = build-BuildOutcome ascii_only same_slugs

build-IsEngine_example : IsEngine (new_engine built_zones (pos 2) (pos 0))
build-IsEngine_example = build-IsEngine ascii_only two_zones two_zones_built

slugify_zone_name-IsSlug_example : IsSlug (slugify_zone_name ascii_only (codes " Main.Hall*"))
slugify_zone_name-IsSlug_example = slugify_zone_name-IsSlug ascii_only (codes " Main.Hall*")

slugify_zone_name-IsSlugOf_example :
    IsSlugOf (codes " Main.Hall*") (slugify_zone_name ascii_only (codes " Main.Hall*"))
slugify_zone_name-IsSlugOf_example =
    slugify_zone_name-IsSlugOf ascii_only (codes " Main.Hall*") refl

-- A vertical tab of a name stays in its slug.
slug_with_tab : slugify_zone_name ascii_only (b'A' ∷ 11 ∷ b'b' ∷ []) ≡ b'a' ∷ 11 ∷ b'b' ∷ []
unfolding slugify_zone_name to_lower trim trim_left trim_right
slug_with_tab = refl

abbrev outside : Point
outside = record { x = negsuc 4; y = pos 50 }

corners_small : All IsSmallPoint (points corners)
corners_small = (
  record { x = omega arith; y = omega arith },
  (
    record { x = omega arith; y = omega arith },
    (
      record { x = omega arith; y = omega arith },
      (record { x = omega arith; y = omega arith }, tt),
    ),
  ),
)

zone_contains-point_in_polygon_example :
    zone_contains (built_zone "Dock 2" "dock_2") outside ≡ point_in_polygon outside (points corners)
zone_contains-point_in_polygon_example =
    zone_contains-point_in_polygon (built_zone "Dock 2" "dock_2") outside
      (unfold bounding_box widen in refl) (record { x = omega arith; y = omega arith })
      corners_small
