-- ===== src/Geofence/Config/Built.antt =====
-- The zones that `Build` returns, and the engine over them.
use mathlib.Core.Path.{subst}
use cdp_go.Base.{
  All, Bytes, List, [], ap, arith, bytes_eq_iff, length, sym, ◌∙◌, ◌∷◌, ◌≡◌, ◌≢◌, ◌≤◌,
}
use cdp_go.Cdp.Result.{ok}
use cdp_go.Geofence.Config.{
  GeofenceConfig, ZoneConfig, build, new_zone, points, rgb_of, slugify_zone_name, zone_of,
}
use cdp_go.Geofence.Config.Outcome.{AreBuilt, BuildOutcome, build-BuildOutcome, slugs_of}
use cdp_go.Geofence.Engine.{new_engine}
use cdp_go.Geofence.Engine.Invariant.{IsEngine, names_of, new_engine-IsEngine}
use cdp_go.Geofence.Geometry.{Point, Rgb, Zone}
use cdp_go.Geofence.Geometry.Box.{IsBoxed}
use cdp_go.Geofence.Names.{AreDistinct, IsNew}
use cdp_go.Strings.{Unicode}

-- A zone as `NewZone` makes it.
pub record IsZone (u : Unicode) (z : Zone) : Type 0 where
  pub slug : z.slug ≡ slugify_zone_name u z.name
  pub filled : z.slug ≢ []
  pub enough : 3 ≤ length z.vertices
  pub boxed : IsBoxed z.bbox z.vertices

pub new_zone-IsZone :
    (u : Unicode) (name : Bytes) (vertices : List Point) (color : Rgb) {z : Zone}
    → new_zone u name vertices color ≡ ok z
    → IsZone u z × (z.name ≡ name) × (z.vertices ≡ vertices) × (z.color ≡ color)
unfolding new_zone zone_of
new_zone-IsZone u name [] color e = absurd (ground arith)
new_zone-IsZone u name (v ∷ vertices) color {z} e =
    ground (arith, bytes_eq_iff (slugify_zone_name u name) [])

AreBuilt-All :
    (u : Unicode) (configs : List ZoneConfig) (zones : List Zone)
    → AreBuilt u configs zones
    → All (IsZone u) zones
AreBuilt-All u [] [] h = tt
AreBuilt-All u [] (z ∷ zones) h = absurd h
AreBuilt-All u (zc ∷ configs) [] h = absurd h
AreBuilt-All u (zc ∷ configs) (z ∷ zones) h = (
  (new_zone-IsZone u zc.name (points zc.vertices) (rgb_of zc.rgb) h.0).0,
  AreBuilt-All u configs zones h.1,
)

-- Zones of one name would have one slug.
IsNew-names :
    (u : Unicode) (z : Zone) (zones : List Zone)
    → IsZone u z
    → All (IsZone u) zones
    → IsNew z.slug (slugs_of zones)
    → IsNew z.name (names_of zones)
IsNew-names u z [] h k n = tt
IsNew-names u z (y ∷ zones) h k n =
    (λ e. n.0 (h.slug ∙ ap (slugify_zone_name u) e ∙ sym k.0.slug), IsNew-names u z zones h k.1 n.1)

names-AreDistinct :
    (u : Unicode) (zones : List Zone)
    → All (IsZone u) zones
    → AreDistinct (slugs_of zones)
    → AreDistinct (names_of zones)
names-AreDistinct u [] h d = tt
names-AreDistinct u (z ∷ zones) h d =
    (IsNew-names u z zones h.0 h.1 d.0, names-AreDistinct u zones h.1 d.1)

-- Every zone that `Build` returns is one that `NewZone` makes, and no two have one name.
pub build-IsZone :
    (u : Unicode) (c : GeofenceConfig) {zones : List Zone}
    → build u c ≡ ok zones
    → All (IsZone u) zones × AreDistinct (names_of zones)
build-IsZone u c {zones} e =
    let o = subst (BuildOutcome u c) e (build-BuildOutcome u c) in
    let all = AreBuilt-All u c.zones zones o.2.0 in (all, names-AreDistinct u zones all o.2.1)

-- The engine that `Run` makes of a configuration that `Build` accepts satisfies the engine's
-- invariant.
pub build-IsEngine :
    (u : Unicode) (c : GeofenceConfig) {zones : List Zone}
    → build u c ≡ ok zones
    → IsEngine (new_engine zones c.hysteresis c.tag_ttl)
build-IsEngine u c {zones} e =
    new_engine-IsEngine zones c.hysteresis c.tag_ttl (build-IsZone u c e).1
