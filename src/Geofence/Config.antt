-- ===== src/Geofence/Config.antt =====
-- internal/geofence/config.go, with `NewZone` and `slugifyZoneName` of geometry.go.
pub mod Slug
pub mod Outcome
pub mod Built
use cdp_go.Base.{
  Bool, Bytes, List, Option, [], bytes_eq, if◌then◌else◌, length, ltb, map, none, some, ℕ, ◌++◌,
  ◌+◌, ◌==◌, ◌||◌, ◌∷◌,
}
use cdp_go.Base.Int.{ltb_ℤ, pos, ℤ}
use cdp_go.Cdp.Result.{Result, err, fault, ok, ◌>>=◌}
use cdp_go.Geofence.Geometry.{Point, Rgb, Zone, bounding_box}
use cdp_go.Strings.{Unicode, is_blank, to_lower, trim}

-- `ZoneConfig`: a vertex is the array [x, y].
pub record ZoneConfig : Type 0 where
  pub name : Bytes
  pub vertices : List (ℤ × ℤ)
  pub rgb : ℕ × ℕ × ℕ

-- `Config` of package geofence. `tag_ttl` is in nanoseconds.
pub record GeofenceConfig : Type 0 where
  pub hysteresis : ℤ
  pub prefix : Bytes
  pub tag_ttl : ℤ
  pub zones : List ZoneConfig

-- `Enabled`.
unfoldable pub enabled : GeofenceConfig → Bool
enabled c = ltb 0 (length c.zones)

-- The errors of `NewZone`, with what they report.
pub data ZoneError : Type 0 where
  empty_name : ZoneError
  empty_slug : Bytes → ZoneError
  few_vertices : Bytes → ℕ → ZoneError

-- The errors of `Build`. A zone's is reported with its index.
pub data BuildError : Type 0 where
  negative_hysteresis : ℤ → BuildError
  negative_ttl : ℤ → BuildError
  bad_zone : ℕ → ZoneError → BuildError
  duplicate_slug : ℕ → Bytes → Bytes → Bytes → BuildError

-- The `switch` of `slugifyZoneName`, on the bytes of valid UTF-8, which `ToLower` returns: a rune
-- that is not ASCII has no byte of these.
abbrev pub slug_byte : ℕ → ℕ
slug_byte c =
    if c == b'.' || c == b'>' || c == b'*'
    then b'_'
    else if c == b' ' || c == 9 || c == 10 || c == 13
    then b'_'
    else c

-- `slugifyZoneName`.
unfoldable pub slugify_zone_name : Unicode → Bytes → Bytes
slugify_zone_name u name = trim b'_' (map slug_byte (to_lower u name))

-- The `Zone` literal of `NewZone`; without a vertex `boundingBox` panics.
unfoldable pub zone_of : Bytes → Bytes → List Point → Rgb → Result ZoneError Zone
zone_of name slug [] color = fault
zone_of name slug (v ∷ vertices) color = ok (record {
  name = name;
  slug = slug;
  vertices = v ∷ vertices;
  color = color;
  bbox = bounding_box v vertices;
})

-- `NewZone`.
unfoldable pub new_zone : Unicode → Bytes → List Point → Rgb → Result ZoneError Zone
new_zone u name vertices color =
    let slug = slugify_zone_name u name in
    if is_blank u name
    then err empty_name
    else if bytes_eq slug []
    then err (empty_slug name)
    else if ltb (length vertices) 3
    then err (few_vertices name (length vertices))
    else zone_of name slug vertices color

abbrev pub points : List (ℤ × ℤ) → List Point
points [] = []
points ((x, y) ∷ vertices) = record { x = x; y = y } ∷ points vertices

abbrev pub rgb_of : ℕ × ℕ × ℕ → Rgb
rgb_of (r, g, b) = record { r = r; g = g; b = b }

-- The call of `NewZone` in `Build`.
abbrev pub configured_zone : Unicode → ZoneConfig → Result ZoneError Zone
configured_zone u zc = new_zone u zc.name (points zc.vertices) (rgb_of zc.rgb)

-- `seenSlug`, from slugs to names.
unfoldable pub seen_name : Bytes → List (Bytes × Bytes) → Option Bytes
seen_name slug [] = none
seen_name slug ((k, name) ∷ seen) = if bytes_eq k slug then some name else seen_name slug seen

-- The part of the loop's body in `Build` behind `NewZone`, with the rest of the loop as `next`.
unfoldable pub add_zone :
    ℕ → List (Bytes × Bytes) → Zone → Result BuildError (List Zone) → Result BuildError (List Zone)
add_zone i seen z next = elim (seen_name z.slug seen) [
  | some prev ↦ err (duplicate_slug i z.name z.slug prev)
  | none ↦ next
]

-- `fmt.Errorf("geofence: zones[%d]: %w", i, err)`.
unfoldable pub or_bad_zone : ℕ → Result ZoneError Zone → Result BuildError Zone
or_bad_zone i (ok z) = ok z
or_bad_zone i (err e) = err (bad_zone i e)
or_bad_zone i fault = fault

-- The loop of `Build`, with the zones built so far in `zones`.
unfoldable pub build_loop :
    Unicode → List ZoneConfig → ℕ → List (Bytes × Bytes) → List Zone → Result BuildError (List Zone)
build_loop u [] i seen zones = ok zones
build_loop u (zc ∷ configs) i seen zones = do
  z ← or_bad_zone i (configured_zone u zc)
  add_zone i seen z (build_loop u configs (i + 1) ((z.slug, z.name) ∷ seen) (zones ++ (z ∷ [])))

-- `Build`.
unfoldable pub build : Unicode → GeofenceConfig → Result BuildError (List Zone)
build u c =
    if ltb_ℤ c.hysteresis (pos 0)
    then err (negative_hysteresis c.hysteresis)
    else if ltb_ℤ c.tag_ttl (pos 0)
    then err (negative_ttl c.tag_ttl)
    else build_loop u c.zones 0 [] []
