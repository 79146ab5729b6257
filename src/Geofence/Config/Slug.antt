-- ===== src/Geofence/Config/Slug.antt =====
-- The slugs of zones as tokens of a NATS subject.
pub mod Ascii
use cdp_go.Base.{All, Bytes, [], arith, map, ℕ, ◌∷◌}
use cdp_go.Geofence.Config.{slug_byte, slugify_zone_name}
use cdp_go.Strings.{Unicode, to_lower}
use cdp_go.Strings.Tokens.{IsTokenByte}
use cdp_go.Strings.Trim.{EndsWithout, StartsWithout, trim-All, trim-EndsWithout, trim-StartsWithout}

slug_byte-IsTokenByte : (c : ℕ) → IsTokenByte (slug_byte c)
slug_byte-IsTokenByte c = ground arith

map-slug_byte-All : (s : Bytes) → All IsTokenByte (map slug_byte s)
map-slug_byte-All [] = tt
map-slug_byte-All (c ∷ s) = (slug_byte-IsTokenByte c, map-slug_byte-All s)

-- The string is a token that neither starts nor ends with an underscore; it may be empty.
pub record IsSlug (s : Bytes) : Type 0 where
  pub token : All IsTokenByte s
  pub starts : StartsWithout b'_' s
  pub ends : EndsWithout b'_' s

-- A slug has no dot, star, greater-than sign, space, tab, line feed or carriage return in it, and
-- neither starts nor ends with an underscore; it may be empty.
pub slugify_zone_name-IsSlug : (u : Unicode) (name : Bytes) → IsSlug (slugify_zone_name u name)
unfolding slugify_zone_name
slugify_zone_name-IsSlug u name =
    let s = map slug_byte (to_lower u name) in
    record {
      token = trim-All IsTokenByte b'_' s (map-slug_byte-All (to_lower u name));
      starts = trim-StartsWithout b'_' s;
      ends = trim-EndsWithout b'_' s;
    }
