-- ===== src/Bridge/Subjects/Events.antt =====
-- The subjects of the geofence events that internal/cdpbridge/geofence_sink.go sends.
use mathlib.Core.Path.{subst}
use cdp_go.Base.{
  All, Bool-cases, Bytes, List, [], bytes_eq, bytes_eq_iff, codes, inl, inr, refl, sym, ℕ, ◌∷◌,
}
use cdp_go.Base.Assoc.{IsMap}
use cdp_go.Bridge.{event_name, event_subject}
use cdp_go.Bridge.Subjects.{IsSubject, IsToken, dotted-IsSubject, last_token, more_tokens}
use cdp_go.Bridge.Subjects.Items.{serial_hex-IsToken, word-IsToken}
use cdp_go.Cdp.Items.Position.{PositionV3}
use cdp_go.Cdp.Serial.{serial_hex}
use cdp_go.Geofence.Engine.{
  Engine, Event, EventType, contains, enter, exit, on_position, point_of, slug_of,
}
use cdp_go.Geofence.Engine.Invariant.{contains-zone_names, zone_names}
use cdp_go.Geofence.Engine.Named.{
  AreNamed, IsTold, on_position-AreNamed, on_position-IsTold, sort_names-All,
}
use cdp_go.Geofence.Engine.Steps.{on_position_same}
use cdp_go.Geofence.Engine.Tags.{on_position-IsMap}
use cdp_go.Geofence.Geometry.{Point, Zone, zone_contains}
use cdp_go.Geofence.ZoneSet.{elems}

-- The slug of the zone of that name is a token.
abbrev pub HasSlug : List Zone → Bytes → Type 0
HasSlug zones name = IsToken (slug_of zones name)

abbrev AreSlugged : List Zone → Type 0
AreSlugged = All (λ (z : Zone). IsToken z.slug)

slug_of-cons :
    (z : Zone) (zones : List Zone) (name : Bytes)
    → IsToken z.slug
    → HasSlug zones name
    → HasSlug (z ∷ zones) name
unfolding slug_of
slug_of-cons z zones name h k = elim (Bool-cases (bytes_eq z.name name)) [
  | inl same ↦ rw same h
  | inr differ ↦ rw differ k
]

slug_of-head : (z : Zone) (zones : List Zone) → IsToken z.slug → HasSlug (z ∷ zones) z.name
unfolding slug_of
slug_of-head z zones h = rw ((bytes_eq_iff z.name z.name).1 refl) h

map-HasSlug :
    (z : Zone) (zones : List Zone) (ns : List Bytes)
    → IsToken z.slug
    → All (HasSlug zones) ns
    → All (HasSlug (z ∷ zones)) ns
map-HasSlug z zones [] h k = tt
map-HasSlug z zones (a ∷ ns) h k = (slug_of-cons z zones a h k.0, map-HasSlug z zones ns h k.1)

zone_names-HasSlug :
    (zones : List Zone) (p : Point) → AreSlugged zones → All (HasSlug zones) (zone_names zones p)
unfolding zone_names
zone_names-HasSlug [] p h = tt
zone_names-HasSlug (z ∷ zones) p h = elim (Bool-cases (zone_contains z p)) [
  | inl inside ↦
      rw (inside, All, zone_names)
        (
          slug_of-head z zones h.0,
          map-HasSlug z zones (zone_names zones p) h.0 (zone_names-HasSlug zones p h.1),
        )
  | inr outside ↦
      rw (outside, All, zone_names)
        (map-HasSlug z zones (zone_names zones p) h.0 (zone_names-HasSlug zones p h.1))
]

contains-HasSlug :
    (e : Engine) (p : Point) → AreSlugged e.zones → All (HasSlug e.zones) (elems (contains e p))
contains-HasSlug e p h =
    subst (All (HasSlug e.zones)) (sym (contains-zone_names e p))
      (sort_names-All (HasSlug e.zones) (zone_names e.zones p) (zone_names-HasSlug e.zones p h))

-- An engine over zones whose slugs are tokens; the names that it holds are those of zones.
pub record IsFenced (e : Engine) : Type 0 where
  pub slugged : All (λ (z : Zone). IsToken z.slug) e.zones
  pub is_map : IsMap e.tags
  pub named : AreNamed (HasSlug e.zones) e.tags

pub on_position-IsFenced :
    (now serial : ℕ) (p : PositionV3) (e : Engine)
    → IsFenced e
    → IsFenced (on_position now serial p e).0
on_position-IsFenced now serial p e h =
    let same = sym (on_position_same now serial p e).0 in
    record {
      slugged = subst AreSlugged same h.slugged;
      is_map = on_position-IsMap now serial p e h.is_map;
      named =
          subst (λ zones. AreNamed (HasSlug zones) (on_position now serial p e).0.tags) same
            (on_position-AreNamed (HasSlug e.zones) now serial p e h.is_map
              (contains-HasSlug e (point_of p) h.slugged) h.named);
    }

-- The events of a position of a fenced engine.
pub on_position_slugs :
    (now serial : ℕ) (p : PositionV3) (e : Engine)
    → IsFenced e
    → All (λ (ev : Event). IsToken ev.zone_slug) (on_position now serial p e).1
on_position_slugs now serial p e h = go (on_position now serial p e).1 (
    on_position-IsTold (HasSlug e.zones) now serial p e (contains-HasSlug e (point_of p) h.slugged)
      h.named)
  where
    go :
        (events : List Event)
        → All (IsTold (HasSlug e.zones) e.zones) events
        → All (λ (ev : Event). IsToken ev.zone_slug) events
    go [] k = tt
    go (ev ∷ events) k = (subst IsToken (sym k.0.1) k.0.0, go events k.1)

event_name-IsToken : (kind : EventType) → IsToken (event_name kind)
event_name-IsToken enter = word-IsToken b'e' (codes "nter") refl
event_name-IsToken exit = word-IsToken b'e' (codes "xit") refl

pub event_subject-IsSubject :
    (prefix : Bytes) (ev : Event)
    → IsSubject prefix
    → IsToken ev.zone_slug
    → IsSubject (event_subject prefix ev)
unfolding event_subject
event_subject-IsSubject prefix ev h k = dotted-IsSubject h (
    more_tokens (event_name ev.kind) _ (event_name-IsToken ev.kind) (
      more_tokens (serial_hex ev.tag) ev.zone_slug (serial_hex-IsToken ev.tag)
        (last_token ev.zone_slug k)))
