-- ===== src/Geofence/Engine.antt =====
-- internal/geofence/engine.go and events.go. The clock is read once in a call, so its reading is
-- an argument; the sink's calls are the list of events, and its errors are only logged.
pub mod Counting
pub mod Commits
pub mod Tags
pub mod Events
pub mod Invariant
pub mod Hits
pub mod Steps
pub mod Outside
pub mod Named
use cdp_go.Base.{
  Bool, Bytes, List, [], bytes_eq, false, if◌then◌else◌, leb, length, ltb, map, none, not, some,
  true, ℕ, ◌&&◌, ◌++◌, ◌+◌, ◌-◌, ◌^◌, ◌||◌, ◌∷◌,
}
use cdp_go.Base.Assoc.{insert, lookup}
use cdp_go.Base.Int.{ltb_ℤ, pos, pos_part, ℤ}
use cdp_go.Cdp.Items.Position.{PositionV3}
use cdp_go.Cdp.Serial.{Serial}
use cdp_go.Geofence.Geometry.{Point, Rgb, Zone, zone_contains}
use cdp_go.Geofence.Names.{sort_names}
use cdp_go.Geofence.ZoneSet.{ZoneSet, append_name, diff_names, elems, equal, is_nil, names, nil}

pub data EventType : Type 0 where
  enter : EventType
  exit : EventType

-- `Event`.
pub record Event : Type 0 where
  pub kind : EventType
  pub tag : Serial
  pub zone : Bytes
  pub zone_slug : Bytes
  pub in_zones : List Bytes
  pub network_time : ℕ
  pub position : Point
  pub color : Rgb

-- `tagState`. Times are nanoseconds.
pub record TagState : Type 0 where
  pub committed : ZoneSet
  pub pending : ZoneSet
  pub pending_count : ℕ
  pub last_seen : ℕ

-- `Engine`, without the sink and the clock. `hysteresis` is 1 at least; a `tag_ttl` of 0 or below
-- disables the sweep.
pub record Engine : Type 0 where
  pub zones : List Zone
  pub hysteresis : ℕ
  pub tags : List (ℕ × TagState)
  pub tag_ttl : ℤ
  pub cleanup_counter : ℕ
  pub cleanup_every : ℕ

-- `defaultCleanupEvery`.
abbrev pub default_cleanup_every : ℕ
default_cleanup_every = 10000

-- `NewEngine`.
unfoldable pub new_engine : List Zone → ℤ → ℤ → Engine
new_engine zones hysteresis tag_ttl = record {
  zones = zones;
  hysteresis = if ltb_ℤ hysteresis (pos 1) then 1 else pos_part hysteresis;
  tags = [];
  tag_ttl = tag_ttl;
  cleanup_counter = 0;
  cleanup_every = default_cleanup_every;
}

-- `TagCount`.
unfoldable pub tag_count : Engine → ℕ
tag_count e = length e.tags

-- The loop of `contains`.
unfoldable pub hits_loop : List Zone → Point → ZoneSet → ZoneSet
hits_loop [] p hits = hits
hits_loop (z ∷ zones) p hits =
    hits_loop zones p (if zone_contains z p then append_name hits z.name else hits)

-- `sort.Strings(hits)`: it sorts in place, so a nil slice stays nil.
unfoldable pub sort_set : ZoneSet → ZoneSet
sort_set nil = nil
sort_set (names xs) = names (sort_names xs)

-- `contains`.
unfoldable pub contains : Engine → Point → ZoneSet
contains e p = sort_set (hits_loop e.zones p nil)

-- `slugOf` and `colorOf`: the first zone of the name, or the zero value.
unfoldable pub slug_of : List Zone → Bytes → Bytes
slug_of [] name = []
slug_of (z ∷ zones) name = if bytes_eq z.name name then z.slug else slug_of zones name

unfoldable pub color_of : List Zone → Bytes → Rgb
color_of [] name = record { r = 0; g = 0; b = 0 }
color_of (z ∷ zones) name = if bytes_eq z.name name then z.color else color_of zones name

abbrev pub point_of : PositionV3 → Point
point_of p = record { x = p.x; y = p.y }

-- The events of `emit`, in the order in which the sink gets them.
unfoldable pub event_of : Engine → EventType → Serial → PositionV3 → ZoneSet → Bytes → Event
event_of e kind serial p next name = record {
  kind = kind;
  tag = serial;
  zone = name;
  zone_slug = slug_of e.zones name;
  in_zones = elems next;
  network_time = p.network_time;
  position = point_of p;
  color = color_of e.zones name;
}

unfoldable pub emit : Engine → Serial → PositionV3 → ZoneSet → ZoneSet → List Event
emit e serial p prev next =
    let diff = diff_names (elems prev) (elems next) in
    map (event_of e exit serial p next) diff.0 ++ map (event_of e enter serial p next) diff.1

-- The `switch` of `OnPosition`.
unfoldable pub count_proposal : ZoneSet → TagState → TagState
count_proposal proposed st =
    if equal proposed st.committed
    then record st { pending = nil; pending_count = 0 }
    else if is_nil st.pending || not (equal proposed st.pending)
    then record st { pending = proposed; pending_count = 1 }
    else record st { pending_count = st.pending_count + 1 }

-- The commit behind it, with its answer.
unfoldable pub commit_proposal : ℕ → ZoneSet → TagState → TagState × Bool
commit_proposal hysteresis proposed st =
    if leb hysteresis st.pending_count
    then (record st { committed = proposed; pending = nil; pending_count = 0 }, true)
    else (st, false)

-- `now.Sub(t)` for a time `t` that is not after `now`: a duration, which has an upper end.
abbrev pub max_duration : ℕ
max_duration = 2 ^ 63 - 1

abbrev pub since : ℕ → ℕ → ℕ
since now t = if ltb max_duration (now - t) then max_duration else now - t

-- `st.lastSeen.After(now)` keeps the entry; otherwise it is kept up to the time to live.
unfoldable pub is_stale : ℤ → ℕ → TagState → Bool
is_stale tag_ttl now st =
    if ltb now st.last_seen then false else ltb_ℤ tag_ttl (pos (since now st.last_seen))

-- `pruneStale`. Deleting one entry does not touch another, so the order of the map is no matter.
unfoldable pub prune_stale : ℤ → ℕ → List (ℕ × TagState) → List (ℕ × TagState)
prune_stale tag_ttl now [] = []
prune_stale tag_ttl now ((serial, st) ∷ tags) =
    let rest = prune_stale tag_ttl now tags in
    if is_stale tag_ttl now st then rest else (serial, st) ∷ rest

-- The end of `OnPosition`: every `cleanup_every` calls the stale tags go.
unfoldable pub clean_up : ℕ → Engine → Engine
clean_up now e =
    if ltb_ℤ (pos 0) e.tag_ttl && leb e.cleanup_every (e.cleanup_counter + 1)
    then record e { cleanup_counter = 0; tags = prune_stale e.tag_ttl now e.tags }
    else record e { cleanup_counter = e.cleanup_counter + 1 }

abbrev pub new_tag : TagState
new_tag = record { committed = nil; pending = nil; pending_count = 0; last_seen = 0 }

-- `e.tags[serial]`, or a new state.
unfoldable pub tag_of : Engine → Serial → TagState
tag_of e serial = elim (lookup serial e.tags) [ none ↦ new_tag | some st ↦ st ]

-- `OnPosition`, with the events for the sink.
unfoldable pub on_position : ℕ → Serial → PositionV3 → Engine → Engine × List Event × Bool
on_position now serial p e =
    let proposed = contains e (point_of p) in
    let seen = record (tag_of e serial) { last_seen = now } in
    let counted = count_proposal proposed seen in
    let (st, committed) = commit_proposal e.hysteresis proposed counted in
    let events = if committed then emit e serial p counted.committed proposed else [] in
    (clean_up now (record e { tags = insert serial st e.tags }), events, committed)
