-- ===== src/Geofence/Engine/Events.antt =====
-- The events of `OnPosition` as a consumer reads them.
use cdp_go.Base.{
  Bool-cases, Bytes, List, [], ap, arith, bytes_eq, bytes_eq_iff, if◌then◌else◌, inl, inr, map, not,
  refl, ◌&&◌, ◌++◌, ◌||◌, ◌∷◌, ◌≡◌,
}
use cdp_go.Cdp.Items.Position.{PositionV3}
use cdp_go.Cdp.Serial.{Serial}
use cdp_go.Geofence.Engine.{Engine, Event, emit, enter, event_of, exit}
use cdp_go.Geofence.Names.{IsSorted, insert_name, insert_name-IsSorted}
use cdp_go.Geofence.ZoneSet.{ZoneSet, elems}
use cdp_go.Geofence.ZoneSet.Diff.{diff_names-minus}
use cdp_go.Geofence.ZoneSet.Members.{
  IsSorted-ext, has, has-insert_name, has-minus, has-remove_name, minus, not_has-IsNew, remove_name,
  remove_name-IsSorted,
}

unfoldable pub enter_zone : Bytes → List Bytes → List Bytes
enter_zone name zones = if has name zones then zones else insert_name name zones

enter_zone-IsSorted :
    (a : Bytes) (zones : List Bytes) → IsSorted zones → IsSorted (enter_zone a zones)
unfolding enter_zone
enter_zone-IsSorted a zones h = elim (Bool-cases (has a zones)) [
  | inl old ↦ rw old h
  | inr new ↦ rw new (insert_name-IsSorted a zones (not_has-IsNew a zones new) h)
]

has-enter_zone :
    (a b : Bytes) (zones : List Bytes) → has a (enter_zone b zones) ≡ (has a zones || bytes_eq a b)
unfolding enter_zone
has-enter_zone a b zones =
    ground
      (arith, has-insert_name a b zones, bytes_eq_iff a b, λ (q : a ≡ b). ap (λ c. has c zones) q)

-- What an event says of the set of zones that the tag is in.
unfoldable pub apply_event : List Bytes → Event → List Bytes
apply_event zones ev = elim ev.kind [
  | enter ↦ enter_zone ev.zone zones
  | exit ↦ remove_name ev.zone zones
]

unfoldable pub apply_events : List Bytes → List Event → List Bytes
apply_events zones [] = zones
apply_events zones (ev ∷ events) = apply_events (apply_event zones ev) events

pub apply_events-append :
    (zones : List Bytes) (xs ys : List Event)
    → apply_events zones (xs ++ ys) ≡ apply_events (apply_events zones xs) ys
unfolding apply_events
apply_events-append zones [] ys = refl
apply_events-append zones (x ∷ xs) ys = apply_events-append (apply_event zones x) xs ys

module _ (e : Engine) (serial : Serial) (p : PositionV3) (next : ZoneSet) where
  exits_applied :
      (left zones : List Bytes)
      → IsSorted zones
      → IsSorted (apply_events zones (map (event_of e exit serial p next) left))
        × ((a : Bytes)
            → has a (apply_events zones (map (event_of e exit serial p next) left))
              ≡ (has a zones && not (has a left)))
  unfolding apply_events apply_event event_of has
  exits_applied [] zones h = (h, λ a. ground arith)
  exits_applied (x ∷ left) zones h =
      let rest = exits_applied left (remove_name x zones) (remove_name-IsSorted x zones h) in
      (
        rest.0,
        λ a.
            ground (arith, rest.1 a, has-remove_name a x zones, bytes_eq_iff a x, bytes_eq_iff x a),
      )

  enters_applied :
      (entered zones : List Bytes)
      → IsSorted zones
      → IsSorted (apply_events zones (map (event_of e enter serial p next) entered))
        × ((a : Bytes)
            → has a (apply_events zones (map (event_of e enter serial p next) entered))
              ≡ (has a zones || has a entered))
  unfolding apply_events apply_event event_of has
  enters_applied [] zones h = (h, λ a. ground arith)
  enters_applied (x ∷ entered) zones h =
      let rest = enters_applied entered (enter_zone x zones) (enter_zone-IsSorted x zones h) in
      (rest.0, λ a. ground (arith, rest.1 a, has-enter_zone a x zones))

  -- A consumer that applies the events of a transition between two sorted sets to the first one
  -- has the second one.
  pub apply_events-emit :
      (prev : ZoneSet)
      → IsSorted (elems prev)
      → IsSorted (elems next)
      → apply_events (elems prev) (emit e serial p prev next) ≡ elems next
  unfolding emit
  apply_events-emit prev h k =
      let left = minus (elems prev) (elems next) in
      let entered = minus (elems next) (elems prev) in
      let exits = exits_applied left (elems prev) h in
      let between = apply_events (elems prev) (map (event_of e exit serial p next) left) in
      let enters = enters_applied entered between exits.0 in
      rw
        (
          diff_names-minus (elems prev) (elems next) h k,
          apply_events-append (elems prev) (map (event_of e exit serial p next) left),
        )
        (IsSorted-ext _ (elems next) enters.0 k (λ a. ground (
          arith,
          enters.1 a,
          exits.1 a,
          has-minus a (elems prev) (elems next),
          has-minus a (elems next) (elems prev),
        )))
