-- ===== src/Geofence/Engine/Named.antt =====
-- The names in the sets and events of the engine of internal/geofence/engine.go.
use mathlib.Core.Path.{subst}
use cdp_go.Base.{
  All, All-append, Bool, Bool-cases, Bytes, List, Option-cases, [], arith, bytes_eq, false,
  if◌then◌else◌, inl, inr, map, refl, some, sym, true, ℕ, ◌==◌, ◌∷◌, ◌≡◌,
}
use cdp_go.Base.Assoc.{IsMap, lookup}
use cdp_go.Cdp.Items.Position.{PositionV3}
use cdp_go.Cdp.Serial.{Serial}
use cdp_go.Geofence.Engine.{
  Engine, Event, EventType, TagState, commit_proposal, contains, count_proposal, emit, enter,
  event_of, exit, on_position, point_of, slug_of, tag_of,
}
use cdp_go.Geofence.Engine.Counting.{observe}
use cdp_go.Geofence.Engine.Steps.{on_position_events}
use cdp_go.Geofence.Engine.Tags.{after_position, lookup-on_position}
use cdp_go.Geofence.Geometry.{Zone}
use cdp_go.Geofence.Names.{insert_name, name_lt, sort_names}
use cdp_go.Geofence.ZoneSet.{ZoneSet, diff_names, elems}

module _ (P : Bytes → Type 0) where
  insert_name-All :
      (a : Bytes) (names : List Bytes) → P a → All P names → All P (insert_name a names)
  unfolding insert_name
  insert_name-All a [] h k = (h, tt)
  insert_name-All a (b ∷ bs) h k = elim (Bool-cases (name_lt b a)) [
    | inl above ↦ rw above (k.0, insert_name-All a bs h k.1)
    | inr not_above ↦ rw not_above (h, k)
  ]

  pub sort_names-All : (names : List Bytes) → All P names → All P (sort_names names)
  unfolding sort_names
  sort_names-All [] h = tt
  sort_names-All (a ∷ bs) h = insert_name-All a (sort_names bs) h.0 (sort_names-All bs h.1)

  diff_names-All :
      (prev next : List Bytes)
      → All P prev
      → All P next
      → All P (diff_names prev next).0 × All P (diff_names prev next).1
  unfolding diff_names
  diff_names-All [] next h k = (tt, k)
  diff_names-All (a ∷ prev) [] h k = (h, tt)
  diff_names-All (a ∷ prev) (b ∷ next) h k = elim (Bool-cases (bytes_eq a b)) [
    | inl same ↦ rw (same, All, diff_names) (diff_names-All prev next h.1 k.1)
    | inr differ ↦ elim (Bool-cases (name_lt a b)) [
      | inl less ↦
          let rest = diff_names-All prev (b ∷ next) h.1 k in
          rw (differ, less, All, diff_names) ((h.0, rest.0), rest.1)
      | inr more ↦
          let rest = diff_names-All (a ∷ prev) next h k.1 in
          rw (differ, more, All, diff_names) (rest.0, (k.0, rest.1))
    ]
  ]

  -- The committed names of every tag.
  abbrev pub AreNamed : List (ℕ × TagState) → Type 0
  AreNamed tags = (k : ℕ) (st : TagState) → lookup k tags ≡ some st → All P (elems st.committed)

  observe-All :
      (hysteresis : ℕ) (z : ZoneSet) (st : TagState)
      → All P (elems z)
      → All P (elems st.committed)
      → All P (elems (observe hysteresis z st).0.committed)
  unfolding observe count_proposal commit_proposal
  observe-All hysteresis z st h k = ground (arith, h, k)

  tag_of-All :
      (e : Engine) (serial : Serial) → AreNamed e.tags → All P (elems (tag_of e serial).committed)
  unfolding tag_of
  tag_of-All e serial h = elim (Option-cases (lookup serial e.tags)) [
    | inl missing ↦ rw (missing, All, tag_of) tt
    | inr (st, found) ↦ rw (found, All, tag_of) (h serial st found)
  ]

  -- What holds of the names of the zones that a position lies in holds of the committed names
  -- after it.
  pub on_position-AreNamed :
      (now serial : ℕ) (p : PositionV3) (e : Engine)
      → IsMap e.tags
      → All P (elems (contains e (point_of p)))
      → AreNamed e.tags
      → AreNamed (on_position now serial p e).0.tags
  on_position-AreNamed now serial p e m h n k st found =
      let after = lookup-on_position now serial k p e m in
      elim (Bool-cases (serial == k)) [
        | inl own ↦
            let moved : (after_position now serial p e).0 ≡ st = ground arith in
            subst (λ (t : TagState). All P (elems t.committed)) moved
              (observe-All e.hysteresis (contains e (point_of p))
                (record (tag_of e serial) { last_seen = now }) h (tag_of-All e serial n))
        | inr differ ↦ let kept : lookup k e.tags ≡ some st = ground arith in n k st kept
      ]

  -- An event with such a name, and the slug of it.
  abbrev pub IsTold : List Zone → Event → Type 0
  IsTold zones ev = P ev.zone × (ev.zone_slug ≡ slug_of zones ev.zone)

  map-IsTold :
      (e : Engine) (kind : EventType) (serial : Serial) (p : PositionV3) (next : ZoneSet)
      (ns : List Bytes)
      → All P ns
      → All (IsTold e.zones) (map (event_of e kind serial p next) ns)
  unfolding event_of
  map-IsTold e kind serial p next [] h = tt
  map-IsTold e kind serial p next (a ∷ ns) h = ((h.0, refl), map-IsTold e kind serial p next ns h.1)

  emit-IsTold :
      (e : Engine) (serial : Serial) (p : PositionV3) (prev next : ZoneSet)
      → All P (elems prev)
      → All P (elems next)
      → All (IsTold e.zones) (emit e serial p prev next)
  unfolding emit
  emit-IsTold e serial p prev next h k =
      let d = diff_names-All (elems prev) (elems next) h k in
      All-append (IsTold e.zones)
        (map (event_of e exit serial p next) (diff_names (elems prev) (elems next)).0) _
        (map-IsTold e exit serial p next _ d.0) (map-IsTold e enter serial p next _ d.1)

  pub on_position-IsTold :
      (now serial : ℕ) (p : PositionV3) (e : Engine)
      → All P (elems (contains e (point_of p)))
      → AreNamed e.tags
      → All (IsTold e.zones) (on_position now serial p e).1
  on_position-IsTold now serial p e h n =
      subst (All (IsTold e.zones)) (sym (on_position_events now serial p e).0)
        (told (after_position now serial p e).1)
    where
      told :
          (done : Bool)
          → All (IsTold e.zones) (
              if done
              then emit e serial p (tag_of e serial).committed (contains e (point_of p))
              else [])
      told true =
          emit-IsTold e serial p (tag_of e serial).committed (contains e (point_of p))
            (tag_of-All e serial n) h
      told false = tt
