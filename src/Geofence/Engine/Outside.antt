-- ===== src/Geofence/Engine/Outside.antt =====
-- `OnPosition` for positions that lie in no zone.
use cdp_go.Base.{[], arith, false, refl, ℕ, ◌<◌, ◌∙◌, ◌∷◌, ◌≡◌, ◌≢◌}
use cdp_go.Cdp.Items.Position.{PositionV3}
use cdp_go.Geofence.Engine.{
  Engine, TagState, commit_proposal, contains, count_proposal, on_position, point_of, tag_of,
}
use cdp_go.Geofence.Engine.Counting.{observe}
use cdp_go.Geofence.Engine.Invariant.{
  IsEngine, IsTag, contains-made, contains-zone_names, tag_of-IsTag, zone_names,
}
use cdp_go.Geofence.Engine.Steps.{on_position_events, own_tag, seen-IsTag}
use cdp_go.Geofence.Names.{sort_names}
use cdp_go.Geofence.ZoneSet.{ZoneSet, elems, names, nil}
use cdp_go.Geofence.ZoneSet.Diff.{equal_iff}

nil-of-elems : (z : ZoneSet) → z ≢ names [] → elems z ≡ [] → z ≡ nil
nil-of-elems nil made e = refl
nil-of-elems (names []) made e = absurd (made refl)
nil-of-elems (names (x ∷ xs)) made e = cc

observe_outside :
    (hysteresis : ℕ) (st : TagState)
    → 1 < hysteresis
    → IsTag hysteresis st
    → ((observe hysteresis nil st).1 ≡ false)
      × ((observe hysteresis nil st).0.committed ≡ st.committed)
unfolding observe count_proposal commit_proposal
observe_outside hysteresis st h t =
    ground (arith, equal_iff nil st.committed, equal_iff nil st.pending, t.made, t.counting)

-- If the engine's invariant holds and the hysteresis is 2 or more, a position in no zone gives no
-- event and the answer false, and the committed set of its tag stays as it is, also when it has
-- zones.
pub on_position_outside :
    (now serial : ℕ) (p : PositionV3) (e : Engine)
    → IsEngine e
    → 1 < e.hysteresis
    → zone_names e.zones (point_of p) ≡ []
    → let (after, events, done) = on_position now serial p e in
      (events ≡ [])
      × (done ≡ false)
      × ((tag_of after serial).committed ≡ (tag_of e serial).committed)
on_position_outside now serial p e h many outside =
    let told = on_position_events now serial p e in
    let t = seen-IsTag e.hysteresis now (tag_of e serial) (tag_of-IsTag e serial h) in
    let z = contains e (point_of p) in
    let empty : elems z ≡ [] =
      contains-zone_names e (point_of p) ∙ rw outside (unfold sort_names in refl) in
    let none : z ≡ nil = nil-of-elems z (contains-made e (point_of p)) empty in
    let still =
      observe_outside e.hysteresis (record (tag_of e serial) { last_seen = now }) many t in
    rw (told.0, told.1, own_tag now serial p e h.is_map, none, still.0) (refl, refl, still.1)
