-- ===== src/Geofence/Engine/Steps.antt =====
-- The engine's invariant across a call of `OnPosition`, and its events against the change of its
-- tag's zones.
use mathlib.Core.Path.{subst}
use cdp_go.Base.{
  Bool-cases, [], ap, arith, if◌then◌else◌, inl, inr, refl, some, sym, true, ℕ, ◌<◌, ◌==◌, ◌↔◌, ◌∙◌,
  ◌≡◌, ◌≢◌,
}
use cdp_go.Base.Assoc.{IsMap, lookup}
use cdp_go.Cdp.Items.Position.{PositionV3}
use cdp_go.Geofence.Engine.{
  Engine, TagState, clean_up, commit_proposal, contains, count_proposal, emit, on_position,
  point_of, tag_of,
}
use cdp_go.Geofence.Engine.Counting.{IsCounting, observe}
use cdp_go.Geofence.Engine.Events.{apply_events, apply_events-emit}
use cdp_go.Geofence.Engine.Invariant.{
  IsEngine, IsTag, contains-IsSorted, contains-made, observe-IsTag, tag_of-IsTag,
}
use cdp_go.Geofence.Engine.Tags.{after_position, lookup-on_position, on_position-IsMap}
use cdp_go.Geofence.ZoneSet.{ZoneSet, elems}
use cdp_go.Geofence.ZoneSet.Diff.{equal_iff}

pub seen-IsTag :
    (hysteresis now : ℕ) (st : TagState)
    → IsTag hysteresis st
    → IsTag hysteresis (record st { last_seen = now })
seen-IsTag hysteresis now st t = record {
  counting = record {
    below = t.counting.below;
    differs = t.counting.differs;
    idle = t.counting.idle;
  };
  sorted = t.sorted;
  made = t.made;
}

pub after_position-IsTag :
    (now serial : ℕ) (p : PositionV3) (e : Engine)
    → IsEngine e
    → IsTag e.hysteresis (after_position now serial p e).0
after_position-IsTag now serial p e h =
    observe-IsTag e.hysteresis (contains e (point_of p))
      (record (tag_of e serial) { last_seen = now }) h.positive (contains-made e (point_of p))
      (contains-IsSorted e (point_of p) h.distinct)
      (seen-IsTag e.hysteresis now (tag_of e serial) (tag_of-IsTag e serial h))

pub on_position_same :
    (now serial : ℕ) (p : PositionV3) (e : Engine)
    → ((on_position now serial p e).0.zones ≡ e.zones)
      × ((on_position now serial p e).0.hysteresis ≡ e.hysteresis)
unfolding on_position clean_up
on_position_same now serial p e = ground arith

-- `OnPosition` keeps the engine's invariant: the hysteresis is positive, the zones' names differ,
-- no tag has two states, and of each tag the committed set is sorted, and the count is below the
-- hysteresis and, if it is positive, counts proposals of a pending set other than the committed
-- one.
pub on_position-IsEngine :
    (now serial : ℕ) (p : PositionV3) (e : Engine)
    → IsEngine e
    → IsEngine (on_position now serial p e).0
on_position-IsEngine now serial p e h =
    let same = on_position_same now serial p e in
    record {
      positive = rw same.1 h.positive;
      distinct = rw same.0 h.distinct;
      is_map = on_position-IsMap now serial p e h.is_map;
      tags_are = λ k {st} found. rw same.1 (tags_after k found);
    }
  where
    tags_after :
        (k : ℕ) {st : TagState}
        → lookup k (on_position now serial p e).0.tags ≡ some st
        → IsTag e.hysteresis st
    tags_after k {st} found =
        let after = lookup-on_position now serial k p e h.is_map in
        elim (Bool-cases (serial == k)) [
          | inl own ↦
              let moved : (after_position now serial p e).0 ≡ st = ground arith in
              subst (IsTag e.hysteresis) moved (after_position-IsTag now serial p e h)
          | inr other ↦ let kept : lookup k e.tags ≡ some st = ground arith in h.tags_are k kept
        ]

-- What a call that observes the set `z` commits, and whether it does.
observe_commits :
    (hysteresis : ℕ) (z : ZoneSet) (st : TagState)
    → 0 < hysteresis
    → IsCounting hysteresis st
    → let (after, done) = observe hysteresis z st in
      (after.committed ≡ (if done then z else st.committed))
      × (done ≡ true → elems z ≢ elems st.committed)
unfolding observe count_proposal commit_proposal
observe_commits hysteresis z st h c = ground (arith, equal_iff z st.committed)

pub own_tag :
    (now serial : ℕ) (p : PositionV3) (e : Engine)
    → IsMap e.tags
    → tag_of (on_position now serial p e).0 serial ≡ (after_position now serial p e).0
unfolding tag_of
own_tag now serial p e h = ground (arith, lookup-on_position now serial serial p e h)

count_proposal-committed :
    (z : ZoneSet) (st : TagState) → (count_proposal z st).committed ≡ st.committed
unfolding count_proposal
count_proposal-committed z st = ground arith

pub on_position_events :
    (now serial : ℕ) (p : PositionV3) (e : Engine)
    → let (st, done) = after_position now serial p e in
      ((on_position now serial p e).1 ≡ (
        if done then emit e serial p (tag_of e serial).committed (contains e (point_of p)) else []))
      × ((on_position now serial p e).2 ≡ done)
unfolding on_position observe
on_position_events now serial p e = (
  rw
      (count_proposal-committed (contains e (point_of p))
        (record (tag_of e serial) { last_seen = now }))
      refl,
  refl,
)

-- If the engine's invariant holds, the events of a position, applied to the committed zones of its
-- tag before the call, give those after it, and the answer is true exactly when there are events.
pub on_position-apply_events :
    (now serial : ℕ) (p : PositionV3) (e : Engine)
    → IsEngine e
    → let (after, events, done) = on_position now serial p e in
      (apply_events (elems (tag_of e serial).committed) events
        ≡ elems (tag_of after serial).committed)
      × ((done ≡ true) ↔ (events ≢ []))
on_position-apply_events now serial p e h =
    let z = contains e (point_of p) in
    let t = tag_of-IsTag e serial h in
    let told = on_position_events now serial p e in
    let commits =
      observe_commits e.hysteresis z (record (tag_of e serial) { last_seen = now }) h.positive
        (seen-IsTag e.hysteresis now (tag_of e serial) t).counting in
    let emitted =
      apply_events-emit e serial p z (tag_of e serial).committed t.sorted
        (contains-IsSorted e (point_of p) h.distinct) in
    elim (Bool-cases (after_position now serial p e).1) [
      | inl done ↦
          let moved : (after_position now serial p e).0.committed ≡ z = ground arith in
          rw (told.0, told.1, own_tag now serial p e h.is_map, done)
            (
              emitted ∙ ap elems (sym moved),
              (
                (λ _ silent. commits.1 done (
                    sym emitted
                    ∙ ap (apply_events (elems (tag_of e serial).committed)) silent
                    ∙ (unfold apply_events in refl))),
                λ _. refl,
              ),
            )
      | inr quiet ↦
          let kept : (after_position now serial p e).0.committed ≡ (tag_of e serial).committed =
            ground arith in
          rw (told.0, told.1, own_tag now serial p e h.is_map, quiet)
            (unfold apply_events in ap elems (sym kept), (λ q _. cc, λ loud. absurd (loud refl)))
    ]
