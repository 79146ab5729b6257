-- ===== src/Geofence/Engine/Tags.antt =====
-- The per-tag map of the engine across `OnPosition` and the sweep of stale tags.
use mathlib.Core.Path.{subst}
use cdp_go.Base.{
  Bool, Bool-cases, List, Option, [], arith, false, if◌then◌else◌, inl, inr, leb, none, refl, some,
  true, ℕ, ◌&&◌, ◌+◌, ◌<◌, ◌==◌, ◌↔◌, ◌∙◌, ◌∷◌, ◌≡◌, ◌≤◌,
}
use cdp_go.Base.Assoc.{
  IsMap, IsUnkeyed, insert, insert-IsMap, lookup, lookup-IsUnkeyed, lookup-insert,
}
use cdp_go.Base.Int.{ltb_ℤ, pos, ℤ}
use cdp_go.Cdp.Items.Position.{PositionV3}
use cdp_go.Cdp.Serial.{Serial}
use cdp_go.Geofence.Engine.{
  Engine, TagState, clean_up, commit_proposal, contains, count_proposal, is_stale, max_duration,
  on_position, point_of, prune_stale, tag_of,
}
use cdp_go.Geofence.Engine.Counting.{observe}
use cdp_go.Geofence.ZoneSet.{ZoneSet}

-- What the sweep leaves of an entry.
abbrev pub keep_fresh : ℤ → ℕ → Option TagState → Option TagState
keep_fresh tag_ttl now none = none
keep_fresh tag_ttl now (some st) = if is_stale tag_ttl now st then none else some st

prune_stale-IsUnkeyed :
    (tag_ttl : ℤ) (now k : ℕ) (tags : List (ℕ × TagState))
    → IsUnkeyed k tags
    → IsUnkeyed k (prune_stale tag_ttl now tags)
unfolding prune_stale
prune_stale-IsUnkeyed tag_ttl now k [] h = tt
prune_stale-IsUnkeyed tag_ttl now k ((j, st) ∷ tags) h =
    ground (arith, prune_stale-IsUnkeyed tag_ttl now k tags h.1)

pub prune_stale-IsMap :
    (tag_ttl : ℤ) (now : ℕ) (tags : List (ℕ × TagState))
    → IsMap tags
    → IsMap (prune_stale tag_ttl now tags)
unfolding prune_stale
prune_stale-IsMap tag_ttl now [] h = tt
prune_stale-IsMap tag_ttl now ((j, st) ∷ tags) h = elim (Bool-cases (is_stale tag_ttl now st)) [
  | inl stale ↦ rw stale (prune_stale-IsMap tag_ttl now tags h.1)
  | inr fresh ↦
      rw fresh
        ((prune_stale-IsUnkeyed tag_ttl now j tags h.0, prune_stale-IsMap tag_ttl now tags h.1))
]

-- In a map with one state for each tag, the sweep drops the stale tags and no other.
pub lookup-prune_stale :
    (tag_ttl : ℤ) (now k : ℕ) (tags : List (ℕ × TagState))
    → IsMap tags
    → lookup k (prune_stale tag_ttl now tags) ≡ keep_fresh tag_ttl now (lookup k tags)
unfolding prune_stale lookup
lookup-prune_stale tag_ttl now k [] h = refl
lookup-prune_stale tag_ttl now k ((j, st) ∷ tags) h = ground (
  arith,
  lookup-prune_stale tag_ttl now k tags h.1,
  lookup-IsUnkeyed k tags,
  λ (e : j ≡ k). subst (λ i. IsUnkeyed i tags) e h.0,
)

kept_fresh :
    (t now : ℕ) (old : Option TagState) (st : TagState)
    → t < max_duration
    → (keep_fresh (pos t) now old ≡ some st) ↔ ((old ≡ some st) × (now ≤ st.last_seen + t))
unfolding is_stale
kept_fresh t now none st h = (λ e. absurd (ground (arith, e)), λ q. absurd (ground (arith, q.0)))
kept_fresh t now (some old) st h = (λ e. ground (arith, e), λ q. ground (arith, q.0, q.1))

-- In a map with one state for each tag, and with a time to live from zero to just below the longest
-- duration, the sweep leaves a tag its state if it was seen no longer ago than that time (so also
-- if its stamp is in the future), and no other entry.
pub prune_stale_keeps_fresh :
    (t now k : ℕ) (tags : List (ℕ × TagState)) (st : TagState)
    → IsMap tags
    → t < max_duration
    → (lookup k (prune_stale (pos t) now tags) ≡ some st)
      ↔ ((lookup k tags ≡ some st) × (now ≤ st.last_seen + t))
prune_stale_keeps_fresh t now k tags st h b =
    rw (lookup-prune_stale (pos t) now k tags h) (kept_fresh t now (lookup k tags) st b)

-- Whether the call that finds the engine in this state sweeps.
abbrev pub sweeps : Engine → Bool
sweeps e = ltb_ℤ (pos 0) e.tag_ttl && leb e.cleanup_every (e.cleanup_counter + 1)

pub lookup-clean_up :
    (now k : ℕ) (e : Engine)
    → IsMap e.tags
    → lookup k (clean_up now e).tags
      ≡ (if sweeps e then keep_fresh e.tag_ttl now (lookup k e.tags) else lookup k e.tags)
unfolding clean_up
lookup-clean_up now k e h = ground (arith, lookup-prune_stale e.tag_ttl now k e.tags h)

-- The state of the tag after its own position: `observe` of the set that the position lies in.
abbrev pub after_position : ℕ → Serial → PositionV3 → Engine → TagState × Bool
after_position now serial p e =
    observe e.hysteresis (contains e (point_of p)) (record (tag_of e serial) { last_seen = now })

observe-last_seen :
    (hysteresis : ℕ) (z : ZoneSet) (st : TagState)
    → (observe hysteresis z st).0.last_seen ≡ st.last_seen
unfolding observe count_proposal commit_proposal
observe-last_seen hysteresis z st = ground arith

seen_now :
    (tag_ttl : ℤ) (now : ℕ) (st : TagState)
    → ltb_ℤ (pos 0) tag_ttl ≡ true
    → st.last_seen ≡ now
    → is_stale tag_ttl now st ≡ false
unfolding is_stale
seen_now tag_ttl now st h e = ground arith

-- In an engine with one state for each tag, a position changes the state of its own tag as
-- `observe` of the zones it lies in says, and no other tag's; the call that sweeps drops the stale
-- ones of the others, never the tag itself.
pub lookup-on_position :
    (now serial k : ℕ) (p : PositionV3) (e : Engine)
    → IsMap e.tags
    → lookup k (on_position now serial p e).0.tags ≡ (
        if serial == k
        then some (after_position now serial p e).0
        else if sweeps e
        then keep_fresh e.tag_ttl now (lookup k e.tags)
        else lookup k e.tags)
unfolding on_position observe
lookup-on_position now serial k p e h =
    let st = (after_position now serial p e).0 in
    let tags = insert serial st e.tags in
    lookup-clean_up now k (record e { tags = tags }) (insert-IsMap serial st e.tags h)
    ∙ ground (
      arith,
      lookup-insert serial k st e.tags,
      seen_now e.tag_ttl now st,
      observe-last_seen e.hysteresis (contains e (point_of p))
          (record (tag_of e serial) { last_seen = now }),
    )

clean_up-IsMap : (now : ℕ) (e : Engine) → IsMap e.tags → IsMap (clean_up now e).tags
unfolding clean_up
clean_up-IsMap now e h = elim (Bool-cases (sweeps e)) [
  | inl sweep ↦ rw sweep (prune_stale-IsMap e.tag_ttl now e.tags h)
  | inr skip ↦ rw skip h
]

pub on_position-IsMap :
    (now serial : ℕ) (p : PositionV3) (e : Engine)
    → IsMap e.tags
    → IsMap (on_position now serial p e).0.tags
unfolding on_position
on_position-IsMap now serial p e h = clean_up-IsMap now _ (insert-IsMap serial _ e.tags h)
