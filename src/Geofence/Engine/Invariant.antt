-- ===== src/Geofence/Engine/Invariant.antt =====
-- What holds of the engine between two calls of `OnPosition`.
use mathlib.Core.List.{append-nil, append_assoc, concat-ne-nil}
use cdp_go.Base.{
  Bool-cases, Bytes, List, Option-cases, [], ap, arith, if◌then◌else◌, inl, inr, map, refl, some,
  sym, ℕ, ◌++◌, ◌<◌, ◌∙◌, ◌∷◌, ◌≡◌, ◌≢◌,
}
use cdp_go.Base.Assoc.{IsMap, lookup}
use cdp_go.Base.Int.{ℤ}
use cdp_go.Cdp.Serial.{Serial}
use cdp_go.Geofence.Engine.{
  Engine, TagState, commit_proposal, contains, count_proposal, hits_loop, new_engine, new_tag,
  sort_set, tag_of,
}
use cdp_go.Geofence.Engine.Counting.{IsCounting, new_tag-IsCounting, observe, observe-IsCounting}
use cdp_go.Geofence.Geometry.{Point, Zone, zone_contains}
use cdp_go.Geofence.Names.{
  AreDistinct, IsNew, IsSorted, insert_name, sort_names, sort_names-IsSorted,
}
use cdp_go.Geofence.ZoneSet.{ZoneSet, append_name, elems, names, nil}

-- The names of the zones that contain `p`, in the order of the configuration.
unfoldable pub zone_names : List Zone → Point → List Bytes
zone_names [] p = []
zone_names (z ∷ zones) p =
    if zone_contains z p then z.name ∷ zone_names zones p else zone_names zones p

abbrev pub names_of : List Zone → List Bytes
names_of = map (λ (z : Zone). z.name)

hits_loop-zone_names :
    (zones : List Zone) (p : Point) (hits : ZoneSet)
    → elems (hits_loop zones p hits) ≡ elems hits ++ zone_names zones p
unfolding hits_loop zone_names
hits_loop-zone_names [] p hits = sym (append-nil (elems hits))
hits_loop-zone_names (z ∷ zones) p hits = elim (Bool-cases (zone_contains z p)) [
  | inl inside ↦ rw inside (
      hits_loop-zone_names zones p (append_name hits z.name)
      ∙ append_assoc (elems hits) (z.name ∷ []) (zone_names zones p))
  | inr outside ↦ rw outside (hits_loop-zone_names zones p hits)
]

-- A slice that the loop makes has a name in it.
hits_loop-made :
    (zones : List Zone) (p : Point) (hits : ZoneSet)
    → hits ≢ names []
    → hits_loop zones p hits ≢ names []
unfolding hits_loop
hits_loop-made [] p hits h = h
hits_loop-made (z ∷ zones) p hits h =
    hits_loop-made zones p _ (ground (arith, concat-ne-nil z.name (elems hits)))

insert_name-ne-nil : (a : Bytes) (xs : List Bytes) → insert_name a xs ≢ []
unfolding insert_name
insert_name-ne-nil a [] = λ e. cc
insert_name-ne-nil a (x ∷ xs) = ground arith

elems-sort_set : (z : ZoneSet) → elems (sort_set z) ≡ sort_names (elems z)
unfolding sort_set sort_names
elems-sort_set nil = refl
elems-sort_set (names xs) = refl

sort_set-made : (z : ZoneSet) → z ≢ names [] → sort_set z ≢ names []
unfolding sort_set sort_names
sort_set-made nil h = λ e. cc
sort_set-made (names []) h = absurd (h refl)
sort_set-made (names (x ∷ xs)) h = λ e. insert_name-ne-nil x (sort_names xs) (ap elems e)

-- The set that a position lies in is the sorted list of the names of the zones that contain it.
pub contains-zone_names :
    (e : Engine) (p : Point) → elems (contains e p) ≡ sort_names (zone_names e.zones p)
unfolding contains
contains-zone_names e p =
    elems-sort_set (hits_loop e.zones p nil) ∙ ap sort_names (hits_loop-zone_names e.zones p nil)

pub contains-made : (e : Engine) (p : Point) → contains e p ≢ names []
unfolding contains
contains-made e p = sort_set-made (hits_loop e.zones p nil) (hits_loop-made e.zones p nil (λ q. cc))

zone_names-IsNew :
    (a : Bytes) (zones : List Zone) (p : Point)
    → IsNew a (names_of zones)
    → IsNew a (zone_names zones p)
unfolding zone_names
zone_names-IsNew a [] p h = tt
zone_names-IsNew a (z ∷ zones) p h = ground (arith, zone_names-IsNew a zones p h.1)

zone_names-AreDistinct :
    (zones : List Zone) (p : Point)
    → AreDistinct (names_of zones)
    → AreDistinct (zone_names zones p)
unfolding zone_names
zone_names-AreDistinct [] p h = tt
zone_names-AreDistinct (z ∷ zones) p h = elim (Bool-cases (zone_contains z p)) [
  | inl inside ↦
      rw inside ((zone_names-IsNew z.name zones p h.0, zone_names-AreDistinct zones p h.1))
  | inr outside ↦ rw outside (zone_names-AreDistinct zones p h.1)
]

pub contains-IsSorted :
    (e : Engine) (p : Point) → AreDistinct (names_of e.zones) → IsSorted (elems (contains e p))
contains-IsSorted e p h =
    rw (contains-zone_names e p)
      (sort_names-IsSorted (zone_names e.zones p) (zone_names-AreDistinct e.zones p h))

pub record IsTag (hysteresis : ℕ) (st : TagState) : Type 0 where
  pub counting : IsCounting hysteresis st
  pub sorted : IsSorted (elems st.committed)
  pub made : st.pending ≢ names []

pub record IsEngine (e : Engine) : Type 0 where
  pub positive : 0 < e.hysteresis
  pub distinct : AreDistinct (names_of e.zones)
  pub is_map : IsMap e.tags
  pub tags_are : (k : ℕ) {st : TagState} → lookup k e.tags ≡ some st → IsTag e.hysteresis st

pub new_tag-IsTag : (hysteresis : ℕ) → 0 < hysteresis → IsTag hysteresis new_tag
new_tag-IsTag hysteresis h = record {
  counting = new_tag-IsCounting hysteresis h;
  sorted = tt;
  made = λ e. cc;
}

pub tag_of-IsTag :
    (e : Engine) (serial : Serial) → IsEngine e → IsTag e.hysteresis (tag_of e serial)
unfolding tag_of
tag_of-IsTag e serial h = elim (Option-cases (lookup serial e.tags)) [
  | inl missing ↦ rw (missing, tag_of) (new_tag-IsTag e.hysteresis h.positive)
  | inr (st, found) ↦ rw (found, tag_of) (h.tags_are serial found)
]

pub observe-IsTag :
    (hysteresis : ℕ) (z : ZoneSet) (st : TagState)
    → 0 < hysteresis
    → z ≢ names []
    → IsSorted (elems z)
    → IsTag hysteresis st
    → IsTag hysteresis (observe hysteresis z st).0
observe-IsTag hysteresis z st h m s t = record {
  counting = observe-IsCounting hysteresis z st h t.counting;
  sorted = unfold observe count_proposal commit_proposal in ground (arith, s, t.sorted);
  made = unfold observe count_proposal commit_proposal in ground (arith, m, t.made);
}

none_tracked : (k : ℕ) {st : TagState} → ¬ (lookup k [] ≡ some st)
unfolding lookup
none_tracked k found = cc

-- A new engine over zones whose names differ satisfies the engine's invariant.
pub new_engine-IsEngine :
    (zones : List Zone) (hysteresis tag_ttl : ℤ)
    → AreDistinct (names_of zones)
    → IsEngine (new_engine zones hysteresis tag_ttl)
unfolding new_engine
new_engine-IsEngine zones hysteresis tag_ttl h = record {
  positive = ground arith;
  distinct = h;
  is_map = tt;
  tags_are = λ k {st} found. absurd (none_tracked k found);
}
