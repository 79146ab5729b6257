-- ===== src/Geofence/Config/Outcome.antt =====
-- What each result of `Build` says of the configuration.
use mathlib.Core.List.{append-nil, append_assoc, map-append}
use mathlib.Core.Path.{subst}
use cdp_go.Base.{
  Bool-cases, Bytes, List, Option, Option-cases, [], arith, bytes_eq, bytes_eq_iff, false,
  if◌then◌else◌, inl, inr, length, length-append, map, none, refl, some, sym, true, ℕ, ◌++◌, ◌+◌,
  ◌∙◌, ◌∷◌, ◌≡◌, ◌≢◌,
}
use cdp_go.Base.Int.{ltb_ℤ, pos}
use cdp_go.Cdp.Packet.Termination.{NoFault}
use cdp_go.Cdp.Result.{Result, Result-cases, err, fault, ok}
use cdp_go.Geofence.Config.{
  BuildError, GeofenceConfig, ZoneConfig, ZoneError, add_zone, bad_zone, build, build_loop,
  configured_zone, duplicate_slug, negative_hysteresis, negative_ttl, new_zone, or_bad_zone, points,
  rgb_of, seen_name, zone_of,
}
use cdp_go.Geofence.Geometry.{Point, Rgb, Zone}
use cdp_go.Geofence.Names.{AreDistinct, IsNew}
use cdp_go.Strings.{Unicode}

-- The zones are those of the entries, in their order.
abbrev pub AreBuilt : Unicode → List ZoneConfig → List Zone → Type 0
AreBuilt u [] [] = Unit
AreBuilt u (zc ∷ configs) (z ∷ zones) = (configured_zone u zc ≡ ok z) × AreBuilt u configs zones
AreBuilt u _ _ = ⊥

abbrev pub slugs_of : List Zone → List Bytes
slugs_of = map (λ (z : Zone). z.slug)

-- The name of the last zone with the slug.
unfoldable pub owner : Bytes → List Zone → Option Bytes
owner slug [] = none
owner slug (z ∷ zones) = elim (owner slug zones) [
  | some name ↦ some name
  | none ↦ if bytes_eq z.slug slug then some z.name else none
]

-- The entries before the one at index `i`, that one, and the zones of those before.
pub record Reached (u : Unicode) (configs : List ZoneConfig) (i : ℕ) : Type 0 where
  pub before : List ZoneConfig
  pub entry : ZoneConfig
  pub after : List ZoneConfig
  pub built : List Zone
  pub splits : configs ≡ before ++ (entry ∷ after)
  pub index : i ≡ length before
  pub are_built : AreBuilt u before built
  pub distinct : AreDistinct (slugs_of built)

-- What the loop over the entries returns.
abbrev pub ZonesOutcome : Unicode → List ZoneConfig → Result BuildError (List Zone) → Type 0
ZonesOutcome u configs (ok zones) = AreBuilt u configs zones × AreDistinct (slugs_of zones)
ZonesOutcome u configs (err (bad_zone i e)) =
    (r : Reached u configs i) × (configured_zone u r.entry ≡ err e)
ZonesOutcome u configs (err (duplicate_slug i name slug prev)) =
    (r : Reached u configs i) × (z : Zone) × (configured_zone u r.entry ≡ ok z)
    × (name ≡ z.name)
    × (slug ≡ z.slug)
    × (owner slug r.built ≡ some prev)
ZonesOutcome u configs _ = ⊥

abbrev pub BuildOutcome : Unicode → GeofenceConfig → Result BuildError (List Zone) → Type 0
BuildOutcome u c (err (negative_hysteresis h)) =
    (h ≡ c.hysteresis) × (ltb_ℤ c.hysteresis (pos 0) ≡ true)
BuildOutcome u c (err (negative_ttl t)) =
    (ltb_ℤ c.hysteresis (pos 0) ≡ false) × (t ≡ c.tag_ttl) × (ltb_ℤ c.tag_ttl (pos 0) ≡ true)
BuildOutcome u c r =
    (ltb_ℤ c.hysteresis (pos 0) ≡ false)
    × (ltb_ℤ c.tag_ttl (pos 0) ≡ false)
    × ZonesOutcome u c.zones r

-- The map has the names of the zones `old` under their slugs.
abbrev IsSeen : List (Bytes × Bytes) → List Zone → Type 0
IsSeen seen old = (slug : Bytes) → seen_name slug seen ≡ owner slug old

owner-append :
    (slug : Bytes) (z : Zone) (old : List Zone)
    → owner slug (old ++ (z ∷ [])) ≡ (if bytes_eq z.slug slug then some z.name else owner slug old)
unfolding owner
owner-append slug z [] = refl
owner-append slug z (y ∷ old) = ground (arith, owner-append slug z old)

IsSeen-append :
    (seen : List (Bytes × Bytes)) (z : Zone) (old : List Zone)
    → IsSeen seen old
    → IsSeen ((z.slug, z.name) ∷ seen) (old ++ (z ∷ []))
unfolding seen_name
IsSeen-append seen z old h slug = ground (arith, owner-append slug z old, h slug)

-- A slug without an owner is none of the slugs.
owner-IsNew :
    (slug : Bytes) (zones : List Zone) → owner slug zones ≡ none → IsNew slug (slugs_of zones)
unfolding owner
owner-IsNew slug [] h = tt
owner-IsNew slug (z ∷ zones) h = ground (arith, owner-IsNew slug zones, bytes_eq_iff z.slug slug)

AreBuilt-append :
    (u : Unicode) (before : List ZoneConfig) (zc : ZoneConfig) (old : List Zone) (z : Zone)
    → AreBuilt u before old
    → configured_zone u zc ≡ ok z
    → AreBuilt u (before ++ (zc ∷ [])) (old ++ (z ∷ []))
AreBuilt-append u [] zc [] z h e = (e, tt)
AreBuilt-append u [] zc (y ∷ old) z h e = absurd h
AreBuilt-append u (x ∷ before) zc [] z h e = absurd h
AreBuilt-append u (x ∷ before) zc (y ∷ old) z h e = (h.0, AreBuilt-append u before zc old z h.1 e)

IsNew-append : (a b : Bytes) (xs : List Bytes) → IsNew a xs → a ≢ b → IsNew a (xs ++ (b ∷ []))
IsNew-append a b [] h n = (n, tt)
IsNew-append a b (x ∷ xs) h n = (h.0, IsNew-append a b xs h.1 n)

AreDistinct-append :
    (xs : List Bytes) (b : Bytes) → AreDistinct xs → IsNew b xs → AreDistinct (xs ++ (b ∷ []))
AreDistinct-append [] b h n = (tt, tt)
AreDistinct-append (x ∷ xs) b h n =
    (IsNew-append x b xs h.0 (λ e. n.0 (sym e)), AreDistinct-append xs b h.1 n.1)

new_zone-NoFault :
    (u : Unicode) (name : Bytes) (vertices : List Point) (color : Rgb)
    → NoFault (new_zone u name vertices color)
unfolding new_zone zone_of
new_zone-NoFault u name [] color = ground arith
new_zone-NoFault u name (v ∷ vertices) color = ground arith

module _ (u : Unicode) (whole : List ZoneConfig) where
  -- What holds when the loop has done the entries `before` and stands in front of `rest`.
  record IsAt (before rest : List ZoneConfig) (i : ℕ) (seen : List (Bytes × Bytes))
      (old : List Zone) : Type 0 where
    splits : whole ≡ before ++ rest
    index : i ≡ length before
    are_built : AreBuilt u before old
    distinct : AreDistinct (slugs_of old)
    seen_names : IsSeen seen old

  abbrev reached :
      (before : List ZoneConfig) (zc : ZoneConfig) (rest : List ZoneConfig) (i : ℕ)
      (seen : List (Bytes × Bytes)) (old : List Zone)
      → IsAt before (zc ∷ rest) i seen old
      → Reached u whole i
  reached before zc rest i seen old at = record {
    before = before;
    entry = zc;
    after = rest;
    built = old;
    splits = at.splits;
    index = at.index;
    are_built = at.are_built;
    distinct = at.distinct;
  }

  IsAt-next :
      (before : List ZoneConfig) (zc : ZoneConfig) (rest : List ZoneConfig) (i : ℕ)
      (seen : List (Bytes × Bytes)) (old : List Zone) (z : Zone)
      → IsAt before (zc ∷ rest) i seen old
      → configured_zone u zc ≡ ok z
      → seen_name z.slug seen ≡ none
      → IsAt (before ++ (zc ∷ [])) rest (i + 1) ((z.slug, z.name) ∷ seen) (old ++ (z ∷ []))
  IsAt-next before zc rest i seen old z at e new = record {
    splits = at.splits ∙ sym (append_assoc before (zc ∷ []) rest);
    index = omega (arith, at.index, length-append before (zc ∷ []));
    are_built = AreBuilt-append u before zc old z at.are_built e;
    distinct = rw (map-append (λ (y : Zone). y.slug) old (z ∷ [])) (
        AreDistinct-append (slugs_of old) z.slug at.distinct
          (owner-IsNew z.slug old (sym (at.seen_names z.slug) ∙ new)));
    seen_names = IsSeen-append seen z old at.seen_names;
  }

  module _ (zc : ZoneConfig) (rest : List ZoneConfig) (i : ℕ) (seen : List (Bytes × Bytes))
      (old : List Zone) where
    build_loop_next :
        (z : Zone)
        → configured_zone u zc ≡ ok z
        → seen_name z.slug seen ≡ none
        → build_loop u (zc ∷ rest) i seen old
          ≡ build_loop u rest (i + 1) ((z.slug, z.name) ∷ seen) (old ++ (z ∷ []))
    unfolding build_loop or_bad_zone add_zone
    build_loop_next z e new = rw e (rw (new, add_zone) refl)

    build_loop_duplicate :
        (z : Zone) (prev : Bytes)
        → configured_zone u zc ≡ ok z
        → seen_name z.slug seen ≡ some prev
        → build_loop u (zc ∷ rest) i seen old ≡ err (duplicate_slug i z.name z.slug prev)
    unfolding build_loop or_bad_zone add_zone
    build_loop_duplicate z prev e found = rw e (rw (found, add_zone) refl)

    build_loop_bad :
        (x : ZoneError)
        → configured_zone u zc ≡ err x
        → build_loop u (zc ∷ rest) i seen old ≡ err (bad_zone i x)
    unfolding build_loop or_bad_zone
    build_loop_bad x e = rw e refl

  build_loop-ZonesOutcome :
      (rest before : List ZoneConfig) (i : ℕ) (seen : List (Bytes × Bytes)) (old : List Zone)
      → IsAt before rest i seen old
      → ZonesOutcome u whole (build_loop u rest i seen old)
  build_loop-ZonesOutcome [] before i seen old at =
      let all = at.splits ∙ append-nil before in
      unfold build_loop in (subst (λ cs. AreBuilt u cs old) (sym all) at.are_built, at.distinct)
  build_loop-ZonesOutcome (zc ∷ rest) before i seen old at =
      elim (Result-cases (configured_zone u zc)) [
        | inl (z, e) ↦ elim (Option-cases (seen_name z.slug seen)) [
          | inl new ↦ rw (build_loop_next zc rest i seen old z e new) (
              build_loop-ZonesOutcome rest (before ++ (zc ∷ [])) (i + 1) ((z.slug, z.name) ∷ seen)
                (old ++ (z ∷ [])) (IsAt-next before zc rest i seen old z at e new))
          | inr (prev, found) ↦ rw (build_loop_duplicate zc rest i seen old z prev e found) (
            reached before zc rest i seen old at,
            z,
            e,
            refl,
            refl,
            sym (at.seen_names z.slug) ∙ found,
          )
        ]
        | inr (inl (x, e)) ↦
            rw (build_loop_bad zc rest i seen old x e) (reached before zc rest i seen old at, e)
        | inr (inr e) ↦
            absurd
              (subst NoFault e (new_zone-NoFault u zc.name (points zc.vertices) (rgb_of zc.rgb)))
      ]

ZonesOutcome→BuildOutcome :
    (u : Unicode) (c : GeofenceConfig) (r : Result BuildError (List Zone))
    → ltb_ℤ c.hysteresis (pos 0) ≡ false
    → ltb_ℤ c.tag_ttl (pos 0) ≡ false
    → ZonesOutcome u c.zones r
    → BuildOutcome u c r
ZonesOutcome→BuildOutcome u c (ok zones) h t o = (h, t, o)
ZonesOutcome→BuildOutcome u c (err (negative_hysteresis x)) h t o = absurd o
ZonesOutcome→BuildOutcome u c (err (negative_ttl x)) h t o = absurd o
ZonesOutcome→BuildOutcome u c (err (bad_zone i e)) h t o = (h, t, o)
ZonesOutcome→BuildOutcome u c (err (duplicate_slug i n s p)) h t o = (h, t, o)
ZonesOutcome→BuildOutcome u c fault h t o = absurd o

-- `Build` ends with the zones or an error, never a panic. Zones are returned only if neither number
-- is negative, each entry makes a zone, in their order, and no two slugs are equal. Each error
-- tells what is wrong: a negative number, or the first entry, with its index, that makes no zone
-- or a zone whose slug an earlier zone has, with that zone's name.
pub build-BuildOutcome : (u : Unicode) (c : GeofenceConfig) → BuildOutcome u c (build u c)
unfolding build
build-BuildOutcome u c = elim (Bool-cases (ltb_ℤ c.hysteresis (pos 0))) [
  | inl negative ↦ rw negative (refl, negative)
  | inr h ↦ elim (Bool-cases (ltb_ℤ c.tag_ttl (pos 0))) [
    | inl negative ↦ rw (h, negative) (h, refl, negative)
    | inr t ↦
        rw (h, t)
          (ZonesOutcome→BuildOutcome u c (build_loop u c.zones 0 [] []) h t (
            build_loop-ZonesOutcome u c.zones c.zones [] 0 [] [] (record {
              splits = refl;
              index = refl;
              are_built = tt;
              distinct = tt;
              seen_names = λ slug. unfold seen_name owner in refl;
            })))
  ]
]
