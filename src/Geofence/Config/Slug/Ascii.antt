-- ===== src/Geofence/Config/Slug/Ascii.antt =====
-- `slugifyZoneName` of internal/geofence/geometry.go, byte by byte, on names in ASCII.
use mathlib.Core.Path.{subst}
use cdp_go.Base.{
  All, Bool-cases, Bytes, [], ap, arith, inl, inr, leb, map, not, refl, true, ℕ, ◌&&◌, ◌++◌, ◌+◌,
  ◌<◌, ◌==◌, ◌∙◌, ◌∷◌, ◌≡◌, ◌≤◌, ◌⊎◌,
}
use cdp_go.Geofence.Config.{slug_byte, slugify_zone_name}
use cdp_go.Strings.{Unicode, is_ascii, lower_byte, split, to_lower, trim}
use cdp_go.Strings.Tokens.{IsTokenByte}
use cdp_go.Strings.Trim.{
  EndsWithout, StartsWithout, trim-EndsWithout, trim-StartsWithout, trim-append,
}

-- The byte that a slug has for a byte of the name: an underscore for one that may not stand in a
-- token, the small letter for a capital, and itself for any other.
pub data SlugByte (c : ℕ) (d : ℕ) : Type 0 where
  replaced : ¬ IsTokenByte c → d ≡ b'_' → SlugByte c d
  lowered : b'A' ≤ c → c ≤ b'Z' → d ≡ c + 32 → SlugByte c d
  kept : IsTokenByte c → (c < b'A') ⊎ (b'Z' < c) → d ≡ c → SlugByte c d

-- The second string has the slug's byte for each byte of the first.
abbrev pub AreSlugBytes : Bytes → Bytes → Type 0
AreSlugBytes [] [] = Unit
AreSlugBytes (c ∷ s) (d ∷ t) = SlugByte c d × AreSlugBytes s t
AreSlugBytes _ _ = ⊥

-- Bytes for which an underscore stands.
abbrev pub AreEdges : Bytes → Type 0
AreEdges = All (λ c. SlugByte c b'_')

-- The slug of the name: behind and before bytes for which an underscore stands, the name has a byte
-- for each byte of the slug, which neither starts nor ends with an underscore.
abbrev pub IsSlugOf : Bytes → Bytes → Type 0
IsSlugOf name slug =
    (pre : Bytes) × (mid : Bytes) × (post : Bytes) × (name ≡ pre ++ (mid ++ post))
    × AreEdges pre
    × AreSlugBytes mid slug
    × AreEdges post
    × StartsWithout b'_' slug
    × EndsWithout b'_' slug

slug_byte-SlugByte : (c : ℕ) → SlugByte c (slug_byte (lower_byte c))
slug_byte-SlugByte c = elim (Bool-cases (slug_byte c == b'_' && not (c == b'_'))) [
  | inl cut ↦ replaced (λ h. ground (arith, h)) (ground arith)
  | inr stays ↦ elim (Bool-cases (leb b'A' c && leb c b'Z')) [
    | inl capital ↦ lowered (ground arith) (ground arith) (ground arith)
    | inr other ↦ kept (ground arith) (ground arith) (ground arith)
  ]
]

map-AreSlugBytes : (s : Bytes) → AreSlugBytes s (map slug_byte (map lower_byte s))
map-AreSlugBytes [] = tt
map-AreSlugBytes (c ∷ s) = (slug_byte-SlugByte c, map-AreSlugBytes s)

split-AreSlugBytes :
    (s xs ys : Bytes)
    → AreSlugBytes s (xs ++ ys)
    → (a : Bytes) × (b : Bytes) × (s ≡ a ++ b) × AreSlugBytes a xs × AreSlugBytes b ys
split-AreSlugBytes s [] ys h = ([], s, refl, tt, h)
split-AreSlugBytes [] (d ∷ xs) ys h = absurd h
split-AreSlugBytes (c ∷ s) (d ∷ xs) ys h =
    let (a, b, e, first, last) = split-AreSlugBytes s xs ys h.1 in
    (c ∷ a, b, ap (◌∷◌ c) e, (h.0, first), last)

-- Bytes of which the slug had underscores that were cut off.
edges : (s t : Bytes) → All (λ d. d ≡ b'_') t → AreSlugBytes s t → AreEdges s
edges [] [] h k = tt
edges [] (d ∷ t) h k = absurd k
edges (c ∷ s) [] h k = absurd k
edges (c ∷ s) (d ∷ t) h k = (subst (SlugByte c) h.0 k.0, edges s t h.1 k.1)

-- The slug of an ASCII name is the name with an underscore for each dot, star, greater-than sign,
-- space, tab, line feed and carriage return and with small letters, less the underscores at its
-- ends: no other byte is changed, dropped or added.
pub slugify_zone_name-IsSlugOf :
    (u : Unicode) (name : Bytes) → is_ascii name ≡ true → IsSlugOf name (slugify_zone_name u name)
unfolding slugify_zone_name to_lower
slugify_zone_name-IsSlugOf u name h =
    let t = map slug_byte (map lower_byte name) in
    let (pre, post, first, last, e) = trim-append b'_' t in
    let (a, rest, split, front, behind) =
      split-AreSlugBytes name pre (trim b'_' t ++ post)
        (subst (AreSlugBytes name) e (map-AreSlugBytes name)) in
    let (mid, z, cut, middle, back) = split-AreSlugBytes rest (trim b'_' t) post behind in
    rw h (
      a,
      mid,
      z,
      split ∙ ap (◌++◌ a) cut,
      edges a pre first front,
      middle,
      edges z post last back,
      trim-StartsWithout b'_' t,
      trim-EndsWithout b'_' t,
    )
