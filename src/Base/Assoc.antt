-- ===== src/Base/Assoc.antt =====
-- A Go map with integer keys as an association list: the first entry of a key counts.
use mathlib.Core.Path.{subst}
use cdp_go.Base.{
  ==_iff, All, Bool-cases, List, Option, [], arith, if◌then◌else◌, inl, inr, none, refl, some, ℕ,
  ◌==◌, ◌∷◌, ◌≡◌, ◌≢◌,
}

module _ {ℓ} {V : Type ℓ} where
  -- `v, ok := m[k]`.
  unfoldable pub lookup : ℕ → List (ℕ × V) → Option V
  lookup k [] = none
  lookup k ((j, v) ∷ m) = if j == k then some v else lookup k m

  -- What holds of every entry holds of what is found.
  pub lookup-All {κ} :
      (P : ℕ → V → Type κ) (m : List (ℕ × V))
      → All (λ (p : ℕ × V). P p.0 p.1) m
      → (k : ℕ) {v : V} → lookup k m ≡ some v
      → P k v
  unfolding lookup
  lookup-All P [] h k e = cc
  lookup-All P ((j, w) ∷ m) h k {v} e = elim (Bool-cases (j == k)) [
    | inl same ↦
        let found : w ≡ v = ground arith in
        let here : j ≡ k = (==_iff j k).0 same in subst (P k) found (subst (λ i. P i w) here h.0)
    | inr other ↦ lookup-All P m h.1 k (rw other at e)
  ]

module _ {ℓ} {V : Type ℓ} where
  -- `m[k] = v`.
  unfoldable pub insert : ℕ → V → List (ℕ × V) → List (ℕ × V)
  insert key new [] = (key, new) ∷ []
  insert key new ((other, old) ∷ rest) =
      if other == key then (key, new) ∷ rest else (other, old) ∷ insert key new rest

  pub lookup-insert :
      (key k : ℕ) (new : V) (entries : List (ℕ × V))
      → lookup k (insert key new entries) ≡ (if key == k then some new else lookup k entries)
  unfolding lookup insert
  lookup-insert key k new [] = refl
  lookup-insert key k new ((other, old) ∷ rest) = ground (arith, lookup-insert key k new rest)

  -- No entry has the key.
  abbrev pub IsUnkeyed : ℕ → List (ℕ × V) → Type 0
  IsUnkeyed k = All (λ (q : ℕ × V). q.0 ≢ k)

  -- No key has two entries.
  abbrev pub IsMap : List (ℕ × V) → Type 0
  IsMap [] = Unit
  IsMap ((k, v) ∷ m) = IsUnkeyed k m × IsMap m

module _ {ℓ} {V : Type ℓ} where
  pub lookup-IsUnkeyed : (k : ℕ) (m : List (ℕ × V)) → IsUnkeyed k m → lookup k m ≡ none
  unfolding lookup
  lookup-IsUnkeyed k [] h = refl
  lookup-IsUnkeyed k ((j, v) ∷ m) h = ground (arith, lookup-IsUnkeyed k m h.1)

  insert-IsUnkeyed :
      (k j : ℕ) (v : V) (m : List (ℕ × V)) → j ≢ k → IsUnkeyed k m → IsUnkeyed k (insert j v m)
  unfolding insert
  insert-IsUnkeyed k j v [] n h = (n, tt)
  insert-IsUnkeyed k j v ((i, w) ∷ m) n h = ground (arith, insert-IsUnkeyed k j v m n h.1)

  pub insert-IsMap : (k : ℕ) (v : V) (m : List (ℕ × V)) → IsMap m → IsMap (insert k v m)
  unfolding insert
  insert-IsMap k v [] h = (tt, tt)
  insert-IsMap k v ((j, w) ∷ m) h = elim (Bool-cases (j == k)) [
    | inl same ↦
        let e : j ≡ k = (==_iff j k).0 same in rw same (subst (λ i. IsUnkeyed i m) e h.0, h.1)
    | inr other ↦
        rw other ((insert-IsUnkeyed j k v m (λ e. ground arith) h.0, insert-IsMap k v m h.1))
  ]
