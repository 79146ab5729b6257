-- ===== src/Strings/Trim.antt =====
-- What `strings.Trim` leaves of a string.
use cdp_go.Base.{
  ==_iff, All, Bool-cases, Bytes, [], ap, arith, inl, inr, refl, ℕ, ◌++◌, ◌==◌, ◌∙◌, ◌∷◌, ◌≡◌, ◌≢◌,
}
use cdp_go.Strings.{keep_before, trim, trim_left, trim_right}

-- The string does not start with `k`.
abbrev pub StartsWithout : ℕ → Bytes → Type 0
StartsWithout k [] = Unit
StartsWithout k (c ∷ s) = c ≢ k

-- It does not end with `k`.
abbrev pub EndsWithout : ℕ → Bytes → Type 0
EndsWithout k [] = Unit
EndsWithout k (c ∷ []) = c ≢ k
EndsWithout k (c ∷ d ∷ s) = EndsWithout k (d ∷ s)

module _ (k : ℕ) where
  trim_left-StartsWithout : (s : Bytes) → StartsWithout k (trim_left k s)
  unfolding trim_left
  trim_left-StartsWithout [] = tt
  trim_left-StartsWithout (c ∷ s) = ground (arith, trim_left-StartsWithout s)

  keep_before-EndsWithout :
      (c : ℕ) (s : Bytes) → EndsWithout k s → EndsWithout k (keep_before k c s)
  keep_before-EndsWithout c [] h = ground arith
  keep_before-EndsWithout c (d ∷ s) h = h

  trim_right-EndsWithout : (s : Bytes) → EndsWithout k (trim_right k s)
  unfolding trim_right
  trim_right-EndsWithout [] = tt
  trim_right-EndsWithout (c ∷ s) =
      keep_before-EndsWithout c (trim_right k s) (trim_right-EndsWithout s)

  keep_before-StartsWithout : (c : ℕ) (s : Bytes) → c ≢ k → StartsWithout k (keep_before k c s)
  keep_before-StartsWithout c [] h = ground arith
  keep_before-StartsWithout c (d ∷ s) h = h

  trim_right-StartsWithout : (s : Bytes) → StartsWithout k s → StartsWithout k (trim_right k s)
  unfolding trim_right
  trim_right-StartsWithout [] h = tt
  trim_right-StartsWithout (c ∷ s) h = keep_before-StartsWithout c (trim_right k s) h

  pub trim-StartsWithout : (s : Bytes) → StartsWithout k (trim k s)
  unfolding trim
  trim-StartsWithout s = trim_right-StartsWithout (trim_left k s) (trim_left-StartsWithout s)

  pub trim-EndsWithout : (s : Bytes) → EndsWithout k (trim k s)
  unfolding trim
  trim-EndsWithout s = trim_right-EndsWithout (trim_left k s)

  -- What is cut off at the start is `k` and nothing else.
  trim_left-append : (s : Bytes) → (pre : Bytes) × All (λ c. c ≡ k) pre × (s ≡ pre ++ trim_left k s)
  unfolding trim_left
  trim_left-append [] = ([], tt, refl)
  trim_left-append (c ∷ s) = elim (Bool-cases (c == k)) [
    | inl cut ↦
        let (pre, all, e) = trim_left-append s in
        (c ∷ pre, ((==_iff c k).0 cut, all), rw (cut, trim_left) (ap (◌∷◌ c) e))
    | inr stop ↦ ([], tt, rw (stop, trim_left) refl)
  ]

  keep_before-append :
      (c : ℕ) (t post : Bytes)
      → All (λ d. d ≡ k) post
      → (rest : Bytes) × All (λ d. d ≡ k) rest × (c ∷ (t ++ post) ≡ keep_before k c t ++ rest)
  keep_before-append c [] post h = elim (Bool-cases (c == k)) [
    | inl cut ↦ (c ∷ post, ((==_iff c k).0 cut, h), rw cut refl)
    | inr stop ↦ (post, h, rw stop refl)
  ]
  keep_before-append c (d ∷ t) post h = (post, h, refl)

  trim_right-append :
      (s : Bytes) → (post : Bytes) × All (λ c. c ≡ k) post × (s ≡ trim_right k s ++ post)
  unfolding trim_right
  trim_right-append [] = ([], tt, refl)
  trim_right-append (c ∷ s) =
      let (post, all, e) = trim_right-append s in
      let (rest, more, f) = keep_before-append c (trim_right k s) post all in
      (rest, more, ap (◌∷◌ c) e ∙ f)

  -- Trimming cuts off bytes `k` at the two ends and nothing else.
  pub trim-append :
      (s : Bytes)
      → (pre : Bytes) × (post : Bytes) × All (λ c. c ≡ k) pre
        × All (λ c. c ≡ k) post
        × (s ≡ pre ++ (trim k s ++ post))
  unfolding trim
  trim-append s =
      let (pre, first, e) = trim_left-append s in
      let (post, last, f) = trim_right-append (trim_left k s) in
      (pre, post, first, last, e ∙ ap (◌++◌ pre) f)

module _ {κ} (P : ℕ → Type κ) (k : ℕ) where
  trim_left-All : (s : Bytes) → All P s → All P (trim_left k s)
  unfolding trim_left
  trim_left-All [] h = tt
  trim_left-All (c ∷ s) h = elim (Bool-cases (c == k)) [
    | inl cut ↦ rw cut (trim_left-All s h.1)
    | inr stop ↦ rw stop h
  ]

  keep_before-All : (c : ℕ) (s : Bytes) → P c → All P s → All P (keep_before k c s)
  keep_before-All c [] p h = elim (Bool-cases (c == k)) [
    | inl cut ↦ rw cut tt
    | inr stop ↦ rw stop (p, tt)
  ]
  keep_before-All c (d ∷ s) p h = (p, h)

  trim_right-All : (s : Bytes) → All P s → All P (trim_right k s)
  unfolding trim_right
  trim_right-All [] h = tt
  trim_right-All (c ∷ s) h = keep_before-All c (trim_right k s) h.0 (trim_right-All s h.1)

  -- No byte is new.
  pub trim-All : (s : Bytes) → All P s → All P (trim k s)
  unfolding trim
  trim-All s h = trim_right-All (trim_left k s) (trim_left-All s h)
