-- ===== src/Cdp/Readers/Wire.antt =====
-- Little-endian numbers as they are written, and how the readers find them in a buffer.
use mathlib.Core.List.{append_assoc}
use cdp_go.Base.{
  All, All-drop, All-take, Bytes, [], ap, arith, drop, drop-append, drop-drop, length,
  length-append, length-drop, length-take, refl, suc, sym, take, take-append, take-append-drop,
  zero, ℕ, ◌%◌, ◌*◌, ◌++◌, ◌+◌, ◌-◌, ◌/◌, ◌<◌, ◌^◌, ◌∙◌, ◌∷◌, ◌≡◌, ◌≤◌,
}
use cdp_go.Base.Int.{pattern_of, ℤ}
use cdp_go.Cdp.Readers.{IsByte, le_value, slice}
use cdp_go.Cdp.Result.{ok}
use native.Mathlib.Nat.{pow-suc}

-- `v` in `n` bytes, the lowest first.
unfoldable pub le : ℕ → ℕ → Bytes
le zero v = []
le (suc n) v = v % 256 ∷ le n (v / 256)

-- An integer in `n` bytes.
abbrev pub le_int : ℕ → ℤ → Bytes
le_int n z = le n (pattern_of (256 ^ n) z)

pub length-le : (n v : ℕ) → length (le n v) ≡ n
unfolding le
length-le zero v = refl
length-le (suc n) v = ap suc (length-le n (v / 256))

pub le_value-le : (n v : ℕ) → v < 256 ^ n → le_value (le n v) ≡ v
unfolding le le_value
le_value-le zero v h = omega arith
le_value-le (suc n) v h = omega (arith, le_value-le n (v / 256))

pub le_value-lt : (bs : Bytes) → All IsByte bs → le_value bs < 256 ^ length bs
unfolding le_value
le_value-lt [] h = omega arith
le_value-lt (b ∷ bs) h = omega (arith, le_value-lt bs h.1, pow-suc 256 (length bs))

pub le-le_value : (bs : Bytes) (n : ℕ) → All IsByte bs → n ≡ length bs → le n (le_value bs) ≡ bs
unfolding le le_value
le-le_value [] zero h e = refl
le-le_value [] (suc n) h e = absurd (omega arith)
le-le_value (b ∷ bs) zero h e = absurd (omega arith)
le-le_value (b ∷ bs) (suc n) h e =
    let low : (b + 256 * le_value bs) % 256 ≡ b = omega arith in
    let high : (b + 256 * le_value bs) / 256 ≡ le_value bs = omega arith in
    rw (low, high) (ap (◌∷◌ b) (le-le_value bs n h.1 (omega arith)))

pub le-IsByte : (n v : ℕ) → All IsByte (le n v)
unfolding le
le-IsByte zero v = tt
le-IsByte (suc n) v = (omega arith, le-IsByte n (v / 256))

module _ {E : Type 0} where
  -- A slice finds what stands between `front` and `back`.
  pub slice-append :
      (front mid back : Bytes) (lo hi : ℕ)
      → lo ≡ length front
      → hi ≡ lo + length mid
      → slice {E = E} (front ++ (mid ++ back)) lo hi ≡ ok mid
  unfolding slice
  slice-append front mid back lo hi el eh = ground (
    arith,
    length-append front (mid ++ back),
    length-append mid back,
    drop-append front (mid ++ back) lo,
    take-append mid back (hi - lo),
  )

  -- The same, behind one more piece.
  pub slice-append_after :
      (front before mid back : Bytes) (lo hi : ℕ)
      → lo ≡ length front + length before
      → hi ≡ lo + length mid
      → slice {E = E} (front ++ (before ++ (mid ++ back))) lo hi ≡ ok mid
  slice-append_after front before mid back lo hi el eh =
      rw (← append_assoc front before (mid ++ back))
        (slice-append (front ++ before) mid back lo hi (el ∙ sym (length-append front before)) eh)

  -- A slice within the buffer is no fault.
  pub slice_total :
      (b : Bytes) (lo hi n : ℕ)
      → hi ≡ lo + n
      → hi ≤ length b
      → slice {E = E} b lo hi ≡ ok (take n (drop lo b))
  unfolding slice
  slice_total b lo hi n e h = let width : hi - lo ≡ n = omega arith in ground arith

module _ (b : Bytes) (lo n : ℕ) (fits : lo + n ≤ length b) where
  pub length-slice : length (take n (drop lo b)) ≡ n
  length-slice = omega (arith, length-take n (drop lo b), length-drop lo b)

  -- The buffer from `lo` on is the slice and what follows it.
  pub drop-slice : drop lo b ≡ take n (drop lo b) ++ drop (lo + n) b
  drop-slice = sym (take-append-drop n (drop lo b)) ∙ rw (drop-drop lo n b)

pub slice-IsByte : (b : Bytes) (lo n : ℕ) → All IsByte b → All IsByte (take n (drop lo b))
slice-IsByte b lo n h = All-take IsByte n (drop lo b) (All-drop IsByte lo b h)
