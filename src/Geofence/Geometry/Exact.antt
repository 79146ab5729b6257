-- ===== src/Geofence/Geometry/Exact.antt =====
-- The int64 arithmetic of `PointInPolygon` on coordinates below 2 ^ 30, where nothing overflows.
use mathlib.Core.Path.{ap₂}
use cdp_go.Base.{arith, false, refl, suc, true, zero, ℕ, ◌*◌, ◌+◌, ◌-◌, ◌<◌, ◌^◌, ◌≡◌}
use cdp_go.Base.Int.{
  IsWithin, ltb_ℤ, neg_part, negsuc, pos, pos_part, signed, sub_ℕ, wrap, ℤ, ◌*ℤ◌, ◌-ℤ◌,
}
use cdp_go.Geofence.Geometry.{Point, mul64, sub64}

-- A coordinate of that size.
abbrev pub IsSmall : ℤ → Type 0
IsSmall a = (pos_part a < 2 ^ 30) × (neg_part a < 2 ^ 30)

pub record IsSmallPoint (p : Point) : Type 0 where
  pub x : IsSmall p.x
  pub y : IsSmall p.y

-- How far `b` is above `a`, 0 if it is below.
abbrev pub gap : ℤ → ℤ → ℕ
gap a b = (pos_part b + neg_part a) - (pos_part a + neg_part b)

-- The integer -n.
abbrev pub minus_ℕ : ℕ → ℤ
minus_ℕ zero = pos 0
minus_ℕ (suc n) = negsuc n

pub wrap64_same : (a : ℤ) → IsWithin (2 ^ 64) a → wrap (2 ^ 64) a ≡ a
unfolding wrap signed
wrap64_same (pos n) h = ground arith
wrap64_same (negsuc n) h = ground arith

sub_above : (a b : ℤ) → ltb_ℤ b a ≡ false → b -ℤ a ≡ pos (gap a b)
unfolding ◌-ℤ◌
sub_above a b h = ground arith

sub_below : (a b : ℤ) → ltb_ℤ b a ≡ true → b -ℤ a ≡ minus_ℕ (gap b a)
unfolding ◌-ℤ◌
sub_below a b h = ground arith

pub sub64_above : (a b : ℤ) → IsSmall a → IsSmall b → ltb_ℤ b a ≡ false → sub64 b a ≡ pos (gap a b)
unfolding sub64
sub64_above a b ha hb h = rw (sub_above a b h) (wrap64_same (pos (gap a b)) (omega arith))

pub sub64_below :
    (a b : ℤ) → IsSmall a → IsSmall b → ltb_ℤ b a ≡ true → sub64 b a ≡ minus_ℕ (gap b a)
unfolding sub64
sub64_below a b ha hb h = rw (sub_below a b h) (wrap64_same (minus_ℕ (gap b a)) (ground arith))

mul_bound : (m n : ℕ) → m < 2 ^ 31 → n < 2 ^ 31 → m * n < 2 ^ 63
mul_bound m n hm hn = grind arith

minus_parts : (n : ℕ) → (pos_part (minus_ℕ n) ≡ 0) × (neg_part (minus_ℕ n) ≡ n)
minus_parts zero = (refl, refl)
minus_parts (suc n) = (refl, refl)

sub_ℕ_zero : (n : ℕ) → (sub_ℕ n 0 ≡ pos n) × (sub_ℕ 0 n ≡ minus_ℕ n)
sub_ℕ_zero zero = (refl, refl)
sub_ℕ_zero (suc n) = (ground arith, ground arith)

minus-IsWithin : (n : ℕ) → n < 2 ^ 63 → IsWithin (2 ^ 64) (minus_ℕ n)
minus-IsWithin n h = omega (arith, minus_parts n)

mul_of_parts :
    (a b : ℤ) (u v : ℕ)
    → pos_part a * pos_part b + neg_part a * neg_part b ≡ u
    → pos_part a * neg_part b + neg_part a * pos_part b ≡ v
    → a *ℤ b ≡ sub_ℕ u v
unfolding ◌*ℤ◌
mul_of_parts a b u v e f = ap₂ sub_ℕ e f

module _ (m n : ℕ) (hm : m < 2 ^ 31) (hn : n < 2 ^ 31) where
  product_bound : m * n < 2 ^ 63
  product_bound = mul_bound m n hm hn

  pub mul64_pos_pos : mul64 (pos m) (pos n) ≡ pos (m * n)
  unfolding mul64
  mul64_pos_pos =
      rw (mul_of_parts (pos m) (pos n) (m * n) 0 (omega arith) (omega arith))
        (rw (sub_ℕ_zero (m * n)).0 (wrap64_same (pos (m * n)) (omega (arith, product_bound))))

  pub mul64_minus_minus : mul64 (minus_ℕ m) (minus_ℕ n) ≡ pos (m * n)
  unfolding mul64
  mul64_minus_minus =
      rw
        (mul_of_parts (minus_ℕ m) (minus_ℕ n) (m * n) 0
          (rw ((minus_parts m).0, (minus_parts m).1, (minus_parts n).0, (minus_parts n).1)
            (omega arith))
          (rw ((minus_parts m).0, (minus_parts m).1, (minus_parts n).0, (minus_parts n).1)
            (omega arith)))
        (rw (sub_ℕ_zero (m * n)).0 (wrap64_same (pos (m * n)) (omega (arith, product_bound))))

  pub mul64_pos_minus : mul64 (pos m) (minus_ℕ n) ≡ minus_ℕ (m * n)
  unfolding mul64
  mul64_pos_minus =
      rw
        (mul_of_parts (pos m) (minus_ℕ n) 0 (m * n)
          (rw ((minus_parts n).0, (minus_parts n).1) (omega arith))
          (rw ((minus_parts n).0, (minus_parts n).1) (omega arith)))
        (rw (sub_ℕ_zero (m * n)).1
          (wrap64_same (minus_ℕ (m * n)) (minus-IsWithin (m * n) product_bound)))

  pub mul64_minus_pos : mul64 (minus_ℕ m) (pos n) ≡ minus_ℕ (m * n)
  unfolding mul64
  mul64_minus_pos =
      rw
        (mul_of_parts (minus_ℕ m) (pos n) 0 (m * n)
          (rw ((minus_parts m).0, (minus_parts m).1) (omega arith))
          (rw ((minus_parts m).0, (minus_parts m).1) (omega arith)))
        (rw (sub_ℕ_zero (m * n)).1
          (wrap64_same (minus_ℕ (m * n)) (minus-IsWithin (m * n) product_bound)))
