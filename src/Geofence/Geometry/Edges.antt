-- ===== src/Geofence/Geometry/Edges.antt =====
-- Which edges the loop of `PointInPolygon` counts for a point beside, above or below the edge.
use cdp_go.Base.{
  Bool, Bool-cases, arith, false, inl, inr, not, suc, true, zero, ℕ, ◌*◌, ◌<◌, ◌≡◌, ◌≤◌,
}
use cdp_go.Base.Int.{ltb_ℤ, pos}
use cdp_go.Geofence.Geometry.{Point, bool_eq, crosses, mul64, sub64}
use cdp_go.Geofence.Geometry.Exact.{
  IsSmallPoint, gap, minus_ℕ, mul64_minus_minus, mul64_minus_pos, mul64_pos_minus, mul64_pos_pos,
  sub64_above, sub64_below,
}
use native.Mathlib.Nat.{mul-le-mul}

-- The edge passes the height of the point.
abbrev pub straddles : Point → Point → Point → Bool
straddles p i j = not (bool_eq (ltb_ℤ p.y i.y) (ltb_ℤ p.y j.y))

-- The comparison of the two products.
abbrev side : Point → Point → Point → Bool
side p i j = ltb_ℤ (mul64 (sub64 p.x i.x) (sub64 j.y i.y)) (mul64 (sub64 j.x i.x) (sub64 p.y i.y))

pos_pos : (m n : ℕ) → n ≤ m → ltb_ℤ (pos m) (pos n) ≡ false
pos_pos m n h = ground arith

pos_pos_lt : (m n : ℕ) → m < n → ltb_ℤ (pos m) (pos n) ≡ true
pos_pos_lt m n h = ground arith

pos_minus : (m n : ℕ) → ltb_ℤ (pos m) (minus_ℕ n) ≡ false
pos_minus m zero = ground arith
pos_minus m (suc n) = ground arith

minus_pos : (m n : ℕ) → 0 < m → ltb_ℤ (minus_ℕ m) (pos n) ≡ true
minus_pos zero n h = absurd (omega arith)
minus_pos (suc m) n h = ground arith

minus_minus : (m n : ℕ) → n < m → ltb_ℤ (minus_ℕ m) (minus_ℕ n) ≡ true
minus_minus zero n h = absurd (omega arith)
minus_minus (suc m) zero h = ground arith
minus_minus (suc m) (suc n) h = ground arith

products_le : (a b c d : ℕ) → c ≤ a → d ≤ b → c * d ≤ a * b
products_le a b c d h k = mul-le-mul h k

products_lt : (a b c d : ℕ) → c < a → 0 < d → d ≤ b → c * d < a * b
products_lt a b c d h z k = grind (arith, mul-le-mul {n₁ = suc c} {m₁ = a} {n₂ = d} {m₂ = b})

products_lt' : (a b c d : ℕ) → c < a → d < b → c * d < a * b
products_lt' a b c d h k = grind arith

products_pos : (a b : ℕ) → 0 < a → 0 < b → 0 < a * b
products_pos a b h k = grind arith

module _ (p i j : Point) (sp : IsSmallPoint p) (si : IsSmallPoint i) (sj : IsSmallPoint j) where
  -- The point is right of both ends; the edge goes up, or down.
  right_up :
      ltb_ℤ i.x p.x ≡ true
      → ltb_ℤ j.x p.x ≡ true
      → ltb_ℤ p.y i.y ≡ false
      → ltb_ℤ p.y j.y ≡ true
      → side p i j ≡ false
  right_up hi hj yi yj = elim (Bool-cases (ltb_ℤ j.x i.x)) [
    | inl back ↦
        rw
          (
            sub64_above i.x p.x si.x sp.x (ground arith),
            sub64_above i.y j.y si.y sj.y (ground arith),
            sub64_below i.x j.x si.x sj.x back,
            sub64_above i.y p.y si.y sp.y yi,
            mul64_pos_pos (gap i.x p.x) (gap i.y j.y) (omega arith) (omega arith),
            mul64_minus_pos (gap j.x i.x) (gap i.y p.y) (omega arith) (omega arith),
          )
          (pos_minus (gap i.x p.x * gap i.y j.y) (gap j.x i.x * gap i.y p.y))
    | inr forth ↦
        rw
          (
            sub64_above i.x p.x si.x sp.x (ground arith),
            sub64_above i.y j.y si.y sj.y (ground arith),
            sub64_above i.x j.x si.x sj.x forth,
            sub64_above i.y p.y si.y sp.y yi,
            mul64_pos_pos (gap i.x p.x) (gap i.y j.y) (omega arith) (omega arith),
            mul64_pos_pos (gap i.x j.x) (gap i.y p.y) (omega arith) (omega arith),
          )
          (pos_pos (gap i.x p.x * gap i.y j.y) (gap i.x j.x * gap i.y p.y) (
            products_le (gap i.x p.x) (gap i.y j.y) (gap i.x j.x) (gap i.y p.y) (ground arith)
              (ground arith)))
  ]

  right_down :
      ltb_ℤ i.x p.x ≡ true
      → ltb_ℤ j.x p.x ≡ true
      → ltb_ℤ p.y i.y ≡ true
      → ltb_ℤ p.y j.y ≡ false
      → side p i j ≡ true
  right_down hi hj yi yj = elim (Bool-cases (ltb_ℤ j.x i.x)) [
    | inl back ↦
        rw
          (
            sub64_above i.x p.x si.x sp.x (ground arith),
            sub64_below i.y j.y si.y sj.y (ground arith),
            sub64_below i.x j.x si.x sj.x back,
            sub64_below i.y p.y si.y sp.y yi,
            mul64_pos_minus (gap i.x p.x) (gap j.y i.y) (omega arith) (omega arith),
            mul64_minus_minus (gap j.x i.x) (gap p.y i.y) (omega arith) (omega arith),
          )
          (minus_pos (gap i.x p.x * gap j.y i.y) (gap j.x i.x * gap p.y i.y)
            (products_pos (gap i.x p.x) (gap j.y i.y) (ground arith) (ground arith)))
    | inr forth ↦
        rw
          (
            sub64_above i.x p.x si.x sp.x (ground arith),
            sub64_below i.y j.y si.y sj.y (ground arith),
            sub64_above i.x j.x si.x sj.x forth,
            sub64_below i.y p.y si.y sp.y yi,
            mul64_pos_minus (gap i.x p.x) (gap j.y i.y) (omega arith) (omega arith),
            mul64_pos_minus (gap i.x j.x) (gap p.y i.y) (omega arith) (omega arith),
          )
          (minus_minus (gap i.x p.x * gap j.y i.y) (gap i.x j.x * gap p.y i.y) (
            products_lt (gap i.x p.x) (gap j.y i.y) (gap i.x j.x) (gap p.y i.y) (ground arith)
              (ground arith) (ground arith)))
  ]

  -- The point is left of both ends.
  left_up :
      ltb_ℤ p.x i.x ≡ true
      → ltb_ℤ p.x j.x ≡ true
      → ltb_ℤ p.y i.y ≡ false
      → ltb_ℤ p.y j.y ≡ true
      → side p i j ≡ true
  left_up hi hj yi yj = elim (Bool-cases (ltb_ℤ j.x i.x)) [
    | inl back ↦
        rw
          (
            sub64_below i.x p.x si.x sp.x (ground arith),
            sub64_above i.y j.y si.y sj.y (ground arith),
            sub64_below i.x j.x si.x sj.x back,
            sub64_above i.y p.y si.y sp.y yi,
            mul64_minus_pos (gap p.x i.x) (gap i.y j.y) (omega arith) (omega arith),
            mul64_minus_pos (gap j.x i.x) (gap i.y p.y) (omega arith) (omega arith),
          )
          (minus_minus (gap p.x i.x * gap i.y j.y) (gap j.x i.x * gap i.y p.y) (
            products_lt' (gap p.x i.x) (gap i.y j.y) (gap j.x i.x) (gap i.y p.y) (ground arith)
              (ground arith)))
    | inr forth ↦
        rw
          (
            sub64_below i.x p.x si.x sp.x (ground arith),
            sub64_above i.y j.y si.y sj.y (ground arith),
            sub64_above i.x j.x si.x sj.x forth,
            sub64_above i.y p.y si.y sp.y yi,
            mul64_minus_pos (gap p.x i.x) (gap i.y j.y) (omega arith) (omega arith),
            mul64_pos_pos (gap i.x j.x) (gap i.y p.y) (omega arith) (omega arith),
          )
          (minus_pos (gap p.x i.x * gap i.y j.y) (gap i.x j.x * gap i.y p.y)
            (products_pos (gap p.x i.x) (gap i.y j.y) (ground arith) (ground arith)))
  ]

  left_down :
      ltb_ℤ p.x i.x ≡ true
      → ltb_ℤ p.x j.x ≡ true
      → ltb_ℤ p.y i.y ≡ true
      → ltb_ℤ p.y j.y ≡ false
      → side p i j ≡ false
  left_down hi hj yi yj = elim (Bool-cases (ltb_ℤ j.x i.x)) [
    | inl back ↦
        rw
          (
            sub64_below i.x p.x si.x sp.x (ground arith),
            sub64_below i.y j.y si.y sj.y (ground arith),
            sub64_below i.x j.x si.x sj.x back,
            sub64_below i.y p.y si.y sp.y yi,
            mul64_minus_minus (gap p.x i.x) (gap j.y i.y) (omega arith) (omega arith),
            mul64_minus_minus (gap j.x i.x) (gap p.y i.y) (omega arith) (omega arith),
          )
          (pos_pos (gap p.x i.x * gap j.y i.y) (gap j.x i.x * gap p.y i.y) (
            products_le (gap p.x i.x) (gap j.y i.y) (gap j.x i.x) (gap p.y i.y) (ground arith)
              (ground arith)))
    | inr forth ↦
        rw
          (
            sub64_below i.x p.x si.x sp.x (ground arith),
            sub64_below i.y j.y si.y sj.y (ground arith),
            sub64_above i.x j.x si.x sj.x forth,
            sub64_below i.y p.y si.y sp.y yi,
            mul64_minus_minus (gap p.x i.x) (gap j.y i.y) (omega arith) (omega arith),
            mul64_pos_minus (gap i.x j.x) (gap p.y i.y) (omega arith) (omega arith),
          )
          (pos_minus (gap p.x i.x * gap j.y i.y) (gap i.x j.x * gap p.y i.y))
  ]

  -- An edge left of the point is never counted.
  pub crosses_right : ltb_ℤ i.x p.x ≡ true → ltb_ℤ j.x p.x ≡ true → crosses p i j ≡ false
  unfolding crosses
  crosses_right hi hj = ground (arith, right_up hi hj, right_down hi hj)

  -- An edge right of the point is counted if it passes the point's height.
  pub crosses_left : ltb_ℤ p.x i.x ≡ true → ltb_ℤ p.x j.x ≡ true → crosses p i j ≡ straddles p i j
  unfolding crosses
  crosses_left hi hj = ground (arith, left_up hi hj, left_down hi hj)
