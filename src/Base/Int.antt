-- ===== src/Base/Int.antt =====
-- Signed integers over the native numbers, and the two's complement reading of a machine word.
pub mod Laws
use cdp_go.Base.{Bool, if◌then◌else◌, leb, ltb, suc, ℕ, ◌%◌, ◌*◌, ◌+◌, ◌-◌, ◌/◌, ◌<◌, ◌≤◌}

-- `negsuc n` is -(n + 1).
pub data ℤ : Type 0 where
  pos : ℕ → ℤ
  negsuc : ℕ → ℤ

abbrev pub pos_part : ℤ → ℕ
pos_part (pos n) = n
pos_part (negsuc n) = 0

abbrev pub neg_part : ℤ → ℕ
neg_part (pos n) = 0
neg_part (negsuc n) = suc n

-- The integer that a pattern below `m` stands for, where `m` is 2 to the width.
unfoldable pub signed : ℕ → ℕ → ℤ
signed m w = if ltb w (m / 2) then pos w else negsuc (m - w - 1)

-- The pattern of an integer of that width.
unfoldable pub pattern_of : ℕ → ℤ → ℕ
pattern_of m (pos n) = n
pattern_of m (negsuc n) = m - n - 1

-- The integer is in the range of the width.
abbrev pub IsWithin : ℕ → ℤ → Type 0
IsWithin m z = (pos_part z < m / 2) × (neg_part z ≤ m / 2)

-- a - b, as an integer.
abbrev pub sub_ℕ : ℕ → ℕ → ℤ
sub_ℕ a b = if leb b a then pos (a - b) else negsuc (b - a - 1)

infixl 65 ◌-ℤ◌
infixl 70 ◌*ℤ◌
unfoldable pub ◌-ℤ◌ : ℤ → ℤ → ℤ
a -ℤ b = sub_ℕ (pos_part a + neg_part b) (neg_part a + pos_part b)

unfoldable pub ◌*ℤ◌ : ℤ → ℤ → ℤ
a *ℤ b =
    sub_ℕ (pos_part a * pos_part b + neg_part a * neg_part b)
      (pos_part a * neg_part b + neg_part a * pos_part b)

abbrev pub ltb_ℤ : ℤ → ℤ → Bool
ltb_ℤ a b = ltb (pos_part a + neg_part b) (pos_part b + neg_part a)

-- The value that an integer of `m` patterns keeps of a result out of range.
unfoldable pub wrap : ℕ → ℤ → ℤ
wrap m (pos n) = signed m (n % m)
wrap m (negsuc n) = signed m (m - 1 - n % m)
