-- ===== src/Base/Int/Laws.antt =====
-- The two readings of a word are inverse to each other.
use cdp_go.Base.{arith, ℕ, ◌%◌, ◌<◌, ◌≡◌}
use cdp_go.Base.Int.{IsWithin, negsuc, pattern_of, pos, signed, ℤ}

pub signed-pattern_of : (m : ℕ) (z : ℤ) → IsWithin m z → m % 2 ≡ 0 → signed m (pattern_of m z) ≡ z
unfolding signed pattern_of
signed-pattern_of m (pos n) h e = ground arith
signed-pattern_of m (negsuc n) h e = ground arith

pub pattern_of-signed : (m w : ℕ) → w < m → m % 2 ≡ 0 → pattern_of m (signed m w) ≡ w
unfolding signed pattern_of
pattern_of-signed m w h e = ground arith

pub pattern_of-lt : (m : ℕ) (z : ℤ) → IsWithin m z → 0 < m → pattern_of m z < m
unfolding pattern_of
pattern_of-lt m (pos n) h e = omega arith
pattern_of-lt m (negsuc n) h e = omega arith

pub signed-IsWithin : (m w : ℕ) → w < m → m % 2 ≡ 0 → IsWithin m (signed m w)
unfolding signed
signed-IsWithin m w h e = ground arith
