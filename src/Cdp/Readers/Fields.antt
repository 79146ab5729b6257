-- ===== src/Cdp/Readers/Fields.antt =====
-- Signed integers and floats on the wire.
use cdp_go.Base.{ap, arith, suc, ℕ, ◌%◌, ◌<◌, ◌^◌, ◌∙◌, ◌≡◌}
use cdp_go.Base.Int.{IsWithin, pattern_of, signed, ℤ}
use cdp_go.Base.Int.Laws.{pattern_of-lt, signed-pattern_of}
use cdp_go.Cdp.Readers.{Float32, from_bits, le_value}
use cdp_go.Cdp.Readers.Wire.{le, le_int, le_value-le}
use native.Mathlib.Nat.{pow-suc}

-- A signed integer that fits its width is read back.
pub signed-le_int :
    (n : ℕ) (z : ℤ)
    → IsWithin (256 ^ suc n) z
    → signed (256 ^ suc n) (le_value (le_int (suc n) z)) ≡ z
signed-le_int n z h =
    let m = 256 ^ suc n in
    let even : m % 2 ≡ 0 = omega (arith, pow-suc 256 n) in
    let fits = pattern_of-lt m z h (omega (arith, pow-suc 256 n)) in
    ap (signed m) (le_value-le (suc n) (pattern_of m z) fits) ∙ signed-pattern_of m z h even

abbrev pub bits : Float32 → ℕ
bits (from_bits n) = n

pub from_bits-le : (x : Float32) → bits x < 2 ^ 32 → from_bits (le_value (le 4 (bits x))) ≡ x
from_bits-le (from_bits n) h = ap from_bits (le_value-le 4 n h)
