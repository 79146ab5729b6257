-- ===== src/Cdp/Serial/Hex.antt =====
-- What the hexadecimal formats of pkg/cdp print can be read back.
use cdp_go.Base.{
  Bytes, [], arith, if◌then◌else◌, length, length-append, ltb, refl, suc, zero, ℕ, ◌%◌, ◌*◌, ◌++◌,
  ◌+◌, ◌-◌, ◌/◌, ◌<◌, ◌^◌, ◌∙◌, ◌∷◌, ◌≡◌,
}
use cdp_go.Cdp.Serial.{Letters, Serial, hex, hex_digit, lower, serial_hex, upper}

-- The value of a digit, of either case.
unfoldable pub digit_value : ℕ → ℕ
digit_value c = if ltb c b'A' then c - b'0' else if ltb c b'a' then c + 10 - b'A' else c + 10 - b'a'

-- The number that a string of digits stands for; `n` is what was read before.
unfoldable pub hex_value : ℕ → Bytes → ℕ
unfolding digit_value
hex_value n [] = n
hex_value n (c ∷ cs) = hex_value (16 * n + digit_value c) cs

pub digit_value-hex_digit : (c : Letters) (d : ℕ) → d < 16 → digit_value (hex_digit c d) ≡ d
unfolding digit_value hex_digit
digit_value-hex_digit upper d h = ground arith
digit_value-hex_digit lower d h = ground arith

pub hex_value-append :
    (n : ℕ) (xs : Bytes) (ys : Bytes) → hex_value n (xs ++ ys) ≡ hex_value (hex_value n xs) ys
unfolding hex_value digit_value
hex_value-append n [] ys = refl
hex_value-append n (x ∷ xs) ys = hex_value-append (16 * n + digit_value x) xs ys

pub hex_value-hex : (c : Letters) (w n : ℕ) → n < 16 ^ w → hex_value 0 (hex c w n) ≡ n
unfolding hex hex_value
hex_value-hex c zero n h = omega arith
hex_value-hex c (suc w) n h =
    hex_value-append 0 (hex c w (n / 16)) (hex_digit c (n % 16) ∷ [])
    ∙ omega (arith, hex_value-hex c w (n / 16), digit_value-hex_digit c (n % 16))

pub length-hex : (c : Letters) (w n : ℕ) → length (hex c w n) ≡ w
unfolding hex
length-hex c zero n = refl
length-hex c (suc w) n =
    omega
      (arith, length-append (hex c w (n / 16)) (hex_digit c (n % 16) ∷ []), length-hex c w (n / 16))

-- The hexadecimal form of a serial number of 32 bits has eight digits, from which the number is
-- read back.
pub hex_value-serial_hex :
    (s : Serial) → s < 2 ^ 32 → (length (serial_hex s) ≡ 8) × (hex_value 0 (serial_hex s) ≡ s)
unfolding serial_hex
hex_value-serial_hex s h = (length-hex lower 8 s, hex_value-hex lower 8 s h)
