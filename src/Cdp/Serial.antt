-- ===== src/Cdp/Serial.antt =====
-- `Serial` of pkg/cdp/cdp.go, and the hexadecimal formats of `fmt.Sprintf` that pkg/cdp uses.
pub mod Hex
use cdp_go.Base.{Bytes, [], if◌then◌else◌, ltb, suc, zero, ℕ, ◌%◌, ◌++◌, ◌+◌, ◌-◌, ◌/◌, ◌^◌, ◌∷◌}

-- A uint32.
abbrev pub Serial : Type 0
Serial = ℕ

pub data Letters : Type 0 where
  upper : Letters
  lower : Letters

unfoldable pub hex_digit : Letters → ℕ → ℕ
hex_digit upper d = if ltb d 10 then b'0' + d else b'A' + d - 10
hex_digit lower d = if ltb d 10 then b'0' + d else b'a' + d - 10

-- `%0wX` and `%0wx` of a number below 16 ^ w, which every argument in pkg/cdp is by its type.
unfoldable pub hex : Letters → ℕ → ℕ → Bytes
unfolding hex_digit
hex c zero n = []
hex c (suc w) n = hex c w (n / 16) ++ (hex_digit c (n % 16) ∷ [])

-- `Serial.String`.
unfoldable pub serial_string : Serial → Bytes
unfolding hex
serial_string s =
    hex upper 2 (s / 2 ^ 24)
    ++ (b':' ∷ hex upper 2 (s / 2 ^ 16 % 2 ^ 8) ++ (b':' ∷ hex upper 4 (s % 2 ^ 16)))

-- `Serial.Hex`.
unfoldable pub serial_hex : Serial → Bytes
unfolding hex
serial_hex s = hex lower 8 s

-- `Serial.MarshalJSON`: it never returns an error.
unfoldable pub serial_json : Serial → Bytes
unfolding serial_string
serial_json s = b'"' ∷ serial_string s ++ (b'"' ∷ [])
