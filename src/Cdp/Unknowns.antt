-- ===== src/Cdp/Unknowns.antt =====
-- `Unknown.MarshalJSON` of pkg/cdp/unknown.go.
use mathlib.Core.Path.{ap₂}
use cdp_go.Base.{
  All, Bytes, [], ap, arith, codes, drop, drop-append, drop-drop, false, if◌then◌else◌, refl, sym,
  take, take-append, ℕ, ◌%◌, ◌*◌, ◌++◌, ◌+◌, ◌/◌, ◌<◌, ◌==◌, ◌^◌, ◌∙◌, ◌∷◌, ◌≡◌,
}
use cdp_go.Cdp.Packet.{unknown_type_hex}
use cdp_go.Cdp.Payload.{Unknown}
use cdp_go.Cdp.Readers.{IsByte}
use cdp_go.Cdp.Serial.{hex, hex_digit, lower, upper}
use cdp_go.Cdp.Serial.Hex.{digit_value, digit_value-hex_digit, hex_value, hex_value-hex, length-hex}

-- `hex.EncodeToString`.
unfoldable pub encode_hex : Bytes → Bytes
encode_hex [] = []
encode_hex (b ∷ bytes) = hex_digit lower (b / 16) ∷ hex_digit lower (b % 16) ∷ encode_hex bytes

-- `MarshalJSON`: its two strings have no byte that encoding/json escapes, and there is no error.
unfoldable pub unknown_json : Unknown → Bytes
unknown_json u =
    codes "{\"type\":\""
    ++ (unknown_type_hex u.type_id ++ (codes "\",\"raw\":\"" ++ (encode_hex u.raw ++ codes "\"}")))

-- The bytes of pairs of digits, up to the quotation mark behind them.
unfoldable pub read_pairs : Bytes → Bytes
read_pairs (c ∷ d ∷ s) =
    if c == b'"' then [] else (16 * digit_value c + digit_value d) ∷ read_pairs s
read_pairs _ = []

-- A reader of the text, by position.
unfoldable pub read_unknown : Bytes → Unknown
read_unknown text = record {
  type_id = hex_value 0 (take 4 (drop 11 text));
  raw = read_pairs (drop 24 text);
}

digit_plain : (d : ℕ) → d < 16 → (hex_digit lower d == b'"') ≡ false
unfolding hex_digit
digit_plain d h = ground arith

read_pairs-encode_hex :
    (bytes : Bytes) → All IsByte bytes → read_pairs (encode_hex bytes ++ codes "\"}") ≡ bytes
unfolding read_pairs encode_hex
read_pairs-encode_hex [] h = refl
read_pairs-encode_hex (b ∷ bytes) h =
    rw
      (
        digit_plain (b / 16) (omega (arith, h.0)),
        digit_value-hex_digit lower (b / 16) (omega (arith, h.0)),
        digit_value-hex_digit lower (b % 16) (omega arith),
        read_pairs-encode_hex bytes h.1,
      )
      (ap (λ x. x ∷ bytes) (omega arith))

-- The type, below 2 ^ 16, and the bytes of an unknown item are read back from its JSON.
pub read_unknown-unknown_json :
    (u : Unknown) → u.type_id < 2 ^ 16 → All IsByte u.raw → read_unknown (unknown_json u) ≡ u
unfolding read_unknown unknown_json unknown_type_hex
read_unknown-unknown_json u h k =
    let digits = hex upper 4 u.type_id in
    let rest = codes "\",\"raw\":\"" ++ (encode_hex u.raw ++ codes "\"}") in
    let type_is : hex_value 0 (take 4 (digits ++ rest)) ≡ u.type_id =
      ap (hex_value 0) (take-append digits rest 4 (sym (length-hex upper 4 u.type_id)))
      ∙ hex_value-hex upper 4 u.type_id h in
    let raw_is : read_pairs (drop 13 (digits ++ rest)) ≡ u.raw =
      ap read_pairs (sym (drop-drop 4 9 (digits ++ rest)))
      ∙ ap (λ x. read_pairs (drop 9 x))
          (drop-append digits rest 4 (sym (length-hex upper 4 u.type_id)))
      ∙ (unfold drop in read_pairs-encode_hex u.raw k) in
    let read : ℕ → Bytes → Unknown = λ t r. record { type_id = t; raw = r } in
    unfold drop in ap₂ read type_is raw_is
