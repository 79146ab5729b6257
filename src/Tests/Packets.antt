-- ===== src/Tests/Packets.antt =====
-- Datagrams for pkg/cdp: one with a position and an item of an unknown type, and broken ones.
use cdp_go.Base.{
  Bytes, List, [], arith, codes, drop, inl, inr, length, map, refl, some, take, ◌++◌, ◌∷◌, ◌≡◌,
}
use cdp_go.Base.Assoc.{lookup}
use cdp_go.Base.Int.{negsuc, pos, signed}
use cdp_go.Cdp.ItemError.{short}
use cdp_go.Cdp.Items.Device.{TemperatureV2}
use cdp_go.Cdp.Items.Device.Wire.{IsTemperatureV2}
use cdp_go.Cdp.Items.Position.{PositionV3, decode_position_v3}
use cdp_go.Cdp.Items.Position.Wire.{IsPositionV3}
use cdp_go.Cdp.Packet.{
  Packet, bad_item, decode, decode_entry, decode_item, decode_items, items_loop, known_item,
  or_bad_item, string_cdp0002, string_lcm_self, too_short, trailing_bytes, truncated_item,
  type_hex_of, unknown_item, unknown_name, unknown_subject, unknown_type_hex,
}
use cdp_go.Cdp.Packet.Frames.{Frame, decode_frames, frames_wire, header_wire}
use cdp_go.Cdp.Packet.Outcome.{Outcome, decode-Outcome}
use cdp_go.Cdp.Packet.RoundTrip.{decode-packet_wire, item_of, packet_wire}
use cdp_go.Cdp.Packet.Wire.{decode-wire, finish}
use cdp_go.Cdp.Payload.{Payload, Unknown, position_v3, temperature_v2, unknown}
use cdp_go.Cdp.Readers.{i32, le_value, slice, u16, u32, u64, u8}
use cdp_go.Cdp.Registry.{RegistryEntry, hex_type, registry, type_hexes}
use cdp_go.Cdp.Registry.Layout.{Meets, layouts, registry-Meets}
use cdp_go.Cdp.Result.{err, ok, ◌>>=◌}
use cdp_go.Cdp.Serial.{hex, hex_digit, serial_hex, serial_string}
use cdp_go.Cdp.Serial.Hex.{hex_value, hex_value-serial_hex}
use cdp_go.Cdp.Unknowns.{encode_hex, read_unknown, read_unknown-unknown_json, unknown_json}

-- Tag 01:23:4567 at (1000, -2).
abbrev position : PositionV3
position = record {
  serial_number = 0x0123_4567;
  network_time = 1;
  x = pos 1000;
  y = negsuc 1;
  z = pos 0;
  quality = 100;
  anchor_count = 4;
  flags = 0;
  smoothing = 0;
}

abbrev position_payload : Bytes
position_payload =
    0x67 ∷ 0x45 ∷ 0x23 ∷ 0x01 ∷ 1 ∷ 0 ∷ 0 ∷ 0 ∷ 0 ∷ 0 ∷ 0 ∷ 0 ∷ 0xe8 ∷ 3 ∷ 0 ∷ 0 ∷ 0xfe ∷ 0xff
    ∷ 0xff ∷ 0xff ∷ 0 ∷ 0 ∷ 0 ∷ 0 ∷ 100 ∷ 0 ∷ 4 ∷ 0 ∷ 0 ∷ 0 ∷ []

abbrev frames : List Frame
frames =
    record { type_id = 0x0135; payload = position_payload }
    ∷ record { type_id = 0x7abc; payload = 0xde ∷ 0xad ∷ [] }
    ∷ []

-- Sequence number 7, sent by 00:00:0009.
abbrev header : Bytes
header = 0x4c ∷ 0x43 ∷ 0x30 ∷ 0x32 ∷ 7 ∷ 0 ∷ 0 ∷ 0 ∷ codes "CDP0002" ++ (0 ∷ 9 ∷ 0 ∷ 0 ∷ 0 ∷ [])

abbrev pub sample_datagram : Bytes
sample_datagram =
    header ++ (0x35 ∷ 0x01 ∷ 30 ∷ 0 ∷ position_payload ++ (0xbc ∷ 0x7a ∷ 2 ∷ 0 ∷ 0xde ∷ 0xad ∷ []))

abbrev pub decoded : Packet
decoded = record {
  sequence = 7;
  sender = 9;
  items =
      record {
        type_id = 0x0135;
        type_hex = codes "0x0135";
        name = codes "PositionV3";
        subject = codes "position";
        payload = position_v3 position;
      }
      ∷ record {
        type_id = 0x7abc;
        type_hex = codes "0x7ABC";
        name = codes "Unknown_0x7ABC";
        subject = codes "unknown_7abc";
        payload = unknown (record { type_id = 0x7abc; raw = 0xde ∷ 0xad ∷ [] });
      }
      ∷ [];
}

pub decode_datagram : decode sample_datagram ≡ ok decoded
unfolding decode decode_items items_loop decode_item decode_entry or_bad_item known_item type_hex_of
    type_hexes hex_type unknown_item unknown_name unknown_subject unknown_type_hex registry lookup
    decode_position_v3 slice le_value take drop u8 u16 u32 u64 i32 signed hex hex_digit
decode_datagram = refl

decode_errors :
    (decode (codes "LC") ≡ err (too_short 2))
    × (decode (header ++ (1 ∷ [])) ≡ err (trailing_bytes 1))
    × (decode (header ++ (0x35 ∷ 0x01 ∷ 1 ∷ 0 ∷ 0 ∷ [])) ≡ err (bad_item 0x0135 short))
    × (decode (header ++ (0x35 ∷ 0x01 ∷ 2 ∷ 0 ∷ 0 ∷ [])) ≡ err (truncated_item 0x0135 2 1))
unfolding decode decode_items items_loop decode_item decode_entry or_bad_item known_item type_hex_of
    type_hexes hex_type unknown_item unknown_name unknown_subject unknown_type_hex registry lookup
    decode_position_v3 slice le_value take drop u8 u16 u32 u64 i32 signed hex hex_digit
decode_errors = (refl, refl, refl, refl)

serial_string_run : serial_string 0x0123_abcd ≡ codes "01:23:ABCD"
unfolding serial_string
serial_string_run = refl

hex_value-serial_hex_example :
    (length (serial_hex 0x0123_abcd) ≡ 8) × (hex_value 0 (serial_hex 0x0123_abcd) ≡ 0x0123_abcd)
hex_value-serial_hex_example = hex_value-serial_hex 0x0123_abcd (omega arith)

decode-Outcome_example : Outcome sample_datagram (decode sample_datagram)
decode-Outcome_example = decode-Outcome sample_datagram (ground arith)

decode-wire_example :
    decode (header_wire 7 string_lcm_self 9 ++ (frames_wire frames ++ (1 ∷ [])))
    ≡ (decode_frames frames >>= finish 7 9 1)
decode-wire_example =
    decode-wire 7 string_lcm_self 9 frames (1 ∷ []) (omega arith) (inr refl) (omega arith)
      (omega arith) (omega arith)

abbrev position_entry : RegistryEntry
position_entry = record {
  name = codes "PositionV3";
  subject = codes "position";
  decode = λ b. decode_position_v3 b >>= λ p. ok (position_v3 p);
}

position_registered : lookup 0x0135 registry ≡ some position_entry
unfolding lookup registry
position_registered = refl

registry-Meets_example : Meets (lookup 0x0135 layouts) position_entry
registry-Meets_example = registry-Meets 0x0135 position_registered

position-IsPositionV3 : IsPositionV3 position
position-IsPositionV3 = record {
  serial_number = omega arith;
  network_time = omega arith;
  x = omega arith;
  y = omega arith;
  z = omega arith;
  quality = omega arith;
  anchor_count = omega arith;
  flags = omega arith;
  smoothing = omega arith;
}

abbrev temperature : TemperatureV2
temperature = record { serial_number = 9; network_time = 2; temperature = negsuc 24; scale = 10 }

temperature-IsTemperatureV2 : IsTemperatureV2 temperature
temperature-IsTemperatureV2 = record {
  serial_number = omega arith;
  network_time = omega arith;
  temperature = (omega arith, omega arith);
  scale = omega arith;
}

abbrev payloads : List Payload
payloads = position_v3 position ∷ temperature_v2 temperature ∷ []

decode-packet_wire_example :
    decode (packet_wire 7 string_cdp0002 9 payloads)
    ≡ ok (record { sequence = 7; sender = 9; items = map item_of payloads })
decode-packet_wire_example =
    decode-packet_wire 7 string_cdp0002 9 payloads (omega arith) (inl refl) (omega arith)
      (position-IsPositionV3, (temperature-IsTemperatureV2, tt))

abbrev dead : Unknown
dead = record { type_id = 0x7abc; raw = 0xde ∷ 0xad ∷ [] }

unknown_json_run : unknown_json dead ≡ codes "{\"type\":\"0x7ABC\",\"raw\":\"dead\"}"
unfolding unknown_json unknown_type_hex encode_hex hex hex_digit
unknown_json_run = refl

read_unknown-unknown_json_example : read_unknown (unknown_json dead) ≡ dead
read_unknown-unknown_json_example =
    read_unknown-unknown_json dead (omega arith) (omega arith, (omega arith, tt))
