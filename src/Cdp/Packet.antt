-- ===== src/Cdp/Packet.antt =====
-- `Decode` of pkg/cdp/cdp.go, with the names of pkg/cdp/unknown.go.
pub mod Frames
pub mod Header
pub mod Rounds
pub mod Sound
pub mod Termination
pub mod Wire
pub mod RoundTrip
pub mod Outcome
use cdp_go.Base.{
  Bytes, List, Option, [], bytes_eq, codes, if◌then◌else◌, leb, length, ltb, none, not, some, suc,
  zero, ℕ, ◌&&◌, ◌++◌, ◌+◌, ◌-◌, ◌==◌, ◌∷◌,
}
use cdp_go.Base.Assoc.{lookup}
use cdp_go.Cdp.ItemError.{Decoded, ItemError}
use cdp_go.Cdp.Payload.{Payload, unknown}
use cdp_go.Cdp.Readers.{le_value, slice}
use cdp_go.Cdp.Registry.{RegistryEntry, registry, type_hexes}
use cdp_go.Cdp.Result.{Result, err, fault, ok, ◌>>=◌}
use cdp_go.Cdp.Serial.{Serial, hex, lower, upper}

-- `HeaderSize`, `DataItemHeaderSize` and `MarkerValue`.
abbrev pub header_size : ℕ
header_size = 20

abbrev pub data_item_header_size : ℕ
data_item_header_size = 4

abbrev pub marker_value : ℕ
marker_value = 0x3230_434c

-- `stringCDP0002` and `stringLCMSelf`.
abbrev pub string_cdp0002 : Bytes
string_cdp0002 = codes "CDP0002" ++ (0 ∷ [])

abbrev pub string_lcm_self : Bytes
string_lcm_self = codes "LCM_SELF"

-- The errors that `Decode` formats, with what they report.
pub data PacketError : Type 0 where
  too_short : ℕ → PacketError
  bad_marker : ℕ → PacketError
  bad_header_string : Bytes → PacketError
  truncated_item : ℕ → ℕ → ℕ → PacketError
  bad_item : ℕ → ItemError → PacketError
  trailing_bytes : ℕ → PacketError

pub record Item : Type 0 where
  pub type_id : ℕ
  pub type_hex : Bytes
  pub name : Bytes
  pub subject : Bytes
  pub payload : Payload

pub record Packet : Type 0 where
  pub sequence : ℕ
  pub sender : Serial
  pub items : List Item

unfoldable pub unknown_name : ℕ → Bytes
unknown_name type_id = codes "Unknown_0x" ++ hex upper 4 type_id

unfoldable pub unknown_subject : ℕ → Bytes
unknown_subject type_id = codes "unknown_" ++ hex lower 4 type_id

unfoldable pub unknown_type_hex : ℕ → Bytes
unknown_type_hex type_id = codes "0x" ++ hex upper 4 type_id

-- An item of a type that is not registered.
unfoldable pub unknown_item : ℕ → Bytes → Item
unknown_item type_id payload = record {
  type_id = type_id;
  type_hex = unknown_type_hex type_id;
  name = unknown_name type_id;
  subject = unknown_subject type_id;
  payload = unknown (record { type_id = type_id; raw = payload });
}

-- `typeHexes[typeID]`: a missing key gives the empty string.
unfoldable pub type_hex_of : ℕ → Bytes
type_hex_of type_id = elim (lookup type_id type_hexes) [ none ↦ [] | some h ↦ h ]

unfoldable pub known_item : ℕ → RegistryEntry → Payload → Item
known_item type_id entry decoded = record {
  type_id = type_id;
  type_hex = type_hex_of type_id;
  name = entry.name;
  subject = entry.subject;
  payload = decoded;
}

-- `fmt.Errorf("cdp: decode type=0x%04X: %w", typeID, err)`.
unfoldable pub or_bad_item {ℓ} : {A : Type ℓ} → ℕ → Decoded A → Result PacketError A
or_bad_item type_id (ok a) = ok a
or_bad_item type_id (err e) = err (bad_item type_id e)
or_bad_item type_id fault = fault

-- The part of the loop's body behind `entry, ok := registry[typeID]`.
unfoldable pub decode_entry : Option RegistryEntry → ℕ → Bytes → Result PacketError Item
decode_entry none type_id payload = ok (unknown_item type_id payload)
decode_entry (some entry) type_id payload = do
  decoded ← or_bad_item type_id (entry.decode payload)
  ok (known_item type_id entry decoded)

unfoldable pub decode_item : ℕ → Bytes → Result PacketError Item
decode_item type_id = decode_entry (lookup type_id registry) type_id

-- The `for` loop, with the items read so far; it returns them with the last `idx`. Without fuel
-- it is a fault. `idx` never passes the length of `buf`, so the differences are those of the ints.
unfoldable pub items_loop : ℕ → Bytes → ℕ → List Item → Result PacketError (List Item × ℕ)
items_loop zero buf idx items = fault
items_loop (suc fuel) buf idx items =
    let start = idx + data_item_header_size in
    let round = (do
      type_id ← slice buf idx (idx + 2)
      size ← slice buf (idx + 2) (idx + 4)
      if ltb (length buf - start) (le_value size)
          then err (truncated_item (le_value type_id) (le_value size) (length buf - start))
          else do
            payload ← slice buf start (start + le_value size)
            item ← decode_item (le_value type_id) payload
            items_loop fuel buf (start + le_value size) (items ++ (item ∷ []))) in
    if leb data_item_header_size (length buf - idx) then round else ok (items, idx)

-- What `Decode` does behind the checks of the header.
unfoldable pub decode_items : Bytes → Result PacketError Packet
decode_items buf = do
  sequence ← slice buf 4 8
  sender ← slice buf 16 20
  (items, idx) ← items_loop (suc (length buf)) buf header_size []
  if not (length buf - idx == 0)
      then err (trailing_bytes (length buf - idx))
      else ok (record { sequence = le_value sequence; sender = le_value sender; items = items })

-- A round takes four bytes at least, so the loop's fuel is enough. The capacity that `Decode`
-- reserves for the items is no part of its result.
unfoldable pub decode : Bytes → Result PacketError Packet
decode buf = if ltb (length buf) header_size then err (too_short (length buf)) else do
  marker ← slice buf 0 4
  if not (le_value marker == marker_value) then err (bad_marker (le_value marker)) else do
    str ← slice buf 8 16
    if not (bytes_eq str string_cdp0002) && not (bytes_eq str string_lcm_self)
        then err (bad_header_string str)
        else decode_items buf
