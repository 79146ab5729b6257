-- ===== src/Cdp/Packet/RoundTrip.antt =====
-- Packets of payloads, through their wire format and `Decode`.
use mathlib.Core.List.{append-nil}
use cdp_go.Base.{
  All, Bytes, List, Option, [], ap, arith, map, none, refl, some, sym, ℕ, ◌++◌, ◌<◌, ◌^◌, ◌∙◌, ◌∷◌,
  ◌≡◌,
}
use cdp_go.Base.Assoc.{lookup}
use cdp_go.Cdp.Packet.{
  Item, decode, decode_entry, decode_item, known_item, or_bad_item, unknown_item,
}
use cdp_go.Cdp.Packet.Frames.{Frame, IsFrame, IsMagic, decode_frames, frames_wire, header_wire}
use cdp_go.Cdp.Packet.Wire.{decode-wire}
use cdp_go.Cdp.Payload.{Payload}
use cdp_go.Cdp.Payload.Wire.{
  IsFixed, decode_as, decode_as-payload_wire, length-payload_wire, payload_wire, type_of,
  type_of-lt,
}
use cdp_go.Cdp.Registry.{RegistryEntry, registry}
use cdp_go.Cdp.Result.{ok}
use cdp_go.Cdp.Serial.{Serial}

-- What `Decode` makes of a payload of a registered type.
unfoldable pub item_as : Option RegistryEntry → ℕ → Payload → Item
item_as none tid p = unknown_item tid []
item_as (some e) tid p = known_item tid e p

abbrev pub item_of : Payload → Item
item_of p = item_as (lookup (type_of p) registry) (type_of p) p

abbrev pub frame_of : Payload → Frame
frame_of p = record { type_id = type_of p; payload = payload_wire p }

unfoldable pub packet_wire : ℕ → Bytes → Serial → List Payload → Bytes
packet_wire sequence magic sender payloads =
    header_wire sequence magic sender ++ frames_wire (map frame_of payloads)

decode_entry-item_as :
    (o : Option RegistryEntry) (tid : ℕ) (b : Bytes) (p : Payload)
    → decode_as o b ≡ ok p
    → decode_entry o tid b ≡ ok (item_as o tid p)
unfolding decode_entry or_bad_item item_as
decode_entry-item_as none tid b p h = cc
decode_entry-item_as (some e) tid b p h = rw h refl

decode_frames-map :
    (payloads : List Payload)
    → All IsFixed payloads
    → decode_frames (map frame_of payloads) ≡ ok (map item_of payloads)
unfolding decode_frames decode_item
decode_frames-map [] h = refl
decode_frames-map (p ∷ payloads) h =
    rw
      (
        decode_entry-item_as (lookup (type_of p) registry) (type_of p) (payload_wire p) p
            (decode_as-payload_wire p h.0),
        decode_frames-map payloads h.1,
      )
      refl

frames-All : (payloads : List Payload) → All IsFixed payloads → All IsFrame (map frame_of payloads)
frames-All [] h = tt
frames-All (p ∷ payloads) h = ((type_of-lt p, length-payload_wire p h.0), frames-All payloads h.1)

-- A packet of any payloads that consist of numbers only, whose fields fit their types, is read back: the
-- sequence number and the sender, which fit 32 bits, and the payloads in their order, each under
-- the name, subject and type of its registry entry. The header's string is one of the two known
-- ones.
pub decode-packet_wire :
    (sequence : ℕ) (magic : Bytes) (sender : Serial) (payloads : List Payload)
    → sequence < 2 ^ 32
    → IsMagic magic
    → sender < 2 ^ 32
    → All IsFixed payloads
    → decode (packet_wire sequence magic sender payloads)
      ≡ ok (record { sequence = sequence; sender = sender; items = map item_of payloads })
unfolding packet_wire
decode-packet_wire sequence magic sender payloads hq m hs h =
    let whole =
      decode-wire sequence magic sender (map frame_of payloads) [] hq m hs (frames-All payloads h)
        (omega arith) in
    ap (λ fs. decode (header_wire sequence magic sender ++ fs))
      (sym (append-nil (frames_wire (map frame_of payloads))))
    ∙ whole
    ∙ rw (decode_frames-map payloads h) refl
