-- ===== src/Tests/Bridges.antt =====
-- `publish` with a connection that keeps what it gets, and a stand-in for the JSON encoder.
use cdp_go.Base.{
  Bool, Bytes, List, [], bytes_eq, codes, drop, false, if◌then◌else◌, length, ltb, none, refl, some,
  take, true, ◌++◌, ◌∷◌, ◌≡◌,
}
use cdp_go.Base.Assoc.{lookup}
use cdp_go.Base.Int.{signed}
use cdp_go.Bridge.{
  Bridge, Metrics, Services, envelope_of, event_subject, item_subject, publish, publish_decoded,
  publish_item, publish_items, send_item, track,
}
use cdp_go.Bridge.Messages.{publish-sent_for, sent_for}
use cdp_go.Bridge.Told.{IsHandled}
use cdp_go.Bridge.Told.Handled.{publish-IsHandled}
use cdp_go.Cdp.Items.Position.{decode_position_v3}
use cdp_go.Cdp.Packet.{
  decode, decode_entry, decode_item, decode_items, items_loop, known_item, or_bad_item, type_hex_of,
  unknown_item, unknown_name, unknown_subject, unknown_type_hex,
}
use cdp_go.Cdp.Readers.{i32, le_value, slice, u16, u32, u64, u8}
use cdp_go.Cdp.Registry.{hex_type, registry, type_hexes}
use cdp_go.Cdp.Result.{ok, ◌>>=◌}
use cdp_go.Cdp.Serial.{hex, hex_digit, serial_hex}
use cdp_go.Tests.Packets.{sample_datagram}
use cdp_go.Tests.Zones.{new_fence}

-- Messages of more than 60 bytes of subject are refused, so that both answers occur.
abbrev keep : Bytes → Bytes → List (Bytes × Bytes) → List (Bytes × Bytes) × Bool
keep subject body log =
    if ltb 60 (length subject) then (log, false) else (log ++ ((subject, body) ∷ []), true)

-- An envelope becomes its type's name; that of type 0x7ABC cannot be encoded.
abbrev pub services : Services (List (Bytes × Bytes))
services = record {
  marshal_envelope =
      λ env. if bytes_eq env.type_hex (codes "0x7ABC") then none else some env.type_name;
  marshal_event = λ ev. some ev.zone;
  send = keep;
  is_connected = λ _. true;
  now = λ log. (log, 5);
}

abbrev pub zeroes : Metrics
zeroes = record {
  datagrams_received = 0;
  decode_errors = 0;
  items_published = 0;
  publish_errors = 0;
  enter_events = 0;
  exit_events = 0;
}

abbrev plain : Bridge (List (Bytes × Bytes))
plain = record { world = []; metrics = zeroes; engine = none }

abbrev fenced : Bridge (List (Bytes × Bytes))
fenced = record { world = []; metrics = zeroes; engine = some new_fence }

publish-sent_for_example :
    let (after, answer) = publish services (codes "cdp") (codes "geofence") sample_datagram plain in
    (after.world ≡ sent_for services (codes "cdp") (codes "geofence") (decode sample_datagram) [])
    × (answer ≡ (decode sample_datagram >>= λ _. ok tt))
publish-sent_for_example =
    publish-sent_for services (codes "cdp") (codes "geofence") sample_datagram plain refl

publish-IsHandled_example :
    IsHandled services
      (codes "cdp")
      (codes "geofence")
      (decode sample_datagram)
      new_fence
      []
      (publish services (codes "cdp") (codes "geofence") sample_datagram fenced).0
publish-IsHandled_example =
    publish-IsHandled services (codes "cdp") (codes "geofence") sample_datagram fenced new_fence
      refl

publish_run : publish services (codes "cdp") (codes "geofence") sample_datagram plain ≡ (
  record {
    world = (codes "cdp.position.00000009", codes "PositionV3") ∷ [];
    metrics = record {
      datagrams_received = 1;
      decode_errors = 0;
      items_published = 1;
      publish_errors = 1;
      enter_events = 0;
      exit_events = 0;
    };
    engine = none;
  },
  ok tt,
)
unfolding publish publish_decoded publish_items publish_item send_item track item_subject
    envelope_of event_subject serial_hex decode decode_items items_loop decode_item decode_entry
    or_bad_item known_item type_hex_of type_hexes hex_type unknown_item unknown_name unknown_subject
    unknown_type_hex registry lookup decode_position_v3 slice le_value take drop u8 u16 u32 u64 i32
    signed hex hex_digit
publish_run = refl
