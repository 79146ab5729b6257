-- ===== src/Bridge.antt =====
-- internal/cdpbridge: publish.go and geofence_sink.go, with the counters of internal/metrics that
-- they raise. Log lines are not modelled.
pub mod Counts
pub mod Messages
pub mod Tracking
pub mod Told
pub mod Config
pub mod Subjects
pub mod Run
use cdp_go.Base.{
  Bool, Bytes, List, Option, [], codes, false, if◌then◌else◌, none, not, some, true, ℕ, ◌++◌, ◌+◌,
  ◌∷◌,
}
use cdp_go.Cdp.Packet.{Item, Packet, PacketError, decode}
use cdp_go.Cdp.Payload.{Payload, position_v3}
use cdp_go.Cdp.Result.{Result, err, fault, ok}
use cdp_go.Cdp.Serial.{Serial, serial_hex}
use cdp_go.Geofence.Engine.{Engine, Event, EventType, enter, exit, on_position}

-- `envelope` and `envelopePacket`; the field `payload` is its `data`.
pub record Envelope : Type 0 where
  pub type_hex : Bytes
  pub type_name : Bytes
  pub sequence : ℕ
  pub sender_serial : Serial
  pub payload : Payload

-- The counters of internal/metrics/metrics.go; `GeofenceEvents` has a counter for each label.
pub record Metrics : Type 0 where
  pub datagrams_received : ℕ
  pub decode_errors : ℕ
  pub items_published : ℕ
  pub publish_errors : ℕ
  pub enter_events : ℕ
  pub exit_events : ℕ

-- What the bridge calls, over the state `W` of the world outside: `json.Marshal`, the clock, and
-- `Publish` and `Status` of the NATS connection. `send` answers whether the message was accepted.
pub record Services (W : Type 0) : Type 0 where
  pub marshal_envelope : Envelope → Option Bytes
  pub marshal_event : Event → Option Bytes
  pub send : Bytes → Bytes → W → W × Bool
  pub is_connected : W → Bool
  pub now : W → W × ℕ

-- The world, the counters, and the geofence engine if there is one.
pub record Bridge (W : Type 0) : Type 0 where
  pub world : W
  pub metrics : Metrics
  pub engine : Option Engine

abbrev pub count_publish_error : Metrics → Metrics
count_publish_error m = record m { publish_errors = m.publish_errors + 1 }

abbrev pub count_event : EventType → Metrics → Metrics
count_event enter m = record m { enter_events = m.enter_events + 1 }
count_event exit m = record m { exit_events = m.exit_events + 1 }

abbrev pub event_name : EventType → Bytes
event_name enter = codes "enter"
event_name exit = codes "exit"

-- `%s.%s`.
abbrev pub dotted : Bytes → Bytes → Bytes
dotted a b = a ++ (b'.' ∷ b)

unfoldable pub event_subject : Bytes → Event → Bytes
event_subject prefix ev =
    dotted prefix (dotted (event_name ev.kind) (dotted (serial_hex ev.tag) ev.zone_slug))

unfoldable pub item_subject : Bytes → Packet → Item → Bytes
item_subject prefix pkt it = dotted prefix (dotted it.subject (serial_hex pkt.sender))

unfoldable pub envelope_of : Packet → Item → Envelope
envelope_of pkt it = record {
  type_hex = it.type_hex;
  type_name = it.name;
  sequence = pkt.sequence;
  sender_serial = pkt.sender;
  payload = it.payload;
}

module _ {W : Type 0} (s : Services W) where
  -- `natsGeofenceSink.Emit`; the answer is false for an error.
  unfoldable pub emit_event : Bytes → Event → Bridge W → Bridge W × Bool
  emit_event prefix ev b = elim (s.marshal_event ev) [
    | none ↦ (record b { metrics = count_publish_error b.metrics }, false)
    | some body ↦
        let (w, accepted) = s.send (event_subject prefix ev) body b.world in
        if accepted
        then (record b { world = w; metrics = count_event ev.kind b.metrics }, true)
        else (
          record b { world = w; metrics = count_publish_error b.metrics },
          not (s.is_connected w),
        )
  ]

  -- The calls of the sink that one `OnPosition` makes; it logs their errors and goes on.
  unfoldable pub emit_events : Bytes → List Event → Bridge W → Bridge W
  emit_events prefix [] b = b
  emit_events prefix (ev ∷ events) b = emit_events prefix events (emit_event prefix ev b).0

  -- `engine.OnPosition(pkt.Sender, pos)` for a payload that is a position.
  unfoldable pub track : Bytes → Serial → Payload → Bridge W → Bridge W
  track prefix sender (position_v3 p) b = elim b.engine [
    | none ↦ b
    | some e ↦
        let (w, now) = s.now b.world in
        let (after, events, _) = on_position now sender p e in
        emit_events prefix events (record b { world = w; engine = some after })
  ]
  track prefix sender _ b = b

  -- The counting behind `nc.Publish`.
  unfoldable pub send_item : Bytes → Bytes → Bridge W → Bridge W
  send_item subject body b =
      let (w, accepted) = s.send subject body b.world in
      if accepted
      then record b {
        world = w;
        metrics = record b.metrics { items_published = b.metrics.items_published + 1 };
      }
      else record b { world = w; metrics = count_publish_error b.metrics }

  -- The body of the loop in `publish`: an item that cannot be marshaled is not tracked either.
  unfoldable pub publish_item : Bytes → Bytes → Packet → Item → Bridge W → Bridge W
  publish_item prefix geofence_prefix pkt it b = elim (s.marshal_envelope (envelope_of pkt it)) [
    | none ↦ record b { metrics = count_publish_error b.metrics }
    | some body ↦
        track geofence_prefix pkt.sender it.payload (send_item (item_subject prefix pkt it) body b)
  ]

  unfoldable pub publish_items : Bytes → Bytes → Packet → List Item → Bridge W → Bridge W
  publish_items prefix geofence_prefix pkt [] b = b
  publish_items prefix geofence_prefix pkt (it ∷ items) b =
      publish_items prefix geofence_prefix pkt items (publish_item prefix geofence_prefix pkt it b)

  abbrev pub count_datagram : Bridge W → Bridge W
  count_datagram b = record b {
    metrics = record b.metrics { datagrams_received = b.metrics.datagrams_received + 1 };
  }

  abbrev pub count_decode_error : Bridge W → Bridge W
  count_decode_error b = record b {
    metrics = record b.metrics { decode_errors = b.metrics.decode_errors + 1 };
  }

  -- What `publish` does with the answer of `Decode`.
  unfoldable pub publish_decoded :
      Bytes
      → Bytes
      → Result PacketError Packet
      → Bridge W
      → Bridge W × Result PacketError (Unit {0})
  publish_decoded prefix geofence_prefix (ok pkt) b =
      (publish_items prefix geofence_prefix pkt pkt.items b, ok tt)
  publish_decoded prefix geofence_prefix (err e) b = (count_decode_error b, err e)
  publish_decoded prefix geofence_prefix fault b = (b, fault)

  -- `publish`, with the error that it wraps.
  unfoldable pub publish :
      Bytes → Bytes → Bytes → Bridge W → Bridge W × Result PacketError (Unit {0})
  publish prefix geofence_prefix datagram b =
      publish_decoded prefix geofence_prefix (decode datagram) (count_datagram b)
