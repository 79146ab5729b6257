-- ===== src/Bridge/Told/Calls.antt =====
-- What the calls that `publish` of internal/cdpbridge/publish.go makes do to the world and the engine.
use cdp_go.Base.{
  Bytes, List, Option-cases, [], arith, inl, inr, none, refl, some, ◌∙◌, ◌∷◌, ◌≡◌, ◌≢◌, ◌⊎◌,
}
use cdp_go.Bridge.{
  Bridge, Services, count_publish_error, emit_event, emit_events, envelope_of, item_subject,
  publish_item, send_item, track,
}
use cdp_go.Bridge.Told.{IsPerformed, IsPerformed-append, event_message, event_messages}
use cdp_go.Cdp.Items.Position.{PositionV3}
use cdp_go.Cdp.Packet.{Item, Packet}
use cdp_go.Cdp.Payload.{Payload, position_v3}
use cdp_go.Cdp.Serial.{Serial}
use cdp_go.Geofence.Engine.{Engine, Event, on_position}

module _ {W : Type 0} (s : Services W) (prefix geofence_prefix : Bytes) where
  emit_event-IsPerformed :
      (ev : Event) (b : Bridge W)
      → IsPerformed s
          (event_message s geofence_prefix ev)
          b.world
          (emit_event s geofence_prefix ev b).0.world
        × ((emit_event s geofence_prefix ev b).0.engine ≡ b.engine)
  unfolding emit_event
  emit_event-IsPerformed ev b = elim (Option-cases (s.marshal_event ev)) [
    | inl missing ↦ rw (missing, event_message, emit_event) (refl, refl)
    | inr (body, found) ↦ rw (found, event_message, emit_event) (ground arith)
  ]

  pub emit_events-IsPerformed :
      (events : List Event) (b : Bridge W)
      → IsPerformed s
          (event_messages s geofence_prefix events)
          b.world
          (emit_events s geofence_prefix events b).world
        × ((emit_events s geofence_prefix events b).engine ≡ b.engine)
  unfolding emit_events
  emit_events-IsPerformed [] b = (refl, refl)
  emit_events-IsPerformed (ev ∷ events) b =
      let next = (emit_event s geofence_prefix ev b).0 in
      let (here, same) = emit_event-IsPerformed ev b in
      let (more, unmoved) = emit_events-IsPerformed events next in
      (
        IsPerformed-append s (event_message s geofence_prefix ev)
            (event_messages s geofence_prefix events) b.world next.world _ here more,
        unmoved ∙ same,
      )

  pub position_or_other :
      (x : Payload)
      → ((p : PositionV3) × (x ≡ position_v3 p)) ⊎ ((p : PositionV3) → x ≢ position_v3 p)
  position_or_other (position_v3 p) = inl (p, refl)
  position_or_other _ = inr (λ p e. cc)

  pub track-other :
      (sender : Serial) (x : Payload) (b : Bridge W)
      → ((p : PositionV3) → x ≢ position_v3 p)
      → track s geofence_prefix sender x b ≡ b
  unfolding track
  track-other sender (position_v3 p) b h = absurd (h p refl)
  track-other sender _ b h = refl

  pub track_position :
      (sender : Serial) (p : PositionV3) (b : Bridge W) {e : Engine}
      → b.engine ≡ some e
      → track s geofence_prefix sender (position_v3 p) b
        ≡ emit_events s geofence_prefix (on_position (s.now b.world).1 sender p e).1 (record b {
          world = (s.now b.world).0;
          engine = some (on_position (s.now b.world).1 sender p e).0;
        })
  unfolding track
  track_position sender p b h = rw (h, track) refl

  pub sent-IsPerformed :
      (subject body : Bytes) (b : Bridge W)
      → (send_item s subject body b).world ≡ (s.send subject body b.world).0
  unfolding send_item
  sent-IsPerformed subject body b = ground arith

  pub skip-publish_item :
      (pkt : Packet) (it : Item) (b : Bridge W)
      → s.marshal_envelope (envelope_of pkt it) ≡ none
      → publish_item s prefix geofence_prefix pkt it b
        ≡ record b { metrics = count_publish_error b.metrics }
  unfolding publish_item
  skip-publish_item pkt it b h = rw (h, publish_item) refl

  pub pass-publish_item :
      (pkt : Packet) (it : Item) (b : Bridge W) {body : Bytes}
      → s.marshal_envelope (envelope_of pkt it) ≡ some body
      → publish_item s prefix geofence_prefix pkt it b
        ≡ track s geofence_prefix pkt.sender it.payload
            (send_item s (item_subject prefix pkt it) body b)
  unfolding publish_item
  pass-publish_item pkt it b h = rw (h, publish_item) refl
