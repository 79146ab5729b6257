-- ===== src/Bridge/Tracking.antt =====
-- The geofence engine behind `publish` of internal/cdpbridge/publish.go.
use mathlib.Core.Path.{subst}
use cdp_go.Base.{
  Bytes, List, Option, Option-cases, [], arith, inl, inr, none, refl, some, sym, ◌∙◌, ◌∷◌, ◌≡◌,
}
use cdp_go.Bridge.{
  Bridge, Services, count_datagram, emit_event, emit_events, envelope_of, item_subject, publish,
  publish_decoded, publish_item, publish_items, send_item, track,
}
use cdp_go.Bridge.Counts.{send_item-engine}
use cdp_go.Cdp.Packet.{Item, Packet, PacketError, decode}
use cdp_go.Cdp.Payload.{Payload, position_v3}
use cdp_go.Cdp.Result.{Result, err, fault, ok}
use cdp_go.Cdp.Serial.{Serial}
use cdp_go.Geofence.Engine.{Engine, Event, on_position}
use cdp_go.Geofence.Engine.Invariant.{IsEngine}
use cdp_go.Geofence.Engine.Steps.{on_position-IsEngine}

abbrev pub IsTracking : Option Engine → Type 0
IsTracking none = Unit
IsTracking (some e) = IsEngine e

module _ {W : Type 0} (s : Services W) (prefix geofence_prefix : Bytes) where
  emit_event-engine :
      (ev : Event) (b : Bridge W) → (emit_event s geofence_prefix ev b).0.engine ≡ b.engine
  unfolding emit_event
  emit_event-engine ev b = ground arith

  emit_events-engine :
      (events : List Event) (b : Bridge W)
      → (emit_events s geofence_prefix events b).engine ≡ b.engine
  unfolding emit_events
  emit_events-engine [] b = refl
  emit_events-engine (ev ∷ events) b =
      emit_events-engine events (emit_event s geofence_prefix ev b).0 ∙ emit_event-engine ev b

  emitted-IsTracking :
      (events : List Event) (b : Bridge W)
      → IsTracking b.engine
      → IsTracking (emit_events s geofence_prefix events b).engine
  emitted-IsTracking events b h = subst IsTracking (sym (emit_events-engine events b)) h

  track-IsTracking :
      (sender : Serial) (p : Payload) (b : Bridge W)
      → IsTracking b.engine
      → IsTracking (track s geofence_prefix sender p b).engine
  unfolding track
  track-IsTracking sender (position_v3 p) b h = elim (Option-cases b.engine) [
    | inl idle ↦ rw idle tt
    | inr (e, found) ↦
        let (w, now) = s.now b.world in
        let (after, events, _) = on_position now sender p e in
        rw (found, track)
          (emitted-IsTracking events (record b { world = w; engine = some after })
            (on_position-IsEngine now sender p e (rw found at h)))
  ]
  track-IsTracking sender _ b h = h

  publish_item-IsTracking :
      (pkt : Packet) (it : Item) (b : Bridge W)
      → IsTracking b.engine
      → IsTracking (publish_item s prefix geofence_prefix pkt it b).engine
  unfolding publish_item
  publish_item-IsTracking pkt it b h =
      elim (Option-cases (s.marshal_envelope (envelope_of pkt it))) [
        | inl missing ↦ rw (missing, publish_item) h
        | inr (body, found) ↦
            let sent = send_item s (item_subject prefix pkt it) body b in
            let kept =
              send_item-engine s prefix geofence_prefix (item_subject prefix pkt it) body b in
            rw (found, publish_item)
              (track-IsTracking pkt.sender it.payload sent (subst IsTracking (sym kept) h))
      ]

  publish_items-IsTracking :
      (pkt : Packet) (items : List Item) (b : Bridge W)
      → IsTracking b.engine
      → IsTracking (publish_items s prefix geofence_prefix pkt items b).engine
  unfolding publish_items
  publish_items-IsTracking pkt [] b h = h
  publish_items-IsTracking pkt (it ∷ items) b h =
      publish_items-IsTracking pkt items (publish_item s prefix geofence_prefix pkt it b)
        (publish_item-IsTracking pkt it b h)

  publish_decoded-IsTracking :
      (r : Result PacketError Packet) (b : Bridge W)
      → IsTracking b.engine
      → IsTracking (publish_decoded s prefix geofence_prefix r b).0.engine
  unfolding publish_decoded
  publish_decoded-IsTracking (ok pkt) b h = publish_items-IsTracking pkt pkt.items b h
  publish_decoded-IsTracking (err e) b h = h
  publish_decoded-IsTracking fault b h = h

  -- If there is no engine or its invariant holds, the same is true after `publish` of any datagram,
  -- whichever messages the connection accepts.
  pub publish-IsTracking :
      (datagram : Bytes) (b : Bridge W)
      → IsTracking b.engine
      → IsTracking (publish s prefix geofence_prefix datagram b).0.engine
  unfolding publish
  publish-IsTracking datagram b h =
      publish_decoded-IsTracking (decode datagram) (count_datagram s b) h
