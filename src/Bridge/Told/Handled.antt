-- ===== src/Bridge/Told/Handled.antt =====
-- `publish` of internal/cdpbridge/publish.go with a geofence engine.
use mathlib.Core.Path.{subst}
use cdp_go.Base.{Bytes, List, Option-cases, [], ap, inl, inr, refl, some, sym, ◌++◌, ◌∙◌, ◌∷◌, ◌≡◌}
use cdp_go.Bridge.{
  Bridge, Services, count_datagram, count_publish_error, emit_events, envelope_of, item_subject,
  publish, publish_decoded, publish_items, send_item, track,
}
use cdp_go.Bridge.Counts.{send_item-engine}
use cdp_go.Bridge.Told.{
  IsHandled, IsPerformed, IsPerformed-append, IsTold, clock, ended, event_messages, passed, sent,
  skipped, tracked,
}
use cdp_go.Bridge.Told.Calls.{
  emit_events-IsPerformed, pass-publish_item, position_or_other, sent-IsPerformed,
  skip-publish_item, track-other, track_position,
}
use cdp_go.Cdp.Items.Position.{PositionV3}
use cdp_go.Cdp.Packet.{Item, Packet, PacketError, decode}
use cdp_go.Cdp.Payload.{position_v3}
use cdp_go.Cdp.Result.{Result, err, fault, ok}
use cdp_go.Geofence.Engine.{Engine, on_position}

module _ {W : Type 0} (s : Services W) (prefix geofence_prefix : Bytes) where
  -- The engine is told of a position at the time that the clock shows behind the message.
  IsTold-tracked :
      (pkt : Packet) (it : Item) (items : List Item) (b after : Bridge W) {e : Engine}
      {body : Bytes} (p : PositionV3)
      → s.marshal_envelope (envelope_of pkt it) ≡ some body
      → it.payload ≡ position_v3 p
      → let out = send_item s (item_subject prefix pkt it) body b in
        let now = (s.now out.world).1 in
        let answer = on_position now pkt.sender p e in
        IsTold s prefix geofence_prefix pkt items answer.0
          (emit_events s geofence_prefix answer.1
            (record out { world = (s.now out.world).0; engine = some answer.0 })).world
          after
        → IsTold s prefix geofence_prefix pkt (it ∷ items) e b.world after
  IsTold-tracked pkt it items b after {e} {body} p found is_p (effects, last, told, done, k) =
      let subject = item_subject prefix pkt it in
      let out = send_item s subject body b in
      let now = (s.now out.world).1 in
      let answer = on_position now pkt.sender p e in
      let asked = record out { world = (s.now out.world).0; engine = some answer.0 } in
      let (told_of, _) = emit_events-IsPerformed s prefix geofence_prefix answer.1 asked in
      (
        sent subject body ∷ clock now ∷ (event_messages s geofence_prefix answer.1 ++ effects),
        last,
        tracked p now found is_p told,
        subst
            (λ w.
              IsPerformed s (clock now ∷ (event_messages s geofence_prefix answer.1 ++ effects)) w
                after.world)
            (sent-IsPerformed s prefix geofence_prefix subject body b)
            (
              refl,
              IsPerformed-append s (event_messages s geofence_prefix answer.1) effects _ _ _ told_of
                  done,
            ),
        k,
      )

  -- The state behind the message of an item that can be marshaled, with an engine.
  sent_item-IsTold :
      (pkt : Packet) (it : Item) (items : List Item) (b : Bridge W) {e : Engine} {body : Bytes}
      → s.marshal_envelope (envelope_of pkt it) ≡ some body
      → (send_item s (item_subject prefix pkt it) body b).engine ≡ some e
      → ((b' : Bridge W) (e' : Engine)
          → b'.engine ≡ some e'
          → IsTold s prefix geofence_prefix pkt items e' b'.world
              (publish_items s prefix geofence_prefix pkt items b'))
      → IsTold s prefix geofence_prefix pkt (it ∷ items) e b.world (
          publish_items s prefix geofence_prefix pkt items (
            track s geofence_prefix pkt.sender it.payload
              (send_item s (item_subject prefix pkt it) body b)))
  sent_item-IsTold pkt it items b {e} {body} found same more =
      let subject = item_subject prefix pkt it in
      let out = send_item s subject body b in
      let go : Bridge W → Type 0 = λ x.
        IsTold s prefix geofence_prefix pkt (it ∷ items) e b.world
          (publish_items s prefix geofence_prefix pkt items x) in
      elim (position_or_other s prefix geofence_prefix it.payload) [
        | inl (p, is_p) ↦
            let answer = on_position (s.now out.world).1 pkt.sender p e in
            let asked = record out { world = (s.now out.world).0; engine = some answer.0 } in
            let next = emit_events s geofence_prefix answer.1 asked in
            let told =
              more next answer.0
                (emit_events-IsPerformed s prefix geofence_prefix answer.1 asked).1 in
            subst go
              (sym (
                ap (λ x. track s geofence_prefix pkt.sender x out) is_p
                ∙ track_position s prefix geofence_prefix pkt.sender p out same))
              (IsTold-tracked pkt it items b (publish_items s prefix geofence_prefix pkt items next)
                p found is_p told)
        | inr other ↦
            let after = publish_items s prefix geofence_prefix pkt items out in
            let (effects, last, told, done, k) = more out e same in
            let performed =
              subst (λ w. IsPerformed s effects w after.world)
                (sent-IsPerformed s prefix geofence_prefix subject body b) done in
            subst go (sym (track-other s prefix geofence_prefix pkt.sender it.payload out other))
              (sent subject body ∷ effects, last, passed found other told, performed, k)
      ]

  publish_items-IsTold :
      (pkt : Packet) (items : List Item) (b : Bridge W) (e : Engine)
      → b.engine ≡ some e
      → IsTold s prefix geofence_prefix pkt items e b.world
          (publish_items s prefix geofence_prefix pkt items b)
  unfolding publish_items
  publish_items-IsTold pkt [] b e h = ([], e, ended e, refl, h)
  publish_items-IsTold pkt (it ∷ items) b e h =
      let go : Bridge W → Type 0 = λ x.
        IsTold s prefix geofence_prefix pkt (it ∷ items) e b.world
          (publish_items s prefix geofence_prefix pkt items x) in
      let more = publish_items-IsTold pkt items in
      elim (Option-cases (s.marshal_envelope (envelope_of pkt it))) [
        | inl missing ↦
            let b' = record b { metrics = count_publish_error b.metrics } in
            let (effects, last, told, done, k) = more b' e h in
            subst go (sym (skip-publish_item s prefix geofence_prefix pkt it b missing))
              (effects, last, skipped missing told, done, k)
        | inr (body, found) ↦
            let subject = item_subject prefix pkt it in
            let unmoved = send_item-engine s prefix geofence_prefix subject body b in
            subst go (sym (pass-publish_item s prefix geofence_prefix pkt it b found))
              (sent_item-IsTold pkt it items b found (unmoved ∙ h) more)
      ]

  publish_decoded-IsHandled :
      (r : Result PacketError Packet) (b : Bridge W) (e : Engine)
      → b.engine ≡ some e
      → IsHandled s prefix geofence_prefix r e b.world
          (publish_decoded s prefix geofence_prefix r b).0
  unfolding publish_decoded
  publish_decoded-IsHandled (ok pkt) b e h = publish_items-IsTold pkt pkt.items b e h
  publish_decoded-IsHandled (err x) b e h = (refl, h)
  publish_decoded-IsHandled fault b e h = (refl, h)

  -- With a geofence engine, whatever the connection accepts: for a datagram that is decoded, `publish`
  -- calls the connection, the clock and the engine as the items of the packet are to be told, in their
  -- order and with nothing else, and keeps the engine that this leads to; for any other datagram the
  -- world and the engine stay as they are.
  pub publish-IsHandled :
      (datagram : Bytes) (b : Bridge W) (e : Engine)
      → b.engine ≡ some e
      → IsHandled s prefix geofence_prefix
          (decode datagram)
          e
          b.world
          (publish s prefix geofence_prefix datagram b).0
  unfolding publish
  publish-IsHandled datagram b e h =
      publish_decoded-IsHandled (decode datagram) (count_datagram s b) e h
