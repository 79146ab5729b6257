-- ===== src/Bridge/Messages.antt =====
-- The messages of `publish` of internal/cdpbridge/publish.go.
use cdp_go.Base.{
  Bytes, List, Option-cases, [], ap, arith, inl, inr, none, refl, some, sym, ◌++◌, ◌∙◌, ◌∷◌, ◌≡◌,
}
use cdp_go.Bridge.{
  Bridge, Services, count_datagram, envelope_of, item_subject, publish, publish_decoded,
  publish_item, publish_items, send_item,
}
use cdp_go.Bridge.Counts.{send_item-engine, track-none}
use cdp_go.Cdp.Packet.{Item, Packet, PacketError, decode}
use cdp_go.Cdp.Result.{Result, err, fault, ok, ◌>>=◌}

module _ {W : Type 0} (s : Services W) (prefix geofence_prefix : Bytes) where
  -- The message for an item, a subject and a body; there is none if it cannot be marshaled.
  unfoldable pub message_of : Packet → Item → List (Bytes × Bytes)
  message_of pkt it = elim (s.marshal_envelope (envelope_of pkt it)) [
    | none ↦ []
    | some body ↦ (item_subject prefix pkt it, body) ∷ []
  ]

  unfoldable pub messages : Packet → List Item → List (Bytes × Bytes)
  messages pkt [] = []
  messages pkt (it ∷ items) = message_of pkt it ++ messages pkt items

  -- The world after they were handed to the connection one after the other.
  unfoldable pub send_all : List (Bytes × Bytes) → W → W
  send_all [] w = w
  send_all ((subject, body) ∷ msgs) w = send_all msgs (s.send subject body w).0

  send_item-world :
      (subject body : Bytes) (b : Bridge W)
      → (send_item s subject body b).world ≡ (s.send subject body b.world).0
  unfolding send_item
  send_item-world subject body b = ground arith

  send_all-append :
      (xs ys : List (Bytes × Bytes)) (w : W) → send_all (xs ++ ys) w ≡ send_all ys (send_all xs w)
  unfolding send_all
  send_all-append [] ys w = refl
  send_all-append ((subject, body) ∷ xs) ys w = send_all-append xs ys (s.send subject body w).0

  publish_item-message_of :
      (pkt : Packet) (it : Item) (b : Bridge W)
      → b.engine ≡ none
      → ((publish_item s prefix geofence_prefix pkt it b).world
          ≡ send_all (message_of pkt it) b.world)
        × ((publish_item s prefix geofence_prefix pkt it b).engine ≡ none)
  unfolding publish_item send_all message_of
  publish_item-message_of pkt it b h =
      elim (Option-cases (s.marshal_envelope (envelope_of pkt it))) [
        | inl missing ↦ rw (missing, publish_item, message_of) (refl, h)
        | inr (body, found) ↦
            let subject = item_subject prefix pkt it in
            let sent = send_item s subject body b in
            let idle = send_item-engine s prefix geofence_prefix subject body b ∙ h in
            rw
              (
                found,
                publish_item,
                message_of,
                track-none s prefix geofence_prefix pkt.sender it.payload sent idle,
              )
              (send_item-world subject body b, idle)
      ]

  publish_items-messages :
      (pkt : Packet) (items : List Item) (b : Bridge W)
      → b.engine ≡ none
      → (publish_items s prefix geofence_prefix pkt items b).world
        ≡ send_all (messages pkt items) b.world
  unfolding publish_items messages
  publish_items-messages pkt [] b h = unfold send_all in refl
  publish_items-messages pkt (it ∷ items) b h =
      let first = publish_item-message_of pkt it b h in
      publish_items-messages pkt items (publish_item s prefix geofence_prefix pkt it b) first.1
      ∙ ap (send_all (messages pkt items)) first.0
      ∙ sym (send_all-append (message_of pkt it) (messages pkt items) b.world)

  -- What the connection gets for an answer of `Decode`.
  unfoldable pub sent_for : Result PacketError Packet → W → W
  sent_for (ok pkt) w = send_all (messages pkt pkt.items) w
  sent_for (err _) w = w
  sent_for fault w = w

  publish_decoded-sent_for :
      (r : Result PacketError Packet) (b : Bridge W)
      → b.engine ≡ none
      → ((publish_decoded s prefix geofence_prefix r b).0.world ≡ sent_for r b.world)
        × ((publish_decoded s prefix geofence_prefix r b).1 ≡ (r >>= λ _. ok tt))
  unfolding publish_decoded sent_for
  publish_decoded-sent_for (ok pkt) b h = (publish_items-messages pkt pkt.items b h, refl)
  publish_decoded-sent_for (err e) b h = (refl, refl)
  publish_decoded-sent_for fault b h = (refl, refl)

  -- Without an engine, `publish` hands the connection one message for each item that can be
  -- marshaled, in the packet's order, whether or not earlier ones were accepted, and answers no
  -- error; a datagram that does not decode sends nothing, and its error is the answer.
  pub publish-sent_for :
      (datagram : Bytes) (b : Bridge W)
      → b.engine ≡ none
      → let (after, answer) = publish s prefix geofence_prefix datagram b in
        (after.world ≡ sent_for (decode datagram) b.world)
        × (answer ≡ (decode datagram >>= λ _. ok tt))
  unfolding publish
  publish-sent_for datagram b h = publish_decoded-sent_for (decode datagram) (count_datagram s b) h
