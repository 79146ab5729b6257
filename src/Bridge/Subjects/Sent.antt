-- ===== src/Bridge/Subjects/Sent.antt =====
-- Every message that internal/cdpbridge hands to the connection has a subject that is a NATS subject.
use mathlib.Core.Path.{subst}
use cdp_go.Base.{
  All, Bool-cases, Bytes, List, Option, Option-cases, [], arith, inl, inr, none, refl, some, sym,
  ◌∷◌, ◌≡◌,
}
use cdp_go.Base.Assoc.{lookup}
use cdp_go.Bridge.{
  Bridge, Services, count_datagram, emit_event, emit_events, envelope_of, event_subject,
  item_subject, publish, publish_decoded, publish_item, publish_items, send_item, track,
}
use cdp_go.Bridge.Subjects.{IsSubject, IsToken}
use cdp_go.Bridge.Subjects.Events.{
  IsFenced, event_subject-IsSubject, on_position-IsFenced, on_position_slugs,
}
use cdp_go.Bridge.Subjects.Items.{bytes-IsToken, decoded-IsToken, item_subject-IsSubject}
use cdp_go.Cdp.Packet.{Item, Packet, PacketError, decode}
use cdp_go.Cdp.Packet.Outcome.{Outcome, decode-Outcome}
use cdp_go.Cdp.Payload.{Payload, position_v3}
use cdp_go.Cdp.Readers.{IsByte}
use cdp_go.Cdp.Result.{Result, err, fault, ok}
use cdp_go.Cdp.Serial.{Serial}
use cdp_go.Geofence.Config.{GeofenceConfig, build}
use cdp_go.Geofence.Config.Built.{IsZone, build-IsZone}
use cdp_go.Geofence.Config.Slug.{slugify_zone_name-IsSlug}
use cdp_go.Geofence.Engine.{Engine, Event, new_engine, on_position}
use cdp_go.Geofence.Geometry.{Zone}
use cdp_go.Strings.{Unicode}
use cdp_go.Strings.Tokens.{IsTokenByte}

abbrev pub IsFencedIf : Option Engine → Type 0
IsFencedIf none = Unit
IsFencedIf (some e) = IsFenced e

-- What the world keeps when the clock is read, and when a message with a good subject is sent.
pub record IsKept {W : Type 0} (s : Services W) (Q : W → Type 0) : Type 0 where
  pub by_clock : (w : W) → Q w → Q (s.now w).0
  pub by_send :
      (subject body : Bytes) (w : W) → IsSubject subject → Q w → Q (s.send subject body w).0

module _ {W : Type 0} (s : Services W) (Q : W → Type 0) (kept : IsKept s Q)
    (prefix geofence_prefix : Bytes) (h : IsSubject prefix) (g : IsSubject geofence_prefix) where
  record IsSafe (b : Bridge W) : Type 0 where
    pub world : Q b.world
    pub engine : IsFencedIf b.engine

  emit_event-IsSafe :
      (ev : Event) (b : Bridge W)
      → IsToken ev.zone_slug
      → IsSafe b
      → IsSafe (emit_event s geofence_prefix ev b).0
  unfolding emit_event
  emit_event-IsSafe ev b k safe = elim (Option-cases (s.marshal_event ev)) [
    | inl missing ↦ rw (missing, emit_event) (record { world = safe.world; engine = safe.engine })
    | inr (body, found) ↦
        let subject = event_subject geofence_prefix ev in
        let good =
          kept.by_send subject body b.world (event_subject-IsSubject geofence_prefix ev g k)
            safe.world in
        elim (Bool-cases (s.send subject body b.world).1) [
          | inl accepted ↦
              rw (found, accepted, emit_event) (record { world = good; engine = safe.engine })
          | inr refused ↦
              rw (found, refused, emit_event) (record { world = good; engine = safe.engine })
        ]
  ]

  emit_events-IsSafe :
      (events : List Event) (b : Bridge W)
      → All (λ (ev : Event). IsToken ev.zone_slug) events
      → IsSafe b
      → IsSafe (emit_events s geofence_prefix events b)
  unfolding emit_events
  emit_events-IsSafe [] b k safe = safe
  emit_events-IsSafe (ev ∷ events) b k safe =
      emit_events-IsSafe events (emit_event s geofence_prefix ev b).0 k.1
        (emit_event-IsSafe ev b k.0 safe)

  track-IsSafe :
      (sender : Serial) (p : Payload) (b : Bridge W)
      → IsSafe b
      → IsSafe (track s geofence_prefix sender p b)
  unfolding track
  track-IsSafe sender (position_v3 p) b safe = elim (Option-cases b.engine) [
    | inl idle ↦ rw idle (record { world = safe.world; engine = tt })
    | inr (e, found) ↦
        let (w, now) = s.now b.world in
        let (after, events, _) = on_position now sender p e in
        let fenced : IsFenced e = subst IsFencedIf found safe.engine in
        rw (found, track)
          (emit_events-IsSafe events (record b { world = w; engine = some after })
            (on_position_slugs now sender p e fenced)
            (record {
              world = kept.by_clock b.world safe.world;
              engine = on_position-IsFenced now sender p e fenced;
            }))
  ]
  track-IsSafe sender _ b safe = safe

  send_item-IsSafe :
      (subject body : Bytes) (b : Bridge W)
      → IsSubject subject
      → IsSafe b
      → IsSafe (send_item s subject body b)
  unfolding send_item
  send_item-IsSafe subject body b k safe =
      let good = kept.by_send subject body b.world k safe.world in
      elim (Bool-cases (s.send subject body b.world).1) [
        | inl accepted ↦ rw accepted (record { world = good; engine = safe.engine })
        | inr refused ↦ rw refused (record { world = good; engine = safe.engine })
      ]

  publish_item-IsSafe :
      (pkt : Packet) (it : Item) (b : Bridge W)
      → IsToken it.subject
      → IsSafe b
      → IsSafe (publish_item s prefix geofence_prefix pkt it b)
  unfolding publish_item
  publish_item-IsSafe pkt it b k safe =
      elim (Option-cases (s.marshal_envelope (envelope_of pkt it))) [
        | inl missing ↦
            rw (missing, publish_item) (record { world = safe.world; engine = safe.engine })
        | inr (body, found) ↦
            let subject = item_subject prefix pkt it in
            rw (found, publish_item)
              (track-IsSafe pkt.sender it.payload (send_item s subject body b) (
                send_item-IsSafe subject body b
                  (item_subject-IsSubject s prefix geofence_prefix h pkt it k) safe))
      ]

  publish_items-IsSafe :
      (pkt : Packet) (items : List Item) (b : Bridge W)
      → All (λ (it : Item). IsToken it.subject) items
      → IsSafe b
      → IsSafe (publish_items s prefix geofence_prefix pkt items b)
  unfolding publish_items
  publish_items-IsSafe pkt [] b k safe = safe
  publish_items-IsSafe pkt (it ∷ items) b k safe =
      publish_items-IsSafe pkt items (publish_item s prefix geofence_prefix pkt it b) k.1
        (publish_item-IsSafe pkt it b k.0 safe)

  publish_decoded-IsSafe :
      (datagram : Bytes) (r : Result PacketError Packet) (b : Bridge W)
      → Outcome datagram r
      → IsSafe b
      → IsSafe (publish_decoded s prefix geofence_prefix r b).0
  unfolding publish_decoded
  publish_decoded-IsSafe datagram (ok pkt) b o safe =
      publish_items-IsSafe pkt pkt.items b (decoded-IsToken datagram pkt (ok pkt) refl o) safe
  publish_decoded-IsSafe datagram (err e) b o safe = record {
    world = safe.world;
    engine = safe.engine;
  }
  publish_decoded-IsSafe datagram fault b o safe = safe

  -- `publish` of a datagram of bytes, with an engine or without: if both prefixes are subjects, the
  -- engine's zones have tokens for slugs and its names are those of zones, then whatever the world
  -- keeps when messages with good subjects are sent and the clock is read, it keeps; and the same
  -- is true of the engine after the call. So no message has another kind of subject.
  pub publish-sends_subjects :
      (datagram : Bytes) (b : Bridge W)
      → All IsByte datagram
      → Q b.world
      → IsFencedIf b.engine
      → let after = (publish s prefix geofence_prefix datagram b).0 in
        Q after.world × IsFencedIf after.engine
  unfolding publish
  publish-sends_subjects datagram b bytes q e =
      let safe =
        publish_decoded-IsSafe datagram (decode datagram) (count_datagram s b)
          (decode-Outcome datagram bytes) (record { world = q; engine = e }) in
      (safe.world, safe.engine)

zones-slugged :
    (u : Unicode) (zones : List Zone)
    → All (IsZone u) zones
    → All (λ (z : Zone). IsToken z.slug) zones
zones-slugged u [] h = tt
zones-slugged u (z ∷ zones) h = (
  bytes-IsToken z.slug h.0.filled
      (subst (All IsTokenByte) (sym h.0.slug) (slugify_zone_name-IsSlug u z.name).token),
  zones-slugged u zones h.1,
)

-- The engine over zones that `Build` returns starts in such a state.
pub build-IsFenced :
    (u : Unicode) (c : GeofenceConfig) {zones : List Zone}
    → build u c ≡ ok zones
    → IsFenced (new_engine zones c.hysteresis c.tag_ttl)
unfolding new_engine
build-IsFenced u c {zones} e = record {
  slugged = zones-slugged u zones (build-IsZone u c e).0;
  is_map = tt;
  named = unfold lookup in λ k st found. absurd (ground (arith, found));
}
