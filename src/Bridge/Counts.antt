-- ===== src/Bridge/Counts.antt =====
-- The counters that `publish` of internal/cdpbridge/publish.go raises.
use cdp_go.Base.{Bytes, arith, length, none, refl, ℕ, ◌+◌, ◌≡◌}
use cdp_go.Bridge.{Bridge, Metrics, Services, send_item, track}
use cdp_go.Cdp.Packet.{Packet, PacketError}
use cdp_go.Cdp.Payload.{Payload, position_v3}
use cdp_go.Cdp.Result.{Result, err, fault, ok}
use cdp_go.Cdp.Serial.{Serial}

-- `n` items more went through: each was published or failed, and no event was sent.
pub record IsCounted (n : ℕ) (m after : Metrics) : Type 0 where
  pub received : after.datagrams_received ≡ m.datagrams_received
  pub refused : after.decode_errors ≡ m.decode_errors
  pub items :
      after.items_published + after.publish_errors ≡ m.items_published + m.publish_errors + n
  pub enters : after.enter_events ≡ m.enter_events
  pub exits : after.exit_events ≡ m.exit_events

-- What one datagram adds to the counters.
abbrev pub Accounts : Result PacketError Packet → Metrics → Metrics → Type 0
Accounts (ok pkt) m after =
    IsCounted (length pkt.items) (record m { datagrams_received = m.datagrams_received + 1 }) after
Accounts (err _) m after = after ≡ record m {
  datagrams_received = m.datagrams_received + 1;
  decode_errors = m.decode_errors + 1;
}
Accounts fault m after = ⊥

module _ {W : Type 0} (s : Services W) (prefix geofence_prefix : Bytes) where
  pub track-none :
      (sender : Serial) (p : Payload) (b : Bridge W)
      → b.engine ≡ none
      → track s geofence_prefix sender p b ≡ b
  unfolding track
  track-none sender (position_v3 p) b h = rw h refl
  track-none sender _ b h = refl

  pub send_item-engine :
      (subject body : Bytes) (b : Bridge W) → (send_item s subject body b).engine ≡ b.engine
  unfolding send_item
  send_item-engine subject body b = ground arith
