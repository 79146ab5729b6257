-- ===== src/Bridge/Told.antt =====
-- What `publish` of internal/cdpbridge/publish.go is to do to the world and to the geofence engine,
-- item by item.
pub mod Calls
pub mod Handled
use mathlib.Core.Path.{subst}
use cdp_go.Base.{Bytes, List, [], none, some, sym, ℕ, ◌++◌, ◌∷◌, ◌≡◌, ◌≢◌}
use cdp_go.Bridge.{Bridge, Services, envelope_of, event_subject, item_subject}
use cdp_go.Cdp.Items.Position.{PositionV3}
use cdp_go.Cdp.Packet.{Item, Packet, PacketError}
use cdp_go.Cdp.Payload.{position_v3}
use cdp_go.Cdp.Result.{Result, err, fault, ok}
use cdp_go.Geofence.Engine.{Engine, Event, on_position}

-- A call that `publish` makes on the outside: a message handed to the connection, or a reading of
-- the clock.
pub data Effect : Type 0 where
  sent : Bytes → Bytes → Effect
  clock : ℕ → Effect

module _ {W : Type 0} (s : Services W) where
  -- The effects lead from the one world to the other, whichever messages are accepted.
  abbrev pub IsPerformed : List Effect → W → W → Type 0
  IsPerformed [] w v = w ≡ v
  IsPerformed (sent subject body ∷ effects) w v = IsPerformed effects (s.send subject body w).0 v
  IsPerformed (clock now ∷ effects) w v = ((s.now w).1 ≡ now) × IsPerformed effects (s.now w).0 v

  pub IsPerformed-append :
      (xs ys : List Effect) (w v u : W)
      → IsPerformed xs w v
      → IsPerformed ys v u
      → IsPerformed (xs ++ ys) w u
  IsPerformed-append [] ys w v u h k = subst (λ x. IsPerformed ys x u) (sym h) k
  IsPerformed-append (sent subject body ∷ xs) ys w v u h k =
      IsPerformed-append xs ys (s.send subject body w).0 v u h k
  IsPerformed-append (clock now ∷ xs) ys w v u h k =
      (h.0, IsPerformed-append xs ys (s.now w).0 v u h.1 k)

module _ {W : Type 0} (s : Services W) (geofence_prefix : Bytes) where
  -- The message for an event, if it can be marshaled.
  abbrev pub event_message : Event → List Effect
  event_message ev = elim (s.marshal_event ev) [
    | none ↦ []
    | some body ↦ sent (event_subject geofence_prefix ev) body ∷ []
  ]

  abbrev pub event_messages : List Event → List Effect
  event_messages [] = []
  event_messages (ev ∷ events) = event_message ev ++ event_messages events

module _ {W : Type 0} (s : Services W) (prefix geofence_prefix : Bytes) where
  -- What the items of a packet are to do, from an engine to an engine: nothing for an item that
  -- cannot be marshaled; its message for one that is no position; and for a position its message,
  -- then a reading of the clock, and a message for each event that the engine answers at that time
  -- for the packet's sender and that can be marshaled.
  pub data Told (pkt : Packet) : Engine → List Item → List Effect → Engine → Type 0 where
    ended : (e : Engine) → Told pkt e [] [] e
    skipped :
        {e after : Engine} {it : Item} {items : List Item} {effects : List Effect}
        → s.marshal_envelope (envelope_of pkt it) ≡ none
        → Told pkt e items effects after
        → Told pkt e (it ∷ items) effects after
    passed :
        {e after : Engine} {it : Item} {items : List Item} {effects : List Effect} {body : Bytes}
        → s.marshal_envelope (envelope_of pkt it) ≡ some body
        → ((p : PositionV3) → it.payload ≢ position_v3 p)
        → Told pkt e items effects after
        → Told pkt e (it ∷ items) (sent (item_subject prefix pkt it) body ∷ effects) after
    tracked :
        {e after : Engine} {it : Item} {items : List Item} {effects : List Effect} {body : Bytes}
        (p : PositionV3) (now : ℕ)
        → s.marshal_envelope (envelope_of pkt it) ≡ some body
        → it.payload ≡ position_v3 p
        → Told pkt (on_position now pkt.sender p e).0 items effects after
        → Told pkt e
            (it ∷ items)
            (sent (item_subject prefix pkt it) body
              ∷ clock now
              ∷ (event_messages s geofence_prefix (on_position now pkt.sender p e).1 ++ effects))
            after

  -- The items were told to the engine `e`, and nothing else was done.
  abbrev pub IsTold : Packet → List Item → Engine → W → Bridge W → Type 0
  IsTold pkt items e w after =
      (effects : List Effect) × (last : Engine) × Told pkt e items effects last
      × IsPerformed s effects w after.world
      × (after.engine ≡ some last)

  -- What the answer of `Decode` asks for: the items of the packet told to the engine, or nothing.
  abbrev pub IsHandled : Result PacketError Packet → Engine → W → Bridge W → Type 0
  IsHandled (ok pkt) e w after = IsTold pkt pkt.items e w after
  IsHandled (err x) e w after = (after.world ≡ w) × (after.engine ≡ some e)
  IsHandled fault e w after = (after.world ≡ w) × (after.engine ≡ some e)
