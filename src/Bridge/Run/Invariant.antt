-- ===== src/Bridge/Run/Invariant.antt =====
-- What is to hold of the run of internal/cdpbridge/run.go after any schedule.
use cdp_go.Base.{
  Bool, Bytes, List, Option, [], length, none, refl, some, take, true, ◌++◌, ◌∷◌, ◌≡◌, ◌≤◌,
}
use cdp_go.Bridge.{Bridge, Services, publish}
use cdp_go.Bridge.Config.{BridgeConfig}
use cdp_go.Bridge.Run.{
  Action, ListenError, Listener, Running, buffer_size, gave_up, holding, queue_capacity, read,
  returned,
}

-- The datagrams that `listen` has read, as its buffer holds them.
abbrev pub reads_of : Action → List Bytes
reads_of (read incoming) = take buffer_size incoming ∷ []
reads_of _ = []

abbrev pub all_reads : List Action → List Bytes
all_reads [] = []
all_reads (a ∷ actions) = reads_of a ++ all_reads actions

-- The datagram that `listen` has read and that the channel has not.
abbrev pub pending_of : Listener → List Bytes
pending_of (holding datagram) = datagram ∷ []
pending_of (gave_up datagram) = datagram ∷ []
pending_of _ = []

-- What `listen` has returned, and the answer of `Run`: it is nil only after the cancelation, and
-- otherwise the error of `listen`.
abbrev pub IsListening : Listener → Bool → Type 0
IsListening (gave_up datagram) canceled = canceled ≡ true
IsListening (returned none) canceled = canceled ≡ true
IsListening _ canceled = Unit

abbrev pub IsAnswer : Option (Option ListenError) → Listener → Bool → Type 0
IsAnswer none listener canceled = Unit
IsAnswer (some none) listener canceled = canceled ≡ true
IsAnswer (some (some e)) listener canceled = listener ≡ returned (some e)

module _ {W : Type 0} (s : Services W) (c : BridgeConfig) where
  -- `publish` of the datagrams one after the other.
  abbrev pub publish_all : List Bytes → Bridge W → Bridge W
  publish_all [] b = b
  publish_all (datagram ∷ rest) b =
      publish_all rest (publish s c.prefix c.geofence.prefix datagram b).0

  pub publish_all-append :
      (xs : List Bytes) (datagram : Bytes) (b : Bridge W)
      → publish_all (xs ++ (datagram ∷ [])) b
        ≡ (publish s c.prefix c.geofence.prefix datagram (publish_all xs b)).0
  publish_all-append [] datagram b = refl
  publish_all-append (x ∷ xs) datagram b = publish_all-append xs datagram _

  -- The datagrams read are those published, then those in the channel, then the pending one.
  pub record IsRunning (start : Bridge W) (received : List Bytes) (r : Running W) : Type 0 where
    pub handled : List Bytes
    pub flow : received ≡ handled ++ (r.queue ++ pending_of r.listener)
    pub published : r.bridge ≡ publish_all handled start
    pub bounded : length r.queue ≤ queue_capacity
    pub listening : IsListening r.listener r.canceled
    pub answered : IsAnswer r.answer r.listener r.canceled
