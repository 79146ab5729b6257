-- ===== src/Bridge/Run/Drain.antt =====
-- The loop of internal/cdpbridge/run.go catches up with its listener.
use mathlib.Core.Option.{bind}
use cdp_go.Base.{
  Bytes, List, [], ap, arith, length, none, refl, some, ◌++◌, ◌+◌, ◌∙◌, ◌∷◌, ◌≡◌, ◌≤◌,
}
use cdp_go.Bridge.{Services, publish}
use cdp_go.Bridge.Config.{BridgeConfig}
use cdp_go.Bridge.Run.{
  Action, Listener, Running, enqueue, gave_up, handle, handle_step, holding, in_loop, reading,
  returned, run_schedule, step,
}
use cdp_go.Bridge.Run.Invariant.{publish_all}

-- A schedule in which `Run` takes what is in the channel, and then the datagram that `listen` holds.
abbrev pub drain_queue : List Bytes → List Action → List Action
drain_queue [] then_do = then_do
drain_queue (datagram ∷ rest) then_do = handle ∷ drain_queue rest then_do

abbrev pub drain_listener : Listener → List Action
drain_listener (holding datagram) = enqueue ∷ handle ∷ []
drain_listener _ = []

abbrev pub held_by : Listener → List Bytes
held_by (holding datagram) = datagram ∷ []
held_by _ = []

abbrev pub free : Listener → Listener
free (holding datagram) = reading
free l = l

length-drain_queue :
    (queue : List Bytes) (l : Listener)
    → length (drain_queue queue (drain_listener l)) ≤ length queue + 2
length-drain_queue [] (holding d) = omega arith
length-drain_queue [] reading = omega arith
length-drain_queue [] (gave_up d) = omega arith
length-drain_queue [] (returned x) = omega arith
length-drain_queue (d ∷ queue) l = omega (arith, length-drain_queue queue l)

module _ {W : Type 0} (s : Services W) (c : BridgeConfig) where
  drain_listener_lem :
      (l : Listener) (r : Running W)
      → r.listener ≡ l
      → r.answer ≡ none
      → r.queue ≡ []
      → run_schedule s c (drain_listener l) r
        ≡ some (record r { bridge = publish_all s c (held_by l) r.bridge; listener = free l })
  unfolding run_schedule bind step
  drain_listener_lem (holding d) r e a q = rw (e, a, q) refl
  drain_listener_lem reading r e a q = rw e refl
  drain_listener_lem (gave_up d) r e a q = rw e refl
  drain_listener_lem (returned x) r e a q = rw e refl

  drain_queue_lem :
      (queue : List Bytes) (r : Running W)
      → r.queue ≡ queue
      → r.answer ≡ none
      → run_schedule s c (drain_queue queue (drain_listener r.listener)) r
        ≡ some (record r {
          bridge = publish_all s c (queue ++ held_by r.listener) r.bridge;
          queue = [];
          listener = free r.listener;
        })
  unfolding run_schedule bind step
  drain_queue_lem [] r q a =
      drain_listener_lem r.listener r refl a q
      ∙ ap
          (λ x. some (record r {
            bridge = publish_all s c (held_by r.listener) r.bridge;
            listener = free r.listener;
            queue = x;
          }))
          q
  drain_queue_lem (d ∷ rest) r q a =
      let first : in_loop r.answer (handle_step s c r.queue r)
          ≡ some (record r {
            bridge = (publish s c.prefix c.geofence.prefix d r.bridge).0;
            queue = rest;
          }) =
        ap (λ x. in_loop x (handle_step s c r.queue r)) a ∙ ap (λ x. handle_step s c x r) q in
      ap (λ o. bind o (run_schedule s c (drain_queue rest (drain_listener r.listener)))) first
      ∙ drain_queue_lem rest
          (record r { bridge = (publish s c.prefix c.geofence.prefix d r.bridge).0; queue = rest })
          refl a

  -- While `Run` has no answer, there is a schedule, as long as the channel's queue and twice the held
  -- datagram, that publishes all that is in the channel and the held datagram, in order, and leaves
  -- both empty: nothing that waits is stuck.
  pub drain-run_schedule :
      (r : Running W)
      → r.answer ≡ none
      → (actions : List Action) × (length actions ≤ length r.queue + 2)
        × (run_schedule s c actions r
            ≡ some (record r {
              bridge = publish_all s c (r.queue ++ held_by r.listener) r.bridge;
              queue = [];
              listener = free r.listener;
            }))
  drain-run_schedule r a = (
    drain_queue r.queue (drain_listener r.listener),
    length-drain_queue r.queue r.listener,
    drain_queue_lem r.queue r refl a,
  )
