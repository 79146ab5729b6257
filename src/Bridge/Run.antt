-- ===== src/Bridge/Run.antt =====
-- internal/cdpbridge/run.go and listener.go, with `PollGauges` of internal/metrics/metrics.go. The
-- goroutines' steps are interleaved in any order; log lines, the metrics endpoint, and the flush and
-- close of the connection at the end are not modelled.
pub mod Start
pub mod Invariant
pub mod Steps
pub mod Schedules
pub mod Drain
pub mod Sent
use mathlib.Core.Option.{bind}
use cdp_go.Base.{
  Bool, Bytes, List, Option, [], bytes_eq, if◌then◌else◌, length, ltb, none, some, take, true, ℕ,
  ◌++◌, ◌∷◌,
}
use cdp_go.Bridge.{Bridge, Services, publish}
use cdp_go.Bridge.Config.{BridgeConfig}
use cdp_go.Geofence.Engine.{tag_count}

-- The errors of `listen`, with what they report.
pub data ListenError : Type 0 where
  invalid_group : Bytes → ListenError
  not_multicast : Bytes → ListenError
  unknown_interface : Bytes → ListenError
  not_listening : ListenError
  read_failed : ListenError

-- The goroutine of `listen`: it reads, or it holds a datagram that the channel has not taken, or it
-- has returned, with the datagram that it dropped or with its answer.
pub data Listener : Type 0 where
  reading : Listener
  holding : Bytes → Listener
  gave_up : Bytes → Listener
  returned : Option ListenError → Listener

-- The gauges of internal/metrics/metrics.go.
pub record Gauges : Type 0 where
  pub nats_connected : Bool
  pub packet_queue_depth : ℕ
  pub geofence_tags_active : ℕ

-- What `PollGauges` does on a tick, for the closures that are not nil.
unfoldable pub poll_gauges : ℕ → Option ℕ → Bool → Gauges → Gauges
poll_gauges depth none connected g = record g {
  packet_queue_depth = depth;
  nats_connected = connected;
}
poll_gauges depth (some tags) connected g = record {
  nats_connected = connected;
  packet_queue_depth = depth;
  geofence_tags_active = tags;
}

-- What runs: the bridge, the channel `packets`, the listener, whether the context is canceled, the
-- gauges, and the answer of `Run` if it has returned.
pub record Running (W : Type 0) : Type 0 where
  pub bridge : Bridge W
  pub queue : List Bytes
  pub listener : Listener
  pub canceled : Bool
  pub gauges : Gauges
  pub answer : Option (Option ListenError)

-- The capacity of `packets`, and the size of the buffer of `listen`.
abbrev pub queue_capacity : ℕ
queue_capacity = 2048

abbrev pub buffer_size : ℕ
buffer_size = 65536

-- What can happen next: the context is canceled; `ReadFromUDP` returns a packet or an error; the
-- channel takes the held datagram, or `listen` sees the cancelation instead; the loop of `Run` sees
-- the cancelation, or the answer of `listen`, or takes a datagram; the ticker of `PollGauges` ticks.
pub data Action : Type 0 where
  cancel : Action
  read : Bytes → Action
  read_error : Action
  enqueue : Action
  abandon : Action
  quit : Action
  report : Action
  handle : Action
  tick : Action

-- `Run` is in its loop until it has an answer.
abbrev pub in_loop {ℓ} : {A : Type ℓ} → Option (Option ListenError) → Option A → Option A
in_loop none next = next
in_loop (some answer) next = none

module _ {W : Type 0} (s : Services W) (c : BridgeConfig) where
  -- The steps of `listen`, for the state that it is in.
  abbrev pub read_step : Listener → Bytes → Running W → Option (Running W)
  read_step reading incoming r = some (record r { listener = holding (take buffer_size incoming) })
  read_step _ incoming r = none

  abbrev pub read_error_step : Listener → Running W → Option (Running W)
  read_error_step reading r =
      some (record r { listener = returned (if r.canceled then none else some read_failed) })
  read_error_step _ r = none

  abbrev pub enqueue_step : Listener → Running W → Option (Running W)
  enqueue_step (holding datagram) r =
      if ltb (length r.queue) queue_capacity
      then some (record r { queue = r.queue ++ (datagram ∷ []); listener = reading })
      else none
  enqueue_step _ r = none

  abbrev pub abandon_step : Listener → Running W → Option (Running W)
  abandon_step (holding datagram) r =
      if r.canceled then some (record r { listener = gave_up datagram }) else none
  abandon_step _ r = none

  -- The cases of the `select` of `Run`. The error of `publish` is only logged.
  abbrev pub quit_step : Running W → Option (Running W)
  quit_step r = if r.canceled then some (record r { answer = some none }) else none

  abbrev pub report_step : Listener → Running W → Option (Running W)
  report_step (gave_up datagram) r = some (record r { answer = some none })
  report_step (returned e) r = some (record r { answer = some e })
  report_step _ r = none

  abbrev pub handle_step : List Bytes → Running W → Option (Running W)
  handle_step [] r = none
  handle_step (datagram ∷ rest) r = some (record r {
    bridge = (publish s c.prefix c.geofence.prefix datagram r.bridge).0;
    queue = rest;
  })

  abbrev pub tick_step : Running W → Option (Running W)
  tick_step r =
      if bytes_eq c.metrics.addr []
      then none
      else some (record r {
        gauges =
            poll_gauges (length r.queue)
              (elim r.bridge.engine [ none ↦ none | some e ↦ some (tag_count e) ])
              (s.is_connected r.bridge.world) r.gauges;
      })

  -- A step, if it can happen.
  unfoldable pub step : Action → Running W → Option (Running W)
  step cancel r = some (record r { canceled = true })
  step (read incoming) r = read_step r.listener incoming r
  step read_error r = read_error_step r.listener r
  step enqueue r = enqueue_step r.listener r
  step abandon r = abandon_step r.listener r
  step quit r = in_loop r.answer (quit_step r)
  step report r = in_loop r.answer (report_step r.listener r)
  step handle r = in_loop r.answer (handle_step r.queue r)
  step tick r = tick_step r

  -- The steps of a schedule, if they can happen one after the other.
  unfoldable pub run_schedule : List Action → Running W → Option (Running W)
  run_schedule [] r = some r
  run_schedule (a ∷ actions) r = bind (step a r) (run_schedule actions)
