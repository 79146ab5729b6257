-- ===== src/Bridge/Run/Schedules.antt =====
-- The schedules of internal/cdpbridge/run.go.
use mathlib.Core.List.{append-nil, append_assoc}
use mathlib.Core.Option.{bind}
use mathlib.Core.Path.{subst}
use cdp_go.Base.{
  Bytes, List, Option, Option-cases, [], arith, false, inl, inr, none, refl, some, sym, ◌++◌, ◌∷◌,
  ◌≡◌, ◌≢◌,
}
use cdp_go.Bridge.{Bridge, Metrics, Services, publish}
use cdp_go.Bridge.Config.{BridgeConfig}
use cdp_go.Bridge.Run.{Action, ListenError, Running, run_schedule, step}
use cdp_go.Bridge.Run.Invariant.{
  IsListening, IsRunning, all_reads, pending_of, publish_all, reads_of,
}
use cdp_go.Bridge.Run.Start.{
  Network, engine_for, interface_named, listener_of, no_gauges, open_listener, or_broker_error,
  start_run,
}
use cdp_go.Bridge.Run.Steps.{IsNext, step-IsNext}
use cdp_go.Bridge.Tracking.{IsTracking, publish-IsTracking}
use cdp_go.Broker.{Nats, connect_broker}
use cdp_go.Cdp.Result.{Result, Result-cases, bind-eq-ok, err, fault, ok}
use cdp_go.Geofence.Config.{build}
use cdp_go.Geofence.Config.Built.{build-IsEngine}
use cdp_go.Geofence.Engine.{Engine, new_engine}
use cdp_go.Geofence.Engine.Invariant.{IsEngine}
use cdp_go.Strings.{Unicode}

module _ {W : Type 0} (s : Services W) (c : BridgeConfig) where
  schedule-IsNext :
      (start : Bridge W) (received : List Bytes) (actions : List Action) (r : Running W)
      → IsRunning s c start received r
      → IsNext s c start (received ++ all_reads actions) (run_schedule s c actions r)
  unfolding run_schedule bind
  schedule-IsNext start received [] r h =
      subst (λ x. IsRunning s c start x r) (sym (append-nil received)) h
  schedule-IsNext start received (a ∷ actions) r h = elim (Option-cases (step s c a r)) [
    | inl stuck ↦ rw (stuck, bind) tt
    | inr (after, taken) ↦
        rw (taken, bind)
          (subst (λ x. IsNext s c start x (run_schedule s c actions after))
            (append_assoc received (reads_of a) (all_reads actions))
            (schedule-IsNext start (received ++ reads_of a) actions after (
              subst (IsNext s c start (received ++ reads_of a)) taken
                (step-IsNext s c start received a r h))))
  ]

  publish_all-IsTracking :
      (datagrams : List Bytes) (b : Bridge W)
      → IsTracking b.engine
      → IsTracking (publish_all s c datagrams b).engine
  publish_all-IsTracking [] b h = h
  publish_all-IsTracking (d ∷ datagrams) b h =
      publish_all-IsTracking datagrams (publish s c.prefix c.geofence.prefix d b).0
        (publish-IsTracking s c.prefix c.geofence.prefix d b h)

-- The state in which `Run` enters its loop.
module _ {W Ip Interface Conn : Type 0} (nats : Nats W) (net : Network Ip Interface Conn)
    (u : Unicode) (c : BridgeConfig) where
  interface_named-total : (name : Bytes) → interface_named net name ≢ fault
  unfolding interface_named
  interface_named-total [] e = ground (arith, e)
  interface_named-total (b ∷ name) e = ground (arith, e)

  open_listener-total : open_listener net c ≢ fault
  unfolding open_listener
  open_listener-total e = ground (arith, e, interface_named-total c.iface)

  listener_of-IsListening :
      (r : Result ListenError Conn) → r ≢ fault → IsListening (listener_of r) false
  listener_of-IsListening (ok conn) n = tt
  listener_of-IsListening (err e) n = tt
  listener_of-IsListening fault n = absurd (n refl)

  listener_of-pending_of : (r : Result ListenError Conn) → pending_of (listener_of r) ≡ []
  listener_of-pending_of (ok conn) = refl
  listener_of-pending_of (err e) = refl
  listener_of-pending_of fault = refl

  engine_for-IsTracking :
      (engine : Option Engine) → engine_for u c.geofence ≡ ok engine → IsTracking engine
  unfolding engine_for
  engine_for-IsTracking none e = tt
  engine_for-IsTracking (some engine) e = elim (Result-cases (build u c.geofence)) [
    | inl (zones, built) ↦
        let found : new_engine zones c.geofence.hysteresis c.geofence.tag_ttl ≡ engine =
          ground (arith, e, built) in
        subst IsEngine found (build-IsEngine u c.geofence built)
    | inr (inl (x, bad)) ↦ absurd (ground (arith, e, bad))
    | inr (inr never) ↦ absurd (ground (arith, e, never))
  ]

  pub start_run-IsRunning :
      (s : Services W) (m : Metrics) {r : Running W}
      → start_run nats net u c m ≡ ok r
      → IsRunning s c r.bridge [] r × IsTracking r.bridge.engine
  unfolding start_run
  start_run-IsRunning s m {r} e =
      let (world, _, more) = bind-eq-ok (or_broker_error (connect_broker nats c.broker)) _ e in
      let (engine, made, last) = bind-eq-ok (engine_for u c.geofence) _ more in
      let first : Running W = record {
        bridge = record { world = world; metrics = m; engine = engine };
        queue = [];
        listener = listener_of (open_listener net c);
        canceled = false;
        gauges = no_gauges;
        answer = none;
      } in
      let found : first ≡ r = ground (arith, last) in
      subst (λ (x : Running W). IsRunning s c x.bridge [] x × IsTracking x.bridge.engine) found
        (
          record {
            handled = [];
            flow = sym (listener_of-pending_of (open_listener net c));
            published = refl;
            bounded = omega arith;
            listening = listener_of-IsListening (open_listener net c) open_listener-total;
            answered = tt;
          },
          engine_for-IsTracking engine made,
        )

  -- After any schedule from the state in which `Run` enters its loop: the datagrams read are those
  -- published, in the order in which they were read, then those in the channel, then the one that
  -- `listen` holds or has dropped; the channel has no more than its capacity; the bridge is that of
  -- `publish` of each datagram in turn, and its engine, if there is one, satisfies the engine's
  -- invariant; and the answer of `Run` is nil only if the context is canceled, and otherwise the
  -- error that `listen` returned.
  pub run_schedule-IsRunning :
      (s : Services W) (m : Metrics) (actions : List Action) {r after : Running W}
      → start_run nats net u c m ≡ ok r
      → run_schedule s c actions r ≡ some after
      → IsRunning s c r.bridge (all_reads actions) after × IsTracking after.bridge.engine
  run_schedule-IsRunning s m actions {r} {after} e f =
      let (h, t) = start_run-IsRunning s m e in
      let k : IsRunning s c r.bridge (all_reads actions) after =
        subst (IsNext s c r.bridge (all_reads actions)) f
          (schedule-IsNext s c r.bridge [] actions r h) in
      (
        k,
        subst (λ (b : Bridge W). IsTracking b.engine) (sym k.published)
            (publish_all-IsTracking s c k.handled r.bridge t),
      )
