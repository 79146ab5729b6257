-- ===== src/Bridge/Run/Sent.antt =====
-- The messages of a whole run of internal/cdpbridge/run.go.
use mathlib.Core.Path.{subst}
use cdp_go.Base.{All, Bytes, List, Option, [], arith, inl, inr, none, some, sym, ◌++◌, ◌∷◌, ◌≡◌}
use cdp_go.Bridge.{Bridge, Metrics, Services, publish}
use cdp_go.Bridge.Config.{BridgeConfig}
use cdp_go.Bridge.Run.{Action, Running, run_schedule}
use cdp_go.Bridge.Run.Invariant.{all_reads, publish_all}
use cdp_go.Bridge.Run.Schedules.{run_schedule-IsRunning}
use cdp_go.Bridge.Run.Start.{Network, engine_for, or_broker_error, start_run}
use cdp_go.Bridge.Subjects.{IsSubject}
use cdp_go.Bridge.Subjects.Events.{IsFenced}
use cdp_go.Bridge.Subjects.Sent.{IsFencedIf, IsKept, build-IsFenced, publish-sends_subjects}
use cdp_go.Broker.{Nats, connect_broker}
use cdp_go.Cdp.Readers.{IsByte}
use cdp_go.Cdp.Result.{Result-cases, bind-eq-ok, ok}
use cdp_go.Geofence.Config.{GeofenceConfig, build}
use cdp_go.Geofence.Engine.{Engine, new_engine}
use cdp_go.Strings.{Unicode}

All-left : {A : Type 0} (P : A → Type 0) (xs ys : List A) → All P (xs ++ ys) → All P xs
All-left P [] ys h = tt
All-left P (x ∷ xs) ys h = (h.0, All-left P xs ys h.1)

module _ {W : Type 0} (s : Services W) (Q : W → Type 0) (kept : IsKept s Q) (c : BridgeConfig)
    (h : IsSubject c.prefix) (g : IsSubject c.geofence.prefix) where
  publish_all-sends_subjects :
      (datagrams : List Bytes) (b : Bridge W)
      → All (All IsByte) datagrams
      → Q b.world
      → IsFencedIf b.engine
      → Q (publish_all s c datagrams b).world
  publish_all-sends_subjects [] b k q e = q
  publish_all-sends_subjects (d ∷ datagrams) b k q e =
      let (after, fenced) =
        publish-sends_subjects s Q kept c.prefix c.geofence.prefix h g d b k.0 q e in
      publish_all-sends_subjects datagrams (publish s c.prefix c.geofence.prefix d b).0 k.1 after
        fenced

engine_for-IsFencedIf :
    (u : Unicode) (g : GeofenceConfig) (engine : Option Engine)
    → engine_for u g ≡ ok engine
    → IsFencedIf engine
unfolding engine_for
engine_for-IsFencedIf u g none e = tt
engine_for-IsFencedIf u g (some engine) e = elim (Result-cases (build u g)) [
  | inl (zones, built) ↦
      let found : new_engine zones g.hysteresis g.tag_ttl ≡ engine = ground (arith, e, built) in
      subst IsFenced found (build-IsFenced u g built)
  | inr (inl (x, bad)) ↦ absurd (ground (arith, e, bad))
  | inr (inr never) ↦ absurd (ground (arith, e, never))
]

start_run-IsFencedIf :
    {W Ip Interface Conn : Type 0} (nats : Nats W) (net : Network Ip Interface Conn) (u : Unicode)
    (c : BridgeConfig) (m : Metrics) {r : Running W}
    → start_run nats net u c m ≡ ok r
    → IsFencedIf r.bridge.engine
unfolding start_run
start_run-IsFencedIf nats net u c m {r} e =
    let (world, _, more) = bind-eq-ok (or_broker_error (connect_broker nats c.broker)) _ e in
    let (engine, made, last) = bind-eq-ok (engine_for u c.geofence) _ more in
    let same : engine ≡ r.bridge.engine = ground (arith, last) in
    subst IsFencedIf same (engine_for-IsFencedIf u c.geofence engine made)

-- In a whole run with two prefixes that are subjects, over zones that `Build` accepts or none, on
-- datagrams of bytes and under any schedule: what the world keeps when messages with good subjects
-- are sent and the clock is read, it has kept at the end. So no message, for an item or an event, has
-- a subject with an empty token, a star, a greater-than sign, a space, a tab, a line feed or a
-- carriage return.
pub run_schedule-sends_subjects :
    {W Ip Interface Conn : Type 0} (nats : Nats W) (net : Network Ip Interface Conn) (u : Unicode)
    (c : BridgeConfig) (s : Services W) (m : Metrics) (Q : W → Type 0)
    → IsKept s Q
    → IsSubject c.prefix
    → IsSubject c.geofence.prefix
    → (actions : List Action) {r after : Running W} → All (All IsByte) (all_reads actions)
    → start_run nats net u c m ≡ ok r
    → run_schedule s c actions r ≡ some after
    → Q r.bridge.world
    → Q after.bridge.world
run_schedule-sends_subjects nats net u c s m Q kept h g actions {r} {after} bytes e f q =
    let (k, _) = run_schedule-IsRunning nats net u c s m actions e f in
    let handled = All-left (All IsByte) k.handled _ (subst (All (All IsByte)) k.flow bytes) in
    subst (λ (b : Bridge _). Q b.world) (sym k.published)
      (publish_all-sends_subjects s Q kept c h g k.handled r.bridge handled q
        (start_run-IsFencedIf nats net u c m e))
