-- ===== src/Bridge/Run/Start.antt =====
-- `Run` of internal/cdpbridge/run.go and `listen` of listener.go, up to their loops.
use cdp_go.Base.{Bool, Bytes, Option, [], false, if◌then◌else◌, none, some, ◌∷◌}
use cdp_go.Base.Int.{ℤ}
use cdp_go.Bridge.{Metrics}
use cdp_go.Bridge.Config.{BridgeConfig}
use cdp_go.Bridge.Run.{
  Gauges, ListenError, Listener, Running, invalid_group, not_listening, not_multicast, reading,
  returned, unknown_interface,
}
use cdp_go.Broker.{BrokerError, Nats, connect_broker}
use cdp_go.Cdp.Result.{Result, err, fault, ok, ◌>>=◌}
use cdp_go.Geofence.Config.{BuildError, GeofenceConfig, build, enabled}
use cdp_go.Geofence.Engine.{Engine, new_engine}
use cdp_go.Strings.{Unicode}

-- What `listen` calls of package net: `ParseIP`, `IsMulticast`, `InterfaceByName` and
-- `ListenMulticastUDP`, for the types of addresses, interfaces and connections.
pub record Network (Ip Interface Conn : Type 0) : Type 0 where
  pub parse_ip : Bytes → Option Ip
  pub is_multicast : Ip → Bool
  pub interface_by_name : Bytes → Option Interface
  pub listen_multicast : Option Interface → Ip → ℤ → Option Conn

module _ {Ip Interface Conn : Type 0} (net : Network Ip Interface Conn) where
  abbrev pub listen_on : Option Interface → Ip → ℤ → Result ListenError Conn
  listen_on iface ip port = elim (net.listen_multicast iface ip port) [
    | none ↦ err not_listening
    | some conn ↦ ok conn
  ]

  -- The interface of that name, none for the empty name.
  unfoldable pub interface_named : Bytes → Result ListenError (Option Interface)
  interface_named [] = ok none
  interface_named (c ∷ name) = elim (net.interface_by_name (c ∷ name)) [
    | none ↦ err (unknown_interface (c ∷ name))
    | some i ↦ ok (some i)
  ]

  -- `listen`, up to its loop. An error of `SetReadBuffer` is only logged.
  unfoldable pub open_listener : BridgeConfig → Result ListenError Conn
  open_listener c = elim (net.parse_ip c.group) [
    | none ↦ err (invalid_group c.group)
    | some ip ↦
        if net.is_multicast ip
        then interface_named c.iface >>= (λ iface. listen_on iface ip c.port)
        else err (not_multicast c.group)
  ]

-- The listener behind its setup.
abbrev pub listener_of {ℓ} : {Conn : Type ℓ} → Result ListenError Conn → Listener
listener_of (ok conn) = reading
listener_of (err e) = returned (some e)
listener_of fault = returned none

-- The errors with which `Run` ends before its loop.
pub data RunError : Type 0 where
  broker_error : BrokerError → RunError
  geofence_error : BuildError → RunError

-- The engine that `Run` makes, if the configuration has zones.
unfoldable pub engine_for : Unicode → GeofenceConfig → Result RunError (Option Engine)
engine_for u g =
    if enabled g
    then elim (build u g) [
      | ok zones ↦ ok (some (new_engine zones g.hysteresis g.tag_ttl))
      | err e ↦ err (geofence_error e)
      | fault ↦ fault
    ]
    else ok none

abbrev pub or_broker_error {ℓ} : {A : Type ℓ} → Result BrokerError A → Result RunError A
or_broker_error (ok a) = ok a
or_broker_error (err e) = err (broker_error e)
or_broker_error fault = fault

abbrev pub no_gauges : Gauges
no_gauges = record { nats_connected = false; packet_queue_depth = 0; geofence_tags_active = 0 }

-- `Run` up to its loop, where the world is the one with the connection. The counters go on from
-- those of the process.
unfoldable pub start_run :
    {W Ip Interface Conn : Type 0}
    → Nats W
    → Network Ip Interface Conn
    → Unicode
    → BridgeConfig
    → Metrics
    → Result RunError (Running W)
start_run nats net u c metrics = do
  world ← or_broker_error (connect_broker nats c.broker)
  engine ← engine_for u c.geofence
  ok (record {
    bridge = record { world = world; metrics = metrics; engine = engine };
    queue = [];
    listener = listener_of (open_listener net c);
    canceled = false;
    gauges = no_gauges;
    answer = none;
  })
