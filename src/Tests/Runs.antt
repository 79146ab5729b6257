-- ===== src/Tests/Runs.antt =====
-- The loop of internal/cdpbridge with its listener, on a schedule.
use mathlib.Core.Option.{bind}
use cdp_go.Base.{
  All, All-append, Bool-cases, Bytes, List, [], arith, codes, false, inl, inr, length, ltb, none,
  refl, some, take, true, ◌++◌, ◌+◌, ◌∷◌, ◌≡◌, ◌≤◌,
}
use cdp_go.Base.Int.{pos}
use cdp_go.Bridge.{publish}
use cdp_go.Bridge.Config.{BridgeConfig, defaults}
use cdp_go.Bridge.Config.Load.{validate_subject_prefix, validate_token, validate_tokens}
use cdp_go.Bridge.Messages.{messages}
use cdp_go.Bridge.Run.{
  Action, Running, abandon, cancel, enqueue, gave_up, handle, holding, poll_gauges, quit, read,
  reading, run_schedule, step, tick,
}
use cdp_go.Bridge.Run.Drain.{drain-run_schedule, free, held_by}
use cdp_go.Bridge.Run.Invariant.{IsRunning, all_reads, publish_all}
use cdp_go.Bridge.Run.Schedules.{run_schedule-IsRunning}
use cdp_go.Bridge.Run.Sent.{run_schedule-sends_subjects}
use cdp_go.Bridge.Run.Start.{
  Network, engine_for, interface_named, no_gauges, open_listener, start_run,
}
use cdp_go.Bridge.Subjects.{IsSubject, validate_subject_prefix-IsSubject}
use cdp_go.Bridge.Subjects.Items.{messages-IsSubject}
use cdp_go.Bridge.Subjects.Sent.{IsKept}
use cdp_go.Bridge.Tracking.{IsTracking}
use cdp_go.Broker.{Nats, connect_broker, connect_options, seed_options}
use cdp_go.Cdp.Readers.{IsByte}
use cdp_go.Cdp.Result.{ok}
use cdp_go.Geofence.Config.{enabled}
use cdp_go.Geofence.Engine.{new_engine, tag_count}
use cdp_go.Strings.{split}
use cdp_go.Tests.Bridges.{services, zeroes}
use cdp_go.Tests.Fences.{ascii_only, built_zones, two_zones, two_zones_built}
use cdp_go.Tests.Packets.{decode_datagram, decoded, sample_datagram}

-- A network on which every address is a multicast group.
abbrev net : Network Bytes Bytes (Unit {0})
net = record {
  parse_ip = λ group. some group;
  is_multicast = λ ip. true;
  interface_by_name = λ name. none;
  listen_multicast = λ iface ip port. some tt;
}

abbrev client : Nats (List (Bytes × Bytes))
client = record { reads_seed = λ path. false; dial = λ url opts. some [] }

abbrev config : BridgeConfig
config = record defaults { geofence = two_zones; metrics = record { addr = codes ":9090" } }

abbrev entered : Running (List (Bytes × Bytes))
entered = record {
  bridge = record {
    world = [];
    metrics = zeroes;
    engine = some (new_engine built_zones (pos 2) (pos 0));
  };
  queue = [];
  listener = reading;
  canceled = false;
  gauges = no_gauges;
  answer = none;
}

starts : start_run client net ascii_only config zeroes ≡ ok entered
unfolding start_run connect_broker connect_options seed_options engine_for enabled open_listener
    interface_named defaults
starts = rw two_zones_built refl

-- Two datagrams, of which the loop publishes the first; then the context is canceled.
abbrev schedule : List Action
schedule = read sample_datagram ∷ enqueue ∷ tick ∷ read [] ∷ handle ∷ cancel ∷ abandon ∷ quit ∷ []

abbrev ended : Running (List (Bytes × Bytes))
ended = record {
  bridge = (publish services (codes "cdp") (codes "geofence") sample_datagram entered.bridge).0;
  queue = [];
  listener = gave_up [];
  canceled = true;
  gauges = record { nats_connected = true; packet_queue_depth = 1; geofence_tags_active = 0 };
  answer = some none;
}

runs : run_schedule services config schedule entered ≡ some ended
unfolding run_schedule bind step poll_gauges tag_count defaults new_engine take
runs = refl

run_schedule-IsRunning_example :
    IsRunning services config entered.bridge (all_reads schedule) ended
    × IsTracking ended.bridge.engine
run_schedule-IsRunning_example =
    run_schedule-IsRunning client net ascii_only config services zeroes schedule starts runs

abbrev waiting : Running (List (Bytes × Bytes))
waiting = record entered { queue = sample_datagram ∷ []; listener = holding [] }

drain-run_schedule_example :
    (actions : List Action) × (length actions ≤ length waiting.queue + 2)
    × (run_schedule services config actions waiting
        ≡ some (record waiting {
          bridge =
              publish_all services config
                (waiting.queue ++ held_by waiting.listener)
                waiting.bridge;
          queue = [];
          listener = free waiting.listener;
        }))
drain-run_schedule_example = drain-run_schedule services config waiting refl

cdp_validates : validate_subject_prefix (codes "cdp") ≡ ok tt
unfolding validate_subject_prefix validate_tokens validate_token split
cdp_validates = refl

cdp-IsSubject : IsSubject (codes "cdp")
cdp-IsSubject = elim ((validate_subject_prefix-IsSubject (codes "cdp")).0 cdp_validates) [
  | inl empty ↦ absurd (ground (arith, empty))
  | inr subject ↦ subject
]

messages-IsSubject_example :
    All
      (λ m. IsSubject m.0)
      (messages services (codes "cdp") (codes "geofence") decoded decoded.items)
messages-IsSubject_example =
    messages-IsSubject services (codes "cdp") (codes "geofence") sample_datagram decoded
      cdp-IsSubject (ground arith) decode_datagram

geofence_validates : validate_subject_prefix (codes "geofence") ≡ ok tt
unfolding validate_subject_prefix validate_tokens validate_token split
geofence_validates = refl

geofence-IsSubject : IsSubject (codes "geofence")
geofence-IsSubject =
    elim ((validate_subject_prefix-IsSubject (codes "geofence")).0 geofence_validates) [
      | inl empty ↦ absurd (ground (arith, empty))
      | inr subject ↦ subject
    ]

-- The log has good subjects only.
abbrev AreSubjects : List (Bytes × Bytes) → Type 0
AreSubjects log = All (λ m. IsSubject m.0) log

services-IsKept : IsKept services AreSubjects
services-IsKept = record { by_clock = λ log q. q; by_send = logged }
  where
    logged :
        (subject body : Bytes) (log : List (Bytes × Bytes))
        → IsSubject subject
        → AreSubjects log
        → AreSubjects (services.send subject body log).0
    logged subject body log h q = elim (Bool-cases (ltb 60 (length subject))) [
      | inl long ↦ rw (long, All) q
      | inr brief ↦ rw (brief, All) (All-append (λ m. IsSubject m.0) log _ q (h, tt))
    ]

reads-IsByte : All (All IsByte) (all_reads schedule)
unfolding take
reads-IsByte = ground arith

run_schedule-sends_subjects_example : AreSubjects ended.bridge.world
run_schedule-sends_subjects_example =
    run_schedule-sends_subjects client net ascii_only config services zeroes AreSubjects
      services-IsKept (unfold defaults in cdp-IsSubject) geofence-IsSubject schedule reads-IsByte
      starts runs tt
