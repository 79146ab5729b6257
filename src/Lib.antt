-- ===== src/Lib.antt =====
-- Verification of cdp-go, a bridge that reads Ciholas CDP datagrams, publishes each data item to
-- NATS, and reports which tag enters and leaves which zone.
--
-- The parts, and how they interact. The loop of internal/cdpbridge/run.go hands every datagram to
-- `publish`, which decodes it (pkg/cdp), publishes its items, and gives each position to the
-- geofence engine (internal/geofence), whose events a sink publishes.
--
--   Cdp.Packet     pkg/cdp/cdp.go: `decode` is `Decode`, `items_loop` its loop, a constructor of
--                  `PacketError` stands for each error text; unknown.go: the names of unknown items.
--                  Packet/Frames has the wire format that the theorems speak of.
--   Cdp.Unknowns   `Unknown.MarshalJSON` of pkg/cdp/unknown.go.
--   Cdp.Readers    `u8` to `f32` of pkg/cdp/cdp.go. A Go slice expression is `slice`: out of range it
--                  is `fault`, which stands for a panic.
--   Cdp.Serial     `Serial` with `String`, `Hex` and `MarshalJSON`.
--   Cdp.Items      pkg/cdp/items.go: a record for each struct and a decoder for each item, by
--                  family; Tail has the loops over the variable part of a payload. The Framing
--                  modules hold each decoder to its payload lengths, the Wire modules have the wire
--                  formats of the 27 items that consist of numbers only.
--   Cdp.Registry   the table that `init` of pkg/cdp/items.go builds, and `typeHexes`.
--   Cdp.Payload    the interface value `Item.Payload` as a sum of the structs.
--   Geofence       internal/geofence: Geometry is geometry.go, ZoneSet and Engine are engine.go with
--                  the events of events.go. `on_position` is `OnPosition`: the clock's reading is an
--                  argument, the calls of the sink are its list of events, in order. `observe` is
--                  what it does to one tag's state. A time is a number of nanoseconds, and the
--                  difference of two stops at the longest duration, as `Time.Sub` does.
--                  Geometry/Prefilter is about the bounding box. Config is config.go, with `NewZone`
--                  and `slugifyZoneName`: `build` is `Build`, a constructor of `BuildError` or
--                  `ZoneError` stands for each error text.
--   Strings        what the repository uses of Go's packages strings and strconv. Tokens has the
--                  bytes of a token, apart from the tests of the code.
--   Bridge         internal/cdpbridge/publish.go and geofence_sink.go, with the counters of
--                  internal/metrics: `publish` and `emit_event` pass on the world, the counters and
--                  the engine. Subjects has the grammar of NATS subjects; Told says what the items
--                  of a packet ask of the connection, the clock and the engine.
--   Bridge.Config  internal/cdpbridge/config.go and internal/config/config.go: `load_config` is
--                  `LoadConfig`. Flags has the flag set, under the rules of Go's package flag:
--                  `parse_flags` gives the list of the `Set` calls, and `apply_flags` the variables
--                  after them. Settings names each setting's flag and variable as README.md does.
--   Bridge.Run     internal/cdpbridge/run.go and listener.go: Start has `Run` up to its loop, an
--                  `Action` is one thing that the loops of `Run`, `listen` and `PollGauges` or the
--                  context can do, `step` does it if it can be done, and `run_schedule` does a list.
--   Broker         internal/broker/broker.go: `connect_broker` is `Connect`. Options says
--                  what each setting asks for.
--   Logger         internal/logger/logger.go: the level of `Setup`.
--   Command        cmd/cdp-nats-bridge/main.go: the exit status.
--   Tests          runs of the code, and the theorems at concrete inputs.
--
-- Numbers. An unsigned integer is a natural number, a signed one an integer of Base.Int; a read
-- yields one in the range of its width. int64 arithmetic of the geometry wraps around. A float32 is
-- known by its bits. A Go string is the list of its bytes. A nil slice of zone names is apart from an
-- empty one, since the engine tests for nil.
--
-- Loops. The loop of `Decode` and those over the entries of an item have as fuel one more than the
-- bytes in front of them; every round takes a byte at least, so it is enough, and without fuel the
-- result would be `fault`. All other loops are structural.
--
-- Parameters. The JSON encoder, `Publish` and `Status` of the NATS connection and the clock are the
-- fields of Bridge.Services; `NkeyOptionFromSeed` and `nats.Connect` those of Broker.Nats; package
-- net those of Bridge.Run.Start.Network; the environment, files, the YAML decoder and
-- `time.ParseDuration` those of Bridge.Config.Host; the tables of package unicode, for strings that
-- are not ASCII, those of Strings.Unicode.
--
-- Schedules. A `select` takes any case that is ready, so the run is a list of actions, and what is
-- said of it is said of every list. The capacity of the channel and the size of the read buffer are
-- those of the source.
--
-- Not modelled: log lines, warnings and error texts; the JSON encoding of envelopes and events,
-- since it is a library's; the flush and close of the connection when `Run` ends; the HTTP server
-- of internal/metrics and the handler of package slog, which are calls of libraries.
mod Base
pub mod Strings
pub mod Cdp
pub mod Geofence
pub mod Bridge
pub mod Broker
pub mod Logger
pub mod Command
mod Tests
