-- ===== src/Bridge/Config.antt =====
-- internal/cdpbridge/config.go, with internal/config/config.go.
pub mod Flags
pub mod Load
pub mod Settings
pub mod Given
pub mod Overlay
pub mod Precedence
pub mod Path
use mathlib.Core.Option.{get_or}
use cdp_go.Base.{Bool, Bytes, Option, [], codes, false, none, some, ℕ, ◌*◌, ◌^◌, ◌∷◌}
use cdp_go.Base.Int.{negsuc, pos, ℤ}
use cdp_go.Cdp.Result.{Result, err, ok}
use cdp_go.Geofence.Config.{GeofenceConfig}
use cdp_go.Strings.Numerals.{atoi, parse_bool}

-- `Broker` of package config. Durations are in nanoseconds.
pub record BrokerConfig : Type 0 where
  pub url : Bytes
  pub client_name : Bytes
  pub user : Bytes
  pub password : Bytes
  pub token : Bytes
  pub creds_file : Bytes
  pub nkey_seed_file : Bytes
  pub tls_ca : Bytes
  pub tls_cert : Bytes
  pub tls_key : Bytes
  pub tls_insecure : Bool
  pub max_reconnects : ℤ
  pub reconnect_wait : ℤ
  pub reconnect_jitter : ℤ
  pub ping_interval : ℤ
  pub max_pings_out : ℤ
  pub flush_timeout : ℤ
  pub no_echo : Bool

-- `Logger` of package config.
pub record LoggerConfig : Type 0 where
  pub level : Bytes

pub record MetricsConfig : Type 0 where
  pub addr : Bytes

-- `Config` of package cdpbridge.
pub record BridgeConfig : Type 0 where
  pub group : Bytes
  pub port : ℤ
  pub iface : Bytes
  pub prefix : Bytes
  pub udp_read_buffer : ℤ
  pub logger : LoggerConfig
  pub broker : BrokerConfig
  pub geofence : GeofenceConfig
  pub metrics : MetricsConfig

-- `time.Millisecond` and `time.Second`.
abbrev pub millisecond : ℕ
millisecond = 1000000

abbrev pub second : ℕ
second = 1000 * millisecond

-- `defaults`.
unfoldable pub defaults : BridgeConfig
defaults = record {
  group = codes "239.255.76.67";
  port = pos 7667;
  iface = [];
  prefix = codes "cdp";
  udp_read_buffer = pos (2 ^ 20);
  logger = record { level = codes "info" };
  broker = record {
    url = codes "nats://localhost:4222";
    client_name = codes "cdp-nats-bridge";
    user = [];
    password = [];
    token = [];
    creds_file = [];
    nkey_seed_file = [];
    tls_ca = [];
    tls_cert = [];
    tls_key = [];
    tls_insecure = false;
    max_reconnects = negsuc 0;
    reconnect_wait = pos (2 * second);
    reconnect_jitter = pos (100 * millisecond);
    ping_interval = pos (120 * second);
    max_pings_out = pos 2;
    flush_timeout = pos (5 * second);
    no_echo = false;
  };
  geofence = record {
    hysteresis = pos 5;
    prefix = codes "geofence";
    tag_ttl = pos (3600 * second);
    zones = [];
  };
  metrics = record { addr = [] };
}

-- What the loader asks of the system and of yaml.v3: `os.LookupEnv`, `os.ReadFile`, a decoder that
-- admits known fields only and overwrites those that the text gives, and `time.ParseDuration`, which
-- goes by floating point for a fraction. An error is `none`.
pub record Host : Type 0 where
  pub lookup_env : Bytes → Option Bytes
  pub read_file : Bytes → Option Bytes
  pub decode_yaml : Bytes → BridgeConfig → Option BridgeConfig
  pub parse_duration : Bytes → Option ℤ

-- The errors of `LoadYAMLInto`, with the path.
pub data FileError : Type 0 where
  unreadable : Bytes → FileError
  unparsable : Bytes → FileError

-- What a text that may be missing says, and otherwise the value that stood there before.
abbrev pub or_parsed {ℓ} : {A : Type ℓ} → (Bytes → Option A) → Option Bytes → A → A
or_parsed parse none value = value
or_parsed parse (some v) value = get_or (parse v) value

module _ (h : Host) where
  -- `LoadYAMLInto`, for the configuration that it overwrites.
  unfoldable pub load_yaml_into : Bytes → BridgeConfig → Result FileError BridgeConfig
  load_yaml_into [] c = ok c
  load_yaml_into (b ∷ path) c = elim (h.read_file (b ∷ path)) [
    | none ↦ err (unreadable (b ∷ path))
    | some text ↦ elim (h.decode_yaml text c) [
      | none ↦ err (unparsable (b ∷ path))
      | some loaded ↦ ok loaded
    ]
  ]

  -- `os.Getenv`.
  abbrev pub getenv : Bytes → Bytes
  getenv key = get_or (h.lookup_env key) []

  -- `envStr`, `envInt`, `envBool` and `envDur`, for the value that they overwrite; the warnings are
  -- not modelled.
  abbrev pub env_str : Bytes → Bytes → Bytes
  env_str key value = get_or (h.lookup_env key) value

  abbrev pub env_int : Bytes → ℤ → ℤ
  env_int key value = or_parsed atoi (h.lookup_env key) value

  abbrev pub env_bool : Bytes → Bool → Bool
  env_bool key value = or_parsed parse_bool (h.lookup_env key) value

  abbrev pub env_dur : Bytes → ℤ → ℤ
  env_dur key value = or_parsed h.parse_duration (h.lookup_env key) value

  -- `applyEnv`.
  unfoldable pub apply_env : BridgeConfig → BridgeConfig
  apply_env c = record {
    group = env_str (codes "CDP_GROUP") c.group;
    port = env_int (codes "CDP_PORT") c.port;
    iface = env_str (codes "CDP_INTERFACE") c.iface;
    prefix = env_str (codes "CDP_NATS_PREFIX") c.prefix;
    udp_read_buffer = env_int (codes "CDP_UDP_READ_BUFFER") c.udp_read_buffer;
    logger = record { level = env_str (codes "LOG_LEVEL") c.logger.level };
    broker = record {
      url = env_str (codes "NATS_URL") c.broker.url;
      client_name = env_str (codes "NATS_NAME") c.broker.client_name;
      user = env_str (codes "NATS_USER") c.broker.user;
      password = env_str (codes "NATS_PASSWORD") c.broker.password;
      token = env_str (codes "NATS_TOKEN") c.broker.token;
      creds_file = env_str (codes "NATS_CREDS_FILE") c.broker.creds_file;
      nkey_seed_file = env_str (codes "NATS_NKEY_SEED_FILE") c.broker.nkey_seed_file;
      tls_ca = env_str (codes "NATS_TLS_CA") c.broker.tls_ca;
      tls_cert = env_str (codes "NATS_TLS_CERT") c.broker.tls_cert;
      tls_key = env_str (codes "NATS_TLS_KEY") c.broker.tls_key;
      tls_insecure = env_bool (codes "NATS_TLS_INSECURE") c.broker.tls_insecure;
      max_reconnects = env_int (codes "NATS_MAX_RECONNECTS") c.broker.max_reconnects;
      reconnect_wait = env_dur (codes "NATS_RECONNECT_WAIT") c.broker.reconnect_wait;
      reconnect_jitter = env_dur (codes "NATS_RECONNECT_JITTER") c.broker.reconnect_jitter;
      ping_interval = env_dur (codes "NATS_PING_INTERVAL") c.broker.ping_interval;
      max_pings_out = env_int (codes "NATS_MAX_PINGS_OUT") c.broker.max_pings_out;
      flush_timeout = env_dur (codes "NATS_FLUSH_TIMEOUT") c.broker.flush_timeout;
      no_echo = env_bool (codes "NATS_NO_ECHO") c.broker.no_echo;
    };
    geofence = record {
      hysteresis = env_int (codes "GEOFENCE_HYSTERESIS") c.geofence.hysteresis;
      prefix = env_str (codes "GEOFENCE_PREFIX") c.geofence.prefix;
      tag_ttl = env_dur (codes "GEOFENCE_TAG_TTL") c.geofence.tag_ttl;
      zones = c.geofence.zones;
    };
    metrics = record { addr = env_str (codes "METRICS_ADDR") c.metrics.addr };
  }
