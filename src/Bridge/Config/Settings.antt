-- ===== src/Bridge/Config/Settings.antt =====
-- The settings of internal/cdpbridge/config.go that have a flag and an environment variable, as the
-- tables of README.md name them.
use cdp_go.Base.{Bool, Bytes, codes}
use cdp_go.Base.Int.{ℤ}
use cdp_go.Bridge.Config.{BridgeConfig}

pub data StringSetting : Type 0 where
  group_setting : StringSetting
  iface_setting : StringSetting
  prefix_setting : StringSetting
  log_level_setting : StringSetting
  geofence_prefix_setting : StringSetting
  metrics_addr_setting : StringSetting
  nats_url_setting : StringSetting
  nats_name_setting : StringSetting
  nats_user_setting : StringSetting
  nats_password_setting : StringSetting
  nats_token_setting : StringSetting
  nats_creds_setting : StringSetting
  nats_nkey_setting : StringSetting
  nats_tls_ca_setting : StringSetting
  nats_tls_cert_setting : StringSetting
  nats_tls_key_setting : StringSetting

-- The flag, the variable and the value of a setting.
abbrev pub string_name : StringSetting → Bytes
string_name group_setting = codes "group"
string_name iface_setting = codes "iface"
string_name prefix_setting = codes "prefix"
string_name log_level_setting = codes "log-level"
string_name geofence_prefix_setting = codes "geofence-prefix"
string_name metrics_addr_setting = codes "metrics-addr"
string_name nats_url_setting = codes "nats-url"
string_name nats_name_setting = codes "nats-name"
string_name nats_user_setting = codes "nats-user"
string_name nats_password_setting = codes "nats-password"
string_name nats_token_setting = codes "nats-token"
string_name nats_creds_setting = codes "nats-creds"
string_name nats_nkey_setting = codes "nats-nkey"
string_name nats_tls_ca_setting = codes "nats-tls-ca"
string_name nats_tls_cert_setting = codes "nats-tls-cert"
string_name nats_tls_key_setting = codes "nats-tls-key"

abbrev pub string_key : StringSetting → Bytes
string_key group_setting = codes "CDP_GROUP"
string_key iface_setting = codes "CDP_INTERFACE"
string_key prefix_setting = codes "CDP_NATS_PREFIX"
string_key log_level_setting = codes "LOG_LEVEL"
string_key geofence_prefix_setting = codes "GEOFENCE_PREFIX"
string_key metrics_addr_setting = codes "METRICS_ADDR"
string_key nats_url_setting = codes "NATS_URL"
string_key nats_name_setting = codes "NATS_NAME"
string_key nats_user_setting = codes "NATS_USER"
string_key nats_password_setting = codes "NATS_PASSWORD"
string_key nats_token_setting = codes "NATS_TOKEN"
string_key nats_creds_setting = codes "NATS_CREDS_FILE"
string_key nats_nkey_setting = codes "NATS_NKEY_SEED_FILE"
string_key nats_tls_ca_setting = codes "NATS_TLS_CA"
string_key nats_tls_cert_setting = codes "NATS_TLS_CERT"
string_key nats_tls_key_setting = codes "NATS_TLS_KEY"

abbrev pub string_in : BridgeConfig → StringSetting → Bytes
string_in c group_setting = c.group
string_in c iface_setting = c.iface
string_in c prefix_setting = c.prefix
string_in c log_level_setting = c.logger.level
string_in c geofence_prefix_setting = c.geofence.prefix
string_in c metrics_addr_setting = c.metrics.addr
string_in c nats_url_setting = c.broker.url
string_in c nats_name_setting = c.broker.client_name
string_in c nats_user_setting = c.broker.user
string_in c nats_password_setting = c.broker.password
string_in c nats_token_setting = c.broker.token
string_in c nats_creds_setting = c.broker.creds_file
string_in c nats_nkey_setting = c.broker.nkey_seed_file
string_in c nats_tls_ca_setting = c.broker.tls_ca
string_in c nats_tls_cert_setting = c.broker.tls_cert
string_in c nats_tls_key_setting = c.broker.tls_key

pub data IntSetting : Type 0 where
  port_setting : IntSetting
  udp_read_buffer_setting : IntSetting
  geofence_hysteresis_setting : IntSetting
  nats_max_reconnects_setting : IntSetting
  nats_max_pings_out_setting : IntSetting

-- The flag, the variable and the value of a setting.
abbrev pub int_name : IntSetting → Bytes
int_name port_setting = codes "port"
int_name udp_read_buffer_setting = codes "udp-read-buffer"
int_name geofence_hysteresis_setting = codes "geofence-hysteresis"
int_name nats_max_reconnects_setting = codes "nats-max-reconnects"
int_name nats_max_pings_out_setting = codes "nats-max-pings-out"

abbrev pub int_key : IntSetting → Bytes
int_key port_setting = codes "CDP_PORT"
int_key udp_read_buffer_setting = codes "CDP_UDP_READ_BUFFER"
int_key geofence_hysteresis_setting = codes "GEOFENCE_HYSTERESIS"
int_key nats_max_reconnects_setting = codes "NATS_MAX_RECONNECTS"
int_key nats_max_pings_out_setting = codes "NATS_MAX_PINGS_OUT"

abbrev pub int_in : BridgeConfig → IntSetting → ℤ
int_in c port_setting = c.port
int_in c udp_read_buffer_setting = c.udp_read_buffer
int_in c geofence_hysteresis_setting = c.geofence.hysteresis
int_in c nats_max_reconnects_setting = c.broker.max_reconnects
int_in c nats_max_pings_out_setting = c.broker.max_pings_out

pub data BoolSetting : Type 0 where
  nats_tls_insecure_setting : BoolSetting
  nats_no_echo_setting : BoolSetting

-- The flag, the variable and the value of a setting.
abbrev pub bool_name : BoolSetting → Bytes
bool_name nats_tls_insecure_setting = codes "nats-tls-insecure"
bool_name nats_no_echo_setting = codes "nats-no-echo"

abbrev pub bool_key : BoolSetting → Bytes
bool_key nats_tls_insecure_setting = codes "NATS_TLS_INSECURE"
bool_key nats_no_echo_setting = codes "NATS_NO_ECHO"

abbrev pub bool_in : BridgeConfig → BoolSetting → Bool
bool_in c nats_tls_insecure_setting = c.broker.tls_insecure
bool_in c nats_no_echo_setting = c.broker.no_echo

pub data DurationSetting : Type 0 where
  geofence_tag_ttl_setting : DurationSetting
  nats_reconnect_wait_setting : DurationSetting
  nats_reconnect_jitter_setting : DurationSetting
  nats_ping_interval_setting : DurationSetting
  nats_flush_timeout_setting : DurationSetting

-- The flag, the variable and the value of a setting.
abbrev pub duration_name : DurationSetting → Bytes
duration_name geofence_tag_ttl_setting = codes "geofence-tag-ttl"
duration_name nats_reconnect_wait_setting = codes "nats-reconnect-wait"
duration_name nats_reconnect_jitter_setting = codes "nats-reconnect-jitter"
duration_name nats_ping_interval_setting = codes "nats-ping-interval"
duration_name nats_flush_timeout_setting = codes "nats-flush-timeout"

abbrev pub duration_key : DurationSetting → Bytes
duration_key geofence_tag_ttl_setting = codes "GEOFENCE_TAG_TTL"
duration_key nats_reconnect_wait_setting = codes "NATS_RECONNECT_WAIT"
duration_key nats_reconnect_jitter_setting = codes "NATS_RECONNECT_JITTER"
duration_key nats_ping_interval_setting = codes "NATS_PING_INTERVAL"
duration_key nats_flush_timeout_setting = codes "NATS_FLUSH_TIMEOUT"

abbrev pub duration_in : BridgeConfig → DurationSetting → ℤ
duration_in c geofence_tag_ttl_setting = c.geofence.tag_ttl
duration_in c nats_reconnect_wait_setting = c.broker.reconnect_wait
duration_in c nats_reconnect_jitter_setting = c.broker.reconnect_jitter
duration_in c nats_ping_interval_setting = c.broker.ping_interval
duration_in c nats_flush_timeout_setting = c.broker.flush_timeout
