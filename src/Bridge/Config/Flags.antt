-- ===== src/Bridge/Config/Flags.antt =====
-- The flag set of `LoadConfig` in internal/cdpbridge/config.go, under the rules of Go's package flag.
use mathlib.Core.Option.{get_or}
use cdp_go.Base.{
  Bool, Bytes, List, Option, [], bytes_eq, codes, false, if◌then◌else◌, none, some, true, ◌==◌,
  ◌||◌, ◌∷◌,
}
use cdp_go.Base.Int.{ℤ}
use cdp_go.Bridge.Config.{BridgeConfig, Host, or_parsed}
use cdp_go.Cdp.Result.{Result, err, ok, ◌>>=◌}
use cdp_go.Strings.Numerals.{parse_bool, parse_int}

-- The types of the flags.
pub data FlagKind : Type 0 where
  string_flag : FlagKind
  int_flag : FlagKind
  bool_flag : FlagKind
  duration_flag : FlagKind

-- The flags that `LoadConfig` declares.
abbrev pub flags : List (Bytes × FlagKind)
flags =
    (codes "config", string_flag)
    ∷ (codes "group", string_flag)
    ∷ (codes "port", int_flag)
    ∷ (codes "iface", string_flag)
    ∷ (codes "prefix", string_flag)
    ∷ (codes "udp-read-buffer", int_flag)
    ∷ (codes "log-level", string_flag)
    ∷ (codes "geofence-prefix", string_flag)
    ∷ (codes "geofence-hysteresis", int_flag)
    ∷ (codes "geofence-tag-ttl", duration_flag)
    ∷ (codes "metrics-addr", string_flag)
    ∷ (codes "nats-url", string_flag)
    ∷ (codes "nats-name", string_flag)
    ∷ (codes "nats-user", string_flag)
    ∷ (codes "nats-password", string_flag)
    ∷ (codes "nats-token", string_flag)
    ∷ (codes "nats-creds", string_flag)
    ∷ (codes "nats-nkey", string_flag)
    ∷ (codes "nats-tls-ca", string_flag)
    ∷ (codes "nats-tls-cert", string_flag)
    ∷ (codes "nats-tls-key", string_flag)
    ∷ (codes "nats-tls-insecure", bool_flag)
    ∷ (codes "nats-max-reconnects", int_flag)
    ∷ (codes "nats-reconnect-wait", duration_flag)
    ∷ (codes "nats-reconnect-jitter", duration_flag)
    ∷ (codes "nats-ping-interval", duration_flag)
    ∷ (codes "nats-max-pings-out", int_flag)
    ∷ (codes "nats-flush-timeout", duration_flag)
    ∷ (codes "nats-no-echo", bool_flag)
    ∷ []

-- `f.formal[name]`.
abbrev pub kind_in : Bytes → List (Bytes × FlagKind) → Option FlagKind
kind_in name [] = none
kind_in name ((n, kind) ∷ rest) = if bytes_eq name n then some kind else kind_in name rest

unfoldable pub kind_of : Bytes → Option FlagKind
kind_of name = kind_in name flags

-- The errors of `Parse`; `help_asked` is `ErrHelp`.
pub data FlagError : Type 0 where
  bad_syntax : Bytes → FlagError
  not_defined : Bytes → FlagError
  needs_argument : Bytes → FlagError
  invalid_value : Bytes → Bytes → FlagError
  help_asked : FlagError

-- A `Set` of a flag: its name and its text.
abbrev pub Given : Type 0
Given = Bytes × Bytes

-- How an argument begins a flag: it does not, it ends the flags, or it is a flag, here without its
-- minus signs.
pub data Argument : Type 0 where
  operand : Argument
  terminator : Argument
  flag_text : Bytes → Argument

abbrev pub argument : Bytes → Argument
argument [] = operand
argument (c ∷ []) = operand
argument (c ∷ d ∷ s) =
    if c == b'-'
    then if d == b'-'
      then elim s [ [] ↦ terminator | e ∷ t ↦ flag_text (e ∷ t) ]
      else flag_text (d ∷ s)
    else operand

-- The name before the first `=`, which is not its first byte, and the value behind it.
unfoldable pub cut_value : Bytes → Bytes × Option Bytes
cut_value [] = ([], none)
cut_value (c ∷ s) =
    if c == b'=' then ([], some s) else let (name, value) = cut_value s in (c ∷ name, value)

-- The name and the value of a flag, if its syntax is good.
unfoldable pub name_value : Bytes → Option (Bytes × Option Bytes)
name_value [] = none
name_value (c ∷ s) =
    if c == b'-' || c == b'='
    then none
    else let (name, value) = cut_value s in some (c ∷ name, value)

-- A flag that is not defined: the ones that ask for help are treated apart.
abbrev pub undefined_flag : Bytes → FlagError
undefined_flag name =
    if bytes_eq name (codes "help") || bytes_eq name (codes "h")
    then help_asked
    else not_defined name

-- The text that the last `Set` of a flag gave it.
unfoldable pub last_given : Bytes → List Given → Option Bytes
last_given name [] = none
last_given name ((n, v) ∷ given) = elim (last_given name given) [
  | some later ↦ some later
  | none ↦ if bytes_eq name n then some v else none
]

-- `StringVar`, `IntVar`, `BoolVar` and `DurationVar` with the variable's own value as the default, after `Parse`.
abbrev pub string_var : List Given → Bytes → Bytes → Bytes
string_var given name value = get_or (last_given name given) value

abbrev pub int_var : List Given → Bytes → ℤ → ℤ
int_var given name value = or_parsed parse_int (last_given name given) value

abbrev pub bool_var : List Given → Bytes → Bool → Bool
bool_var given name value = or_parsed parse_bool (last_given name given) value

-- What `parseOne` does: the flags end, an error, or a `Set` of a name to the text in the argument
-- itself or to the next argument.
pub data FlagStep : Type 0 where
  flags_end : FlagStep
  failed : FlagError → FlagStep
  set_within : Bytes → Bytes → FlagStep
  set_next : Bytes → Bytes → FlagStep

-- The flags that a step and those behind it set: `all` are those in the arguments behind the first,
-- `fewer` those behind the next one.
abbrev pub add_step :
    FlagStep
    → Result FlagError (List Given)
    → Result FlagError (List Given)
    → Result FlagError (List Given)
add_step flags_end all fewer = ok []
add_step (failed e) all fewer = err e
add_step (set_within name v) all fewer = all >>= λ given. ok ((name, v) ∷ given)
add_step (set_next name v) all fewer = fewer >>= λ given. ok ((name, v) ∷ given)

abbrev pub is_some {ℓ} : {A : Type ℓ} → Option A → Bool
is_some none = false
is_some (some a) = true

module _ (h : Host) where
  -- Whether `Set` accepts a text.
  unfoldable pub is_valid : FlagKind → Bytes → Bool
  is_valid string_flag v = true
  is_valid int_flag v = is_some (parse_int v)
  is_valid bool_flag v = is_some (parse_bool v)
  is_valid duration_flag v = is_some (h.parse_duration v)

  abbrev pub checked : FlagKind → Bytes → Bytes → FlagStep → FlagStep
  checked kind name v step = if is_valid kind v then step else failed (invalid_value name v)

  -- A flag with its value, if the argument has one, and the next argument, if there is one.
  unfoldable pub take_flag : FlagKind → Bytes → Option Bytes → Option Bytes → FlagStep
  take_flag kind name (some v) next = checked kind name v (set_within name v)
  take_flag bool_flag name none next =
      checked bool_flag name (codes "true") (set_within name (codes "true"))
  take_flag kind name none none = failed (needs_argument name)
  take_flag kind name none (some v) = checked kind name v (set_next name v)

  -- `parseOne`, for an argument and the next one, if there is one: the look-up of the flag, the
  -- syntax of its name, and the argument.
  unfoldable pub take_named : Bytes → Option Bytes → Option Bytes → Option FlagKind → FlagStep
  take_named name value next none = failed (undefined_flag name)
  take_named name value next (some kind) = take_flag kind name value next

  unfoldable pub take_text : Bytes → Option Bytes → Option (Bytes × Option Bytes) → FlagStep
  take_text arg next none = failed (bad_syntax arg)
  take_text arg next (some (name, value)) = take_named name value next (kind_of name)

  unfoldable pub take_argument : Bytes → Option Bytes → Argument → FlagStep
  take_argument arg next operand = flags_end
  take_argument arg next terminator = flags_end
  take_argument arg next (flag_text s) = take_text arg next (name_value s)

  abbrev pub parse_one : Bytes → Option Bytes → FlagStep
  parse_one arg next = take_argument arg next (argument arg)

  -- `Parse`: the flags that it sets, in order, up to the first argument that is none.
  unfoldable pub parse_flags : List Bytes → Result FlagError (List Given)
  parse_flags [] = ok []
  parse_flags (arg ∷ []) = add_step (parse_one arg none) (ok []) (ok [])
  parse_flags (arg ∷ next ∷ rest) =
      add_step (parse_one arg (some next)) (parse_flags (next ∷ rest)) (parse_flags rest)

  abbrev pub duration_var : List Given → Bytes → ℤ → ℤ
  duration_var given name value = or_parsed h.parse_duration (last_given name given) value

  -- The variables of the flags after `Parse`. That of `--config` is not read again.
  unfoldable pub apply_flags : List Given → BridgeConfig → BridgeConfig
  apply_flags given c = record {
    group = string_var given (codes "group") c.group;
    port = int_var given (codes "port") c.port;
    iface = string_var given (codes "iface") c.iface;
    prefix = string_var given (codes "prefix") c.prefix;
    udp_read_buffer = int_var given (codes "udp-read-buffer") c.udp_read_buffer;
    logger = record { level = string_var given (codes "log-level") c.logger.level };
    broker = record {
      url = string_var given (codes "nats-url") c.broker.url;
      client_name = string_var given (codes "nats-name") c.broker.client_name;
      user = string_var given (codes "nats-user") c.broker.user;
      password = string_var given (codes "nats-password") c.broker.password;
      token = string_var given (codes "nats-token") c.broker.token;
      creds_file = string_var given (codes "nats-creds") c.broker.creds_file;
      nkey_seed_file = string_var given (codes "nats-nkey") c.broker.nkey_seed_file;
      tls_ca = string_var given (codes "nats-tls-ca") c.broker.tls_ca;
      tls_cert = string_var given (codes "nats-tls-cert") c.broker.tls_cert;
      tls_key = string_var given (codes "nats-tls-key") c.broker.tls_key;
      tls_insecure = bool_var given (codes "nats-tls-insecure") c.broker.tls_insecure;
      max_reconnects = int_var given (codes "nats-max-reconnects") c.broker.max_reconnects;
      reconnect_wait = duration_var given (codes "nats-reconnect-wait") c.broker.reconnect_wait;
      reconnect_jitter =
          duration_var given (codes "nats-reconnect-jitter") c.broker.reconnect_jitter;
      ping_interval = duration_var given (codes "nats-ping-interval") c.broker.ping_interval;
      max_pings_out = int_var given (codes "nats-max-pings-out") c.broker.max_pings_out;
      flush_timeout = duration_var given (codes "nats-flush-timeout") c.broker.flush_timeout;
      no_echo = bool_var given (codes "nats-no-echo") c.broker.no_echo;
    };
    geofence = record {
      hysteresis = int_var given (codes "geofence-hysteresis") c.geofence.hysteresis;
      prefix = string_var given (codes "geofence-prefix") c.geofence.prefix;
      tag_ttl = duration_var given (codes "geofence-tag-ttl") c.geofence.tag_ttl;
      zones = c.geofence.zones;
    };
    metrics = record { addr = string_var given (codes "metrics-addr") c.metrics.addr };
  }
