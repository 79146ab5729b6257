-- ===== src/Tests/Configs.antt =====
-- The configuration of internal/cdpbridge, and the options of internal/broker.
use mathlib.Core.Option.{bind, get_or}
use cdp_go.Base.{
  All, Bytes, List, [], bytes_eq, codes, false, if◌then◌else◌, none, refl, some, true, ◌++◌, ◌↔◌,
  ◌∷◌, ◌≡◌, ◌⊎◌,
}
use cdp_go.Base.Int.{negsuc, pos}
use cdp_go.Bridge.Config.{BrokerConfig, Host, apply_env, defaults, getenv, load_yaml_into}
use cdp_go.Bridge.Config.Flags.{
  apply_flags, argument, cut_value, flag_text, help_asked, is_valid, kind_of, last_given,
  name_value, parse_flags, take_argument, take_flag, take_named, take_text,
}
use cdp_go.Bridge.Config.Load.{
  bad_prefix, check_prefixes, empty_token, find_config_path, flag_error, load_config, path_in,
  validate_subject_prefix, validate_token, validate_tokens,
}
use cdp_go.Bridge.Config.Path.{IsAttached, find_config_path-first_given, first_given}
use cdp_go.Bridge.Config.Precedence.{LoadOutcome, load_config-LoadOutcome}
use cdp_go.Bridge.Subjects.{IsPrefix, validate_subject_prefix-IsSubject}
use cdp_go.Broker.{
  Nats, NatsOption, auth_token, bad_seed, base_options, connect_broker, connect_options, echo_off,
  nkey, seed_options,
}
use cdp_go.Broker.Options.{IsAsked, IsOption}
use cdp_go.Broker.Options.Connect.{IsDialed, IsUnread, connect_broker-IsAsked}
use cdp_go.Cdp.Result.{err, ok}
use cdp_go.Command.{exit_code}
use cdp_go.Logger.{level_of, warn_level}
use cdp_go.Strings.{cut_prefix, split, to_lower}
use cdp_go.Strings.Numerals.{
  atoi, decimal, numeral, parse_bool, parse_int, read_digits, underscores_loop, underscores_ok,
}
use cdp_go.Tests.Fences.{ascii_only}

-- A system with two variables and a file, which sets the port.
abbrev host : Host
host = record {
  lookup_env = λ key.
      if bytes_eq key (codes "CDP_PORT")
      then some (codes "seven")
      else if bytes_eq key (codes "NATS_USER")
      then some (codes "bridge")
      else none;
  read_file = λ path. if bytes_eq path (codes "a.yaml") then some [] else none;
  decode_yaml = λ text c. some (record c { port = pos 9000 });
  parse_duration = λ v. if bytes_eq v (codes "1s") then some (pos 1000000000) else none;
}

abbrev args : List Bytes
args =
    codes "--config"
    ∷ codes "a.yaml"
    ∷ codes "-udp-read-buffer=0x1_0000"
    ∷ codes "--nats-no-echo"
    ∷ codes "--prefix"
    ∷ codes "site.cdp"
    ∷ codes "rest"
    ∷ []

flags_run :
    parse_flags host args
    ≡ ok (
        (codes "config", codes "a.yaml")
        ∷ (codes "udp-read-buffer", codes "0x1_0000")
        ∷ (codes "nats-no-echo", codes "true")
        ∷ (codes "prefix", codes "site.cdp")
        ∷ [])
unfolding parse_flags take_argument take_text take_named take_flag name_value cut_value kind_of
    is_valid parse_int numeral read_digits underscores_ok underscores_loop bind parse_bool
flags_run = refl

-- The port of the file stays, since the variable is no number.
load_run :
    load_config host args
    ≡ ok (record defaults {
      port = pos 9000;
      prefix = codes "site.cdp";
      udp_read_buffer = pos 65536;
      broker = record defaults.broker { user = codes "bridge"; no_echo = true };
    })
unfolding load_config find_config_path path_in cut_prefix load_yaml_into defaults parse_flags
    take_argument take_text take_named take_flag name_value cut_value kind_of is_valid parse_int
    numeral read_digits underscores_ok underscores_loop bind parse_bool apply_flags apply_env atoi
    decimal last_given check_prefixes validate_subject_prefix validate_tokens validate_token split
load_run = refl

help_run : load_config host (codes "-h" ∷ []) ≡ err (flag_error help_asked)
unfolding load_config find_config_path path_in cut_prefix load_yaml_into parse_flags take_argument
    take_text take_named take_flag name_value cut_value kind_of
help_run = refl

trailing_run :
    load_config host (codes "--prefix=cdp." ∷ []) ≡ err (bad_prefix (empty_token (codes "cdp.")))
unfolding load_config find_config_path path_in cut_prefix load_yaml_into defaults parse_flags
    take_argument take_text take_named take_flag name_value cut_value kind_of is_valid apply_flags
    apply_env last_given check_prefixes validate_subject_prefix validate_tokens validate_token split
trailing_run = refl

load_config-LoadOutcome_example : LoadOutcome host args (load_config host args)
load_config-LoadOutcome_example = load_config-LoadOutcome host args

validate_subject_prefix-IsSubject_example :
    (validate_subject_prefix (codes "cdp..x") ≡ ok tt) ↔ IsPrefix (codes "cdp..x")
validate_subject_prefix-IsSubject_example = validate_subject_prefix-IsSubject (codes "cdp..x")

-- A client library that reads one seed file and answers with the options.
abbrev pub nats : Nats (List NatsOption)
nats = record { reads_seed = λ path. bytes_eq path (codes "seed"); dial = λ url opts. some opts }

abbrev secured : BrokerConfig
secured = record {
  url = codes "nats://localhost:4222";
  client_name = codes "bridge";
  user = [];
  password = [];
  token = codes "secret";
  creds_file = [];
  nkey_seed_file = codes "seed";
  tls_ca = [];
  tls_cert = codes "cert";
  tls_key = [];
  tls_insecure = false;
  max_reconnects = negsuc 0;
  reconnect_wait = pos 2;
  reconnect_jitter = pos 1;
  ping_interval = pos 120;
  max_pings_out = pos 2;
  flush_timeout = pos 5;
  no_echo = true;
}

connect_run :
    connect_broker nats secured
    ≡ ok (
        base_options secured ++ (auth_token (codes "secret") ∷ nkey (codes "seed") ∷ echo_off ∷ []))
unfolding connect_broker connect_options seed_options
connect_run = refl

connect_broker-IsAsked_example :
    (IsUnread nats secured × (connect_broker nats secured ≡ err (bad_seed secured.nkey_seed_file)))
    ⊎ ((¬ IsUnread nats secured)
        × (opts : List NatsOption) × ((o : NatsOption) → IsOption o opts ↔ IsAsked secured o)
        × IsDialed nats secured opts)
connect_broker-IsAsked_example = connect_broker-IsAsked nats secured

level_run : level_of ascii_only (record { level = codes "WARN" }) ≡ warn_level
unfolding level_of to_lower
level_run = refl

help_exit : exit_code (err (flag_error help_asked)) (λ _. true) ≡ 0
unfolding exit_code
help_exit = refl

-- Two files on one command line.
abbrev two_files : List Bytes
two_files = codes "-config=a.yaml" ∷ codes "--port=81" ∷ codes "--config=b.yaml" ∷ []

abbrev two_given : List (Bytes × Bytes)
two_given =
    (codes "config", codes "a.yaml")
    ∷ (codes "port", codes "81")
    ∷ (codes "config", codes "b.yaml")
    ∷ []

two_parsed : parse_flags host two_files ≡ ok two_given
unfolding parse_flags take_argument take_text take_named take_flag name_value cut_value kind_of
    is_valid parse_int numeral read_digits underscores_ok underscores_loop bind
two_parsed = refl

attached :
    (arg text name value : Bytes)
    → argument arg ≡ flag_text text
    → name_value text ≡ some (name, some value)
    → IsAttached arg
attached arg text name value e f = record {
  text = text;
  name = name;
  value = value;
  is_flag = e;
  is_named = f;
}

two-IsAttached : All IsAttached two_files
unfolding name_value cut_value
two-IsAttached = (
  attached _ (codes "config=a.yaml") (codes "config") (codes "a.yaml") refl refl,
  (
    attached _ (codes "port=81") (codes "port") (codes "81") refl refl,
    (attached _ (codes "config=b.yaml") (codes "config") (codes "b.yaml") refl refl, tt),
  ),
)

find_config_path-first_given_example :
    find_config_path host two_files
    ≡ get_or (first_given (codes "config") two_given) (getenv host (codes "CONFIG_FILE"))
find_config_path-first_given_example =
    find_config_path-first_given host two_files two-IsAttached two_parsed
