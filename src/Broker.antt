-- ===== src/Broker.antt =====
-- internal/broker/broker.go. The handlers only log, so they are options without a content.
pub mod Options
use cdp_go.Base.{
  Bool, Bytes, List, Option, [], bytes_eq, if◌then◌else◌, none, not, some, ◌&&◌, ◌++◌, ◌∷◌,
}
use cdp_go.Base.Int.{ℤ}
use cdp_go.Bridge.Config.{BrokerConfig}
use cdp_go.Cdp.Result.{Result, err, ok, ◌>>=◌}

-- The options of nats.go that `Connect` builds; `nkey` is the one that `NkeyOptionFromSeed` makes of
-- a seed file.
pub data NatsOption : Type 0 where
  named : Bytes → NatsOption
  reconnects_at_most : ℤ → NatsOption
  wait_to_reconnect : ℤ → NatsOption
  jitter_to_reconnect : ℤ → ℤ → NatsOption
  ping_each : ℤ → NatsOption
  pings_at_most : ℤ → NatsOption
  flusher_timeout : ℤ → NatsOption
  on_disconnect : NatsOption
  on_reconnect : NatsOption
  on_close : NatsOption
  on_error : NatsOption
  user_info : Bytes → Bytes → NatsOption
  auth_token : Bytes → NatsOption
  user_credentials : Bytes → NatsOption
  nkey : Bytes → NatsOption
  root_cas : Bytes → NatsOption
  client_cert : Bytes → Bytes → NatsOption
  insecure_tls : NatsOption
  echo_off : NatsOption

pub data BrokerError : Type 0 where
  bad_seed : Bytes → BrokerError
  not_connected : Bytes → BrokerError

-- What `Connect` calls of nats.go: whether `NkeyOptionFromSeed` reads the file, and `nats.Connect`,
-- which answers the world with the connection.
pub record Nats (W : Type 0) : Type 0 where
  pub reads_seed : Bytes → Bool
  pub dial : Bytes → List NatsOption → Option W

-- One more option, if the test is true.
abbrev pub add_if : Bool → NatsOption → List NatsOption → List NatsOption
add_if test o opts = if test then opts ++ (o ∷ []) else opts

abbrev pub is_set : Bytes → Bool
is_set s = not (bytes_eq s [])

-- The literal with which `Connect` begins.
abbrev pub base_options : BrokerConfig → List NatsOption
base_options c =
    named c.client_name
    ∷ reconnects_at_most c.max_reconnects
    ∷ wait_to_reconnect c.reconnect_wait
    ∷ jitter_to_reconnect c.reconnect_jitter c.reconnect_jitter
    ∷ ping_each c.ping_interval
    ∷ pings_at_most c.max_pings_out
    ∷ flusher_timeout c.flush_timeout
    ∷ on_disconnect
    ∷ on_reconnect
    ∷ on_close
    ∷ on_error
    ∷ []

-- The options up to the credentials file.
abbrev pub user_options : BrokerConfig → List NatsOption
user_options c = add_if (is_set c.creds_file) (user_credentials c.creds_file) (
    add_if (is_set c.token) (auth_token c.token)
      (add_if (is_set c.user) (user_info c.user c.password) (base_options c)))

-- The options behind that of the seed file.
abbrev pub tls_options : BrokerConfig → List NatsOption → List NatsOption
tls_options c opts = add_if c.no_echo echo_off (
    add_if c.tls_insecure insecure_tls (
      add_if (is_set c.tls_cert && is_set c.tls_key) (client_cert c.tls_cert c.tls_key)
        (add_if (is_set c.tls_ca) (root_cas c.tls_ca) opts)))

module _ {W : Type 0} (nats : Nats W) where
  unfoldable pub seed_options :
      BrokerConfig → List NatsOption → Result BrokerError (List NatsOption)
  seed_options c opts =
      if is_set c.nkey_seed_file
      then if nats.reads_seed c.nkey_seed_file
        then ok (opts ++ (nkey c.nkey_seed_file ∷ []))
        else err (bad_seed c.nkey_seed_file)
      else ok opts

  -- The options of `Connect`.
  unfoldable pub connect_options : BrokerConfig → Result BrokerError (List NatsOption)
  connect_options c = seed_options c (user_options c) >>= λ opts. ok (tls_options c opts)

  -- `Connect`.
  unfoldable pub connect_broker : BrokerConfig → Result BrokerError W
  connect_broker c = connect_options c >>= λ opts. elim (nats.dial c.url opts) [
    | none ↦ err (not_connected c.url)
    | some world ↦ ok world
  ]
