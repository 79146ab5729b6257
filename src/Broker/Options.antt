-- ===== src/Broker/Options.antt =====
-- Which options `Connect` in internal/broker/broker.go is to pass to the dial.
pub mod Choices
pub mod Connect
use cdp_go.Base.{Bytes, List, [], arith, refl, true, ◌↔◌, ◌∷◌, ◌≡◌, ◌≢◌, ◌⊎◌}
use cdp_go.Bridge.Config.{BrokerConfig}
use cdp_go.Broker.{
  NatsOption, auth_token, client_cert, echo_off, flusher_timeout, insecure_tls, is_set,
  jitter_to_reconnect, named, nkey, on_close, on_disconnect, on_error, on_reconnect, ping_each,
  pings_at_most, reconnects_at_most, root_cas, user_credentials, user_info, wait_to_reconnect,
}

-- What the settings ask for: an option that is always there has the value of its setting, a handler
-- is there, a credential is asked for by a setting that is not empty, a certificate by a pair of
-- files, and the two switches by themselves.
abbrev pub IsAsked : BrokerConfig → NatsOption → Type 0
IsAsked c (named x) = x ≡ c.client_name
IsAsked c (reconnects_at_most n) = n ≡ c.max_reconnects
IsAsked c (wait_to_reconnect d) = d ≡ c.reconnect_wait
IsAsked c (jitter_to_reconnect plain tls) =
    (plain ≡ c.reconnect_jitter) × (tls ≡ c.reconnect_jitter)
IsAsked c (ping_each d) = d ≡ c.ping_interval
IsAsked c (pings_at_most n) = n ≡ c.max_pings_out
IsAsked c (flusher_timeout d) = d ≡ c.flush_timeout
IsAsked c on_disconnect = Unit
IsAsked c on_reconnect = Unit
IsAsked c on_close = Unit
IsAsked c on_error = Unit
IsAsked c (user_info user password) = (c.user ≢ []) × (user ≡ c.user) × (password ≡ c.password)
IsAsked c (auth_token token) = (c.token ≢ []) × (token ≡ c.token)
IsAsked c (user_credentials file) = (c.creds_file ≢ []) × (file ≡ c.creds_file)
IsAsked c (nkey file) = (c.nkey_seed_file ≢ []) × (file ≡ c.nkey_seed_file)
IsAsked c (root_cas file) = (c.tls_ca ≢ []) × (file ≡ c.tls_ca)
IsAsked c (client_cert cert key) =
    (c.tls_cert ≢ []) × (c.tls_key ≢ []) × (cert ≡ c.tls_cert) × (key ≡ c.tls_key)
IsAsked c insecure_tls = c.tls_insecure ≡ true
IsAsked c echo_off = c.no_echo ≡ true

abbrev pub IsOption : NatsOption → List NatsOption → Type 0
IsOption o [] = ⊥
IsOption o (x ∷ xs) = (o ≡ x) ⊎ IsOption o xs

pub is_set_iff : (s : Bytes) → (is_set s ≡ true) ↔ (s ≢ [])
is_set_iff [] = (λ e. absurd (ground (arith, e)), λ h. absurd (h refl))
is_set_iff (x ∷ s) = (λ e q. ground (arith, q), λ h. refl)
