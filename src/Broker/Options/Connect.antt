-- ===== src/Broker/Options/Connect.antt =====
-- `Connect` in internal/broker/broker.go.
use cdp_go.Base.{
  Bool-cases, List, [], arith, false, inl, inr, none, not, refl, some, ◌&&◌, ◌↔◌, ◌≡◌, ◌≢◌, ◌⊎◌,
}
use cdp_go.Bridge.Config.{BrokerConfig}
use cdp_go.Broker.{
  Nats, NatsOption, bad_seed, connect_broker, connect_options, is_set, not_connected, seed_options,
}
use cdp_go.Broker.Options.{IsAsked, IsOption, is_set_iff}
use cdp_go.Broker.Options.Choices.{add_all, added-IsAsked, all_choices}
use cdp_go.Cdp.Result.{err, ok}

module _ {W : Type 0} (nats : Nats W) (c : BrokerConfig) where
  -- The seed file is set and is not read.
  abbrev pub IsUnread : Type 0
  IsUnread = (c.nkey_seed_file ≢ []) × (nats.reads_seed c.nkey_seed_file ≡ false)

  -- What the dial with these options answers, as an answer of `Connect`.
  abbrev pub IsDialed : List NatsOption → Type 0
  IsDialed opts =
      connect_broker nats c
      ≡ elim (nats.dial c.url opts) [ none ↦ err (not_connected c.url) | some world ↦ ok world ]

  seed_unread : IsUnread → connect_broker nats c ≡ err (bad_seed c.nkey_seed_file)
  unfolding connect_broker connect_options seed_options
  seed_unread h = ground (arith, (is_set_iff c.nkey_seed_file).1 h.0, h.1)

  seed_read : (¬ IsUnread) → connect_options nats c ≡ ok (add_all (all_choices c) [])
  unfolding connect_options seed_options
  seed_read h = elim (Bool-cases (is_set c.nkey_seed_file)) [
    | inl set ↦ elim (Bool-cases (nats.reads_seed c.nkey_seed_file)) [
      | inl good ↦ rw (set, good) refl
      | inr bad ↦ absurd (h ((is_set_iff c.nkey_seed_file).0 set, bad))
    ]
    | inr unset ↦ rw unset refl
  ]

  -- `Connect` fails on a seed file that is set and not read; otherwise it dials the address with
  -- options that are those that the settings ask for and no other, the four handlers among them, and
  -- answers what the dial answers.
  pub connect_broker-IsAsked :
      (IsUnread × (connect_broker nats c ≡ err (bad_seed c.nkey_seed_file)))
      ⊎ ((¬ IsUnread)
          × (opts : List NatsOption) × ((o : NatsOption) → IsOption o opts ↔ IsAsked c o)
          × IsDialed opts)
  unfolding connect_broker
  connect_broker-IsAsked =
      elim (Bool-cases (is_set c.nkey_seed_file && not (nats.reads_seed c.nkey_seed_file))) [
        | inl bad ↦
            let h : IsUnread =
              ((is_set_iff c.nkey_seed_file).0 (ground (arith, bad)), ground (arith, bad)) in
            inl (h, seed_unread h)
        | inr good ↦
            let h : ¬ IsUnread =
              λ u. ground (arith, good, (is_set_iff c.nkey_seed_file).1 u.0, u.1) in
            inr (h, add_all (all_choices c) [], added-IsAsked c, rw (seed_read h) refl)
      ]
