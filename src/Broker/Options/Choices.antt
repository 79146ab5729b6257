-- ===== src/Broker/Options/Choices.antt =====
-- The options of `Connect` in internal/broker/broker.go as a list of choices.
use mathlib.Core.Path.{ap₂, subst}
use cdp_go.Base.{
  Bool, List, [], ap, arith, false, inl, inr, refl, sym, true, ◌&&◌, ◌++◌, ◌↔◌, ◌∷◌, ◌≡◌, ◌⊎◌,
}
use cdp_go.Bridge.Config.{BrokerConfig}
use cdp_go.Broker.{
  NatsOption, add_if, auth_token, client_cert, echo_off, flusher_timeout, insecure_tls, is_set,
  jitter_to_reconnect, named, nkey, on_close, on_disconnect, on_error, on_reconnect, ping_each,
  pings_at_most, reconnects_at_most, root_cas, user_credentials, user_info, wait_to_reconnect,
}
use cdp_go.Broker.Options.{IsAsked, IsOption, is_set_iff}
use cdp_go.Strings.{split}

-- An option with the test under which it is added.
abbrev pub Choice : Type 0
Choice = Bool × NatsOption

abbrev IsChosen : NatsOption → List Choice → Type 0
IsChosen o [] = ⊥
IsChosen o ((test, x) ∷ choices) = ((test ≡ true) × (o ≡ x)) ⊎ IsChosen o choices

abbrev pub add_all : List Choice → List NatsOption → List NatsOption
add_all [] opts = opts
add_all ((test, o) ∷ choices) opts = add_all choices (add_if test o opts)

abbrev pub choices_of : BrokerConfig → List Choice
choices_of c =
    (is_set c.user, user_info c.user c.password)
    ∷ (is_set c.token, auth_token c.token)
    ∷ (is_set c.creds_file, user_credentials c.creds_file)
    ∷ (is_set c.nkey_seed_file, nkey c.nkey_seed_file)
    ∷ (is_set c.tls_ca, root_cas c.tls_ca)
    ∷ (is_set c.tls_cert && is_set c.tls_key, client_cert c.tls_cert c.tls_key)
    ∷ (c.tls_insecure, insecure_tls)
    ∷ (c.no_echo, echo_off)
    ∷ []

append-IsOption :
    (o x : NatsOption) (opts : List NatsOption)
    → IsOption o (opts ++ (x ∷ [])) ↔ (IsOption o opts ⊎ (o ≡ x))
append-IsOption o x [] = (
  λ h. elim h [ inl e ↦ inr e | inr none_left ↦ absurd none_left ],
  λ h. elim h [ inl e ↦ absurd e | inr e ↦ inl e ],
)
append-IsOption o x (y ∷ opts) =
    let (there, back) = append-IsOption o x opts in
    (
      λ h. elim h [
        | inl e ↦ inl (inl e)
        | inr more ↦ elim (there more) [ inl k ↦ inl (inr k) | inr e ↦ inr e ]
      ],
      λ h. elim h [
        | inl k ↦ elim k [ inl e ↦ inl e | inr more ↦ inr (back (inl more)) ]
        | inr e ↦ inr (back (inr e))
      ],
    )

-- Options that are added one after the other are those there were and those chosen.
add_all-IsChosen :
    (o : NatsOption) (choices : List Choice) (opts : List NatsOption)
    → IsOption o (add_all choices opts) ↔ (IsOption o opts ⊎ IsChosen o choices)
add_all-IsChosen o [] opts = (λ h. inl h, λ h. elim h [ inl k ↦ k | inr never ↦ absurd never ])
add_all-IsChosen o ((true, x) ∷ choices) opts =
    let (there, back) = add_all-IsChosen o choices (opts ++ (x ∷ [])) in
    let (split, join) = append-IsOption o x opts in
    (
      λ h. elim (there h) [
        | inl k ↦ elim (split k) [ inl old ↦ inl old | inr e ↦ inr (inl (refl, e)) ]
        | inr more ↦ inr (inr more)
      ],
      λ h. elim h [
        | inl old ↦ back (inl (join (inl old)))
        | inr k ↦ elim k [ inl new ↦ back (inl (join (inr new.1))) | inr more ↦ back (inr more) ]
      ],
    )
add_all-IsChosen o ((false, x) ∷ choices) opts =
    let (there, back) = add_all-IsChosen o choices opts in
    (
      λ h. elim (there h) [ inl old ↦ inl old | inr more ↦ inr (inr more) ],
      λ h. elim h [
        | inl old ↦ back (inl old)
        | inr k ↦ elim k [ inl new ↦ cc | inr more ↦ back (inr more) ]
      ],
    )

-- All options of `Connect` in order, the standing ones under a test that is true.
abbrev pub all_choices : BrokerConfig → List Choice
all_choices c =
    (true, named c.client_name)
    ∷ (true, reconnects_at_most c.max_reconnects)
    ∷ (true, wait_to_reconnect c.reconnect_wait)
    ∷ (true, jitter_to_reconnect c.reconnect_jitter c.reconnect_jitter)
    ∷ (true, ping_each c.ping_interval)
    ∷ (true, pings_at_most c.max_pings_out)
    ∷ (true, flusher_timeout c.flush_timeout)
    ∷ (true, on_disconnect)
    ∷ (true, on_reconnect)
    ∷ (true, on_close)
    ∷ (true, on_error)
    ∷ choices_of c

-- Every choice that is made is asked for.
abbrev AreAsked : BrokerConfig → List Choice → Type 0
AreAsked c [] = Unit
AreAsked c ((test, x) ∷ choices) = (test ≡ true → IsAsked c x) × AreAsked c choices

optional-AreAsked : (c : BrokerConfig) → AreAsked c (choices_of c)
optional-AreAsked c = (
  λ t. ((is_set_iff c.user).0 t, refl, refl),
  (
    λ t. ((is_set_iff c.token).0 t, refl),
    (
      λ t. ((is_set_iff c.creds_file).0 t, refl),
      (
        λ t. ((is_set_iff c.nkey_seed_file).0 t, refl),
        (
          λ t. ((is_set_iff c.tls_ca).0 t, refl),
          (
            λ t. (
              (is_set_iff c.tls_cert).0 (ground (arith, t)),
              (is_set_iff c.tls_key).0 (ground (arith, t)),
              refl,
              refl,
            ),
            (λ t. t, (λ t. t, tt)),
          ),
        ),
      ),
    ),
  ),
)

choices-AreAsked : (c : BrokerConfig) → AreAsked c (all_choices c)
choices-AreAsked c =
    let optional = optional-AreAsked c in
    (
      λ t. refl,
      (
        λ t. refl,
        (
          λ t. refl,
          (
            λ t. (refl, refl),
            (
              λ t. refl,
              (λ t. refl, (λ t. refl, (λ t. tt, (λ t. tt, (λ t. tt, (λ t. tt, optional)))))),
            ),
          ),
        ),
      ),
    )

IsChosen-IsAsked :
    (c : BrokerConfig) (o : NatsOption) (choices : List Choice)
    → AreAsked c choices
    → IsChosen o choices
    → IsAsked c o
IsChosen-IsAsked c o [] a h = absurd h
IsChosen-IsAsked c o ((test, x) ∷ choices) a h = elim h [
  | inl here ↦ subst (IsAsked c) (sym here.1) (a.0 here.0)
  | inr more ↦ IsChosen-IsAsked c o choices a.1 more
]

module _ (c : BrokerConfig) where
  -- The optional settings come behind the eleven that stand.
  behind : (o : NatsOption) → IsChosen o (choices_of c) → IsChosen o (all_choices c)
  behind o h = inr (inr (inr (inr (inr (inr (inr (inr (inr (inr (inr h))))))))))

  IsAsked-IsChosen : (o : NatsOption) → IsAsked c o → IsChosen o (all_choices c)
  IsAsked-IsChosen (named x) h = inl (refl, ap named h)
  IsAsked-IsChosen (reconnects_at_most x) h = inr (inl (refl, ap reconnects_at_most h))
  IsAsked-IsChosen (wait_to_reconnect x) h = inr (inr (inl (refl, ap wait_to_reconnect h)))
  IsAsked-IsChosen (jitter_to_reconnect x y) h =
      inr (inr (inr (inl (refl, ap₂ jitter_to_reconnect h.0 h.1))))
  IsAsked-IsChosen (ping_each x) h = inr (inr (inr (inr (inl (refl, ap ping_each h)))))
  IsAsked-IsChosen (pings_at_most x) h =
      inr (inr (inr (inr (inr (inl (refl, ap pings_at_most h))))))
  IsAsked-IsChosen (flusher_timeout x) h =
      inr (inr (inr (inr (inr (inr (inl (refl, ap flusher_timeout h)))))))
  IsAsked-IsChosen on_disconnect h = inr (inr (inr (inr (inr (inr (inr (inl (refl, refl))))))))
  IsAsked-IsChosen on_reconnect h = inr (inr (inr (inr (inr (inr (inr (inr (inl (refl, refl)))))))))
  IsAsked-IsChosen on_close h =
      inr (inr (inr (inr (inr (inr (inr (inr (inr (inl (refl, refl))))))))))
  IsAsked-IsChosen on_error h =
      inr (inr (inr (inr (inr (inr (inr (inr (inr (inr (inl (refl, refl)))))))))))
  IsAsked-IsChosen (user_info x y) h =
      behind _ (inl ((is_set_iff c.user).1 h.0, ap₂ user_info h.1 h.2))
  IsAsked-IsChosen (auth_token x) h =
      behind _ (inr (inl ((is_set_iff c.token).1 h.0, ap auth_token h.1)))
  IsAsked-IsChosen (user_credentials x) h =
      behind _ (inr (inr (inl ((is_set_iff c.creds_file).1 h.0, ap user_credentials h.1))))
  IsAsked-IsChosen (nkey x) h =
      behind _ (inr (inr (inr (inl ((is_set_iff c.nkey_seed_file).1 h.0, ap nkey h.1)))))
  IsAsked-IsChosen (root_cas x) h =
      behind _ (inr (inr (inr (inr (inl ((is_set_iff c.tls_ca).1 h.0, ap root_cas h.1))))))
  IsAsked-IsChosen (client_cert x y) h = behind _ (
      inr (
        inr (
          inr (
            inr (
              inr (
                inl (
                  ground (arith, (is_set_iff c.tls_cert).1 h.0, (is_set_iff c.tls_key).1 h.1),
                  ap₂ client_cert h.2 h.3,
                )))))))
  IsAsked-IsChosen insecure_tls h = behind _ (inr (inr (inr (inr (inr (inr (inl (h, refl))))))))
  IsAsked-IsChosen echo_off h = behind _ (inr (inr (inr (inr (inr (inr (inr (inl (h, refl)))))))))

  -- The options that are added in order are those asked for.
  pub added-IsAsked : (o : NatsOption) → IsOption o (add_all (all_choices c) []) ↔ IsAsked c o
  added-IsAsked o =
      let (there, back) = add_all-IsChosen o (all_choices c) [] in
      (
        λ h. elim (there h) [
          | inl never ↦ absurd never
          | inr k ↦ IsChosen-IsAsked c o (all_choices c) (choices-AreAsked c) k
        ],
        λ h. back (inr (IsAsked-IsChosen o h)),
      )
