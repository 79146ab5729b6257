-- ===== src/Strings/Tokens.antt =====
-- The bytes that a token of a NATS subject has.
use cdp_go.Base.{ℕ, ◌≢◌}

-- The byte may stand in a token: it is no dot, star, greater-than sign, space, tab, line feed or
-- carriage return.
pub record IsTokenByte (c : ℕ) : Type 0 where
  pub no_dot : c ≢ b'.'
  pub no_star : c ≢ b'*'
  pub no_tail : c ≢ b'>'
  pub no_blank : c ≢ b' '
  pub no_tab : c ≢ 9
  pub no_newline : c ≢ 10
  pub no_return : c ≢ 13
