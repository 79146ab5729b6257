-- ===== src/Command.antt =====
-- cmd/cdp-nats-bridge/main.go.
use cdp_go.Base.{Bool, if◌then◌else◌, ℕ}
use cdp_go.Bridge.Config.{BridgeConfig}
use cdp_go.Bridge.Config.Flags.{help_asked}
use cdp_go.Bridge.Config.Load.{LoadError, flag_error}
use cdp_go.Cdp.Result.{Result, err, ok}

-- The exit status of `main`, for the answer of `LoadConfig` and whether `Run` returns an error for a
-- configuration.
unfoldable pub exit_code : Result LoadError BridgeConfig → (BridgeConfig → Bool) → ℕ
exit_code (err (flag_error help_asked)) run_fails = 0
exit_code (ok c) run_fails = if run_fails c then 1 else 0
exit_code _ run_fails = 2
