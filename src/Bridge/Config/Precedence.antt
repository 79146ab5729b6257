-- ===== src/Bridge/Config/Precedence.antt =====
-- What `LoadConfig` of internal/cdpbridge/config.go returns.
use mathlib.Core.Path.{subst}
use cdp_go.Base.{Bytes, List, [], arith, inl, inr, ◌∷◌, ◌≡◌, ◌≢◌}
use cdp_go.Bridge.Config.{BridgeConfig, Host, apply_env, defaults, load_yaml_into}
use cdp_go.Bridge.Config.Flags.{Given, apply_flags, parse_flags}
use cdp_go.Bridge.Config.Given.{AreGiven, parse_flags-AreGiven}
use cdp_go.Bridge.Config.Load.{
  LoadError, bad_geofence_prefix, bad_prefix, check_prefixes, file_error, find_config_path,
  flag_error, load_config,
}
use cdp_go.Bridge.Config.Overlay.{IsOverlay, apply_flags-IsOverlay}
use cdp_go.Bridge.Subjects.{IsPrefix, prefix_cases}
use cdp_go.Cdp.Result.{Result, Result-cases, err, fault, ok}

-- The file is read over the defaults, and the arguments are parsed.
pub record IsRead (h : Host) (args : List Bytes) : Type 0 where
  pub loaded : BridgeConfig
  pub given : List Given
  pub from_file : load_yaml_into h (find_config_path h args) defaults ≡ ok loaded
  pub from_args : parse_flags h args ≡ ok given

-- What each answer of `LoadConfig` means.
abbrev pub LoadOutcome : Host → List Bytes → Result LoadError BridgeConfig → Type 0
LoadOutcome h args (ok c) =
    (r : IsRead h args) × IsOverlay h r.given r.loaded c
    × IsPrefix c.prefix
    × IsPrefix c.geofence.prefix
LoadOutcome h args (err (file_error e)) =
    load_yaml_into h (find_config_path h args) defaults ≡ err e
LoadOutcome h args (err (flag_error e)) =
    (loaded : BridgeConfig) × (load_yaml_into h (find_config_path h args) defaults ≡ ok loaded)
    × (parse_flags h args ≡ err e)
LoadOutcome h args (err (bad_prefix e)) =
    (r : IsRead h args) × (c : BridgeConfig) × IsOverlay h r.given r.loaded c
    × (¬ IsPrefix c.prefix)
LoadOutcome h args (err (bad_geofence_prefix e)) =
    (r : IsRead h args) × (c : BridgeConfig) × IsOverlay h r.given r.loaded c
    × IsPrefix c.prefix
    × (¬ IsPrefix c.geofence.prefix)
LoadOutcome h args fault = ⊥

load_yaml_into-total :
    (h : Host) (path : Bytes) (c : BridgeConfig) → load_yaml_into h path c ≢ fault
unfolding load_yaml_into
load_yaml_into-total h [] c e = ground (arith, e)
load_yaml_into-total h (b ∷ path) c e = ground (arith, e)

checked_outcome :
    (h : Host) (args : List Bytes) (r : IsRead h args) (c : BridgeConfig)
    → IsOverlay h r.given r.loaded c
    → LoadOutcome h args (check_prefixes c)
unfolding check_prefixes
checked_outcome h args r c k = elim (prefix_cases c.prefix) [
  | inl (good, p) ↦ elim (prefix_cases c.geofence.prefix) [
    | inl (good', q) ↦ rw (good, good') (r, k, p, q)
    | inr (e, bad, n) ↦ rw (good, bad) (r, c, k, p, n)
  ]
  | inr (e, bad, n) ↦ rw bad (r, c, k, n)
]

parsed_outcome :
    (h : Host) (args : List Bytes) (loaded : BridgeConfig) (given : List Given)
    → load_yaml_into h (find_config_path h args) defaults ≡ ok loaded
    → parse_flags h args ≡ ok given
    → LoadOutcome h args (check_prefixes (apply_flags h given (apply_env h loaded)))
parsed_outcome h args loaded given e f =
    checked_outcome h args (record { loaded = loaded; given = given; from_file = e; from_args = f })
      _ (apply_flags-IsOverlay h given (subst (AreGiven h) f (parse_flags-AreGiven h args)) loaded)

-- `LoadConfig` returns a configuration in which each setting comes from the last flag that names it,
-- else from a good text of its variable, else from the file or the default, and whose prefixes are
-- empty or subjects; or it returns the error of the file, of the flags or of a prefix that is
-- neither, in this order.
pub load_config-LoadOutcome :
    (h : Host) (args : List Bytes) → LoadOutcome h args (load_config h args)
unfolding load_config
load_config-LoadOutcome h args =
    elim (Result-cases (load_yaml_into h (find_config_path h args) defaults)) [
      | inl (loaded, e) ↦ elim (Result-cases (parse_flags h args)) [
        | inl (given, f) ↦ rw (e, f) (parsed_outcome h args loaded given e f)
        | inr (inl (x, f)) ↦ rw (e, f) (loaded, e, f)
        | inr (inr f) ↦ absurd (subst (AreGiven h) f (parse_flags-AreGiven h args))
      ]
      | inr (inl (x, e)) ↦ rw e e
      | inr (inr e) ↦ absurd (load_yaml_into-total h (find_config_path h args) defaults e)
    ]
