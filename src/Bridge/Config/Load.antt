-- ===== src/Bridge/Config/Load.antt =====
-- `LoadConfig`, `findConfigPath` and `validateSubjectPrefix` of internal/cdpbridge/config.go.
use mathlib.Core.Option.{get_or}
use cdp_go.Base.{
  Bool, Bytes, List, Option, [], bytes_eq, codes, if◌then◌else◌, none, some, ℕ, ◌==◌, ◌||◌, ◌∷◌,
}
use cdp_go.Bridge.Config.{
  BridgeConfig, FileError, Host, apply_env, defaults, getenv, load_yaml_into,
}
use cdp_go.Bridge.Config.Flags.{FlagError, apply_flags, parse_flags}
use cdp_go.Cdp.Result.{Result, err, fault, ok, ◌>>=◌}
use cdp_go.Strings.{cut_prefix, split}

-- The errors of `validateSubjectPrefix`, with what they report; an illegal character is ASCII.
pub data PrefixError : Type 0 where
  empty_token : Bytes → PrefixError
  illegal_character : Bytes → ℕ → PrefixError

-- The cases of the `switch`.
abbrev pub is_illegal : ℕ → Bool
is_illegal c = c == b' ' || c == 9 || c == 10 || c == 13 || c == b'*' || c == b'>'

-- The loop over the runes of a token; those that are not ASCII have no byte of the cases.
unfoldable pub validate_token : Bytes → Bytes → Result PrefixError (Unit {0})
validate_token whole [] = ok tt
validate_token whole (c ∷ token) =
    if is_illegal c then err (illegal_character whole c) else validate_token whole token

-- The loop over the tokens.
unfoldable pub validate_tokens : Bytes → List Bytes → Result PrefixError (Unit {0})
validate_tokens whole [] = ok tt
validate_tokens whole ([] ∷ tokens) = err (empty_token whole)
validate_tokens whole ((c ∷ token) ∷ tokens) =
    validate_token whole (c ∷ token) >>= λ _. validate_tokens whole tokens

-- `validateSubjectPrefix`, but for the setting's name.
unfoldable pub validate_subject_prefix : Bytes → Result PrefixError (Unit {0})
validate_subject_prefix [] = ok tt
validate_subject_prefix (c ∷ prefix) = validate_tokens (c ∷ prefix) (split b'.' (c ∷ prefix))

-- The path behind `--config=` or `-config=`.
abbrev pub attached_path : Bytes → Option Bytes
attached_path arg = elim (cut_prefix (codes "--config=") arg) [
  | some path ↦ some path
  | none ↦ cut_prefix (codes "-config=") arg
]

abbrev pub is_config_flag : Bytes → Bool
is_config_flag arg = bytes_eq arg (codes "--config") || bytes_eq arg (codes "-config")

-- The loop of `findConfigPath`.
unfoldable pub path_in : List Bytes → Option Bytes
path_in [] = none
path_in (arg ∷ []) = attached_path arg
path_in (arg ∷ next ∷ rest) =
    if is_config_flag arg
    then some next
    else elim (attached_path arg) [ some path ↦ some path | none ↦ path_in (next ∷ rest) ]

-- The errors of `LoadConfig`.
pub data LoadError : Type 0 where
  file_error : FileError → LoadError
  flag_error : FlagError → LoadError
  bad_prefix : PrefixError → LoadError
  bad_geofence_prefix : PrefixError → LoadError

-- An error of a step, as `LoadConfig` returns it.
abbrev pub or_load_error {ℓ} :
    {E : Type 0} {A : Type ℓ} → (E → LoadError) → Result E A → Result LoadError A
or_load_error f (ok a) = ok a
or_load_error f (err e) = err (f e)
or_load_error f fault = fault

-- The end of `LoadConfig`.
unfoldable pub check_prefixes : BridgeConfig → Result LoadError BridgeConfig
check_prefixes c = do
  _ ← or_load_error bad_prefix (validate_subject_prefix c.prefix)
  _ ← or_load_error bad_geofence_prefix (validate_subject_prefix c.geofence.prefix)
  ok c

module _ (h : Host) where
  -- `findConfigPath`.
  unfoldable pub find_config_path : List Bytes → Bytes
  find_config_path args = get_or (path_in args) (getenv h (codes "CONFIG_FILE"))

  -- `LoadConfig`.
  unfoldable pub load_config : List Bytes → Result LoadError BridgeConfig
  load_config args = do
    loaded ← or_load_error file_error (load_yaml_into h (find_config_path args) defaults)
    given ← or_load_error flag_error (parse_flags h args)
    check_prefixes (apply_flags h given (apply_env h loaded))
