-- ===== src/Bridge/Config/Overlay.antt =====
-- The settings of `LoadConfig` in internal/cdpbridge/config.go over those of the file.
use mathlib.Core.Option.{get_or, some-injective}
use mathlib.Core.Path.{subst}
use cdp_go.Base.{All, Bytes, List, Option, arith, none, refl, some, sym, true, ◌∙◌, ◌≡◌}
use cdp_go.Bridge.Config.{BridgeConfig, Host, apply_env, or_parsed}
use cdp_go.Bridge.Config.Flags.{
  FlagKind, Given, apply_flags, bool_flag, duration_flag, int_flag, is_some, is_valid, kind_of,
  last_given, string_flag,
}
use cdp_go.Bridge.Config.Given.{IsGiven, last_given-IsGiven}
use cdp_go.Bridge.Config.Settings.{
  BoolSetting, DurationSetting, IntSetting, StringSetting, bool_in, bool_key, bool_name,
  duration_in, duration_key, duration_name, geofence_tag_ttl_setting, group_setting, int_in,
  int_key, int_name, nats_no_echo_setting, port_setting, string_in, string_key, string_name,
}
use cdp_go.Strings.Numerals.{atoi, parse_bool, parse_int}

-- Where the value of a setting comes from: the flag, if one is given; else the variable, if it is set
-- and its text is good; else what stood there before. `pf` and `pe` read the texts of the flag and
-- of the variable.
abbrev pub IsResolved {ℓ} :
    {A : Type ℓ}
    → (Bytes → Option A)
    → (Bytes → Option A)
    → Option Bytes
    → Option Bytes
    → A
    → A
    → Type ℓ
IsResolved pf pe (some v) env prior value = pf v ≡ some value
IsResolved pf pe none (some w) prior value = value ≡ get_or (pe w) prior
IsResolved pf pe none none prior value = value ≡ prior

-- Every setting of `c` with a flag and a variable is resolved over `loaded`, and the zones are those
-- of `loaded`.
pub record IsOverlay (h : Host) (given : List Given) (loaded c : BridgeConfig) : Type 0 where
  pub strings :
      (s : StringSetting)
      → IsResolved some some
          (last_given (string_name s) given)
          (h.lookup_env (string_key s))
          (string_in loaded s)
          (string_in c s)
  pub ints :
      (s : IntSetting)
      → IsResolved parse_int atoi
          (last_given (int_name s) given)
          (h.lookup_env (int_key s))
          (int_in loaded s)
          (int_in c s)
  pub bools :
      (s : BoolSetting)
      → IsResolved parse_bool parse_bool
          (last_given (bool_name s) given)
          (h.lookup_env (bool_key s))
          (bool_in loaded s)
          (bool_in c s)
  pub durations :
      (s : DurationSetting)
      → IsResolved h.parse_duration h.parse_duration
          (last_given (duration_name s) given)
          (h.lookup_env (duration_key s))
          (duration_in loaded s)
          (duration_in c s)
  pub zones : c.geofence.zones ≡ loaded.geofence.zones

-- The flags with their types.
string_kind : (s : StringSetting) → kind_of (string_name s) ≡ some string_flag
unfolding kind_of
string_kind group_setting = refl
string_kind _ = refl

int_kind : (s : IntSetting) → kind_of (int_name s) ≡ some int_flag
unfolding kind_of
int_kind port_setting = refl
int_kind _ = refl

bool_kind : (s : BoolSetting) → kind_of (bool_name s) ≡ some bool_flag
unfolding kind_of
bool_kind nats_no_echo_setting = refl
bool_kind _ = refl

duration_kind : (s : DurationSetting) → kind_of (duration_name s) ≡ some duration_flag
unfolding kind_of
duration_kind geofence_tag_ttl_setting = refl
duration_kind _ = refl

some_text : {A : Type 0} (o : Option A) → is_some o ≡ true → (a : A) × (o ≡ some a)
some_text none e = absurd (ground (arith, e))
some_text (some a) e = (a, refl)

string-IsResolved :
    (flag env : Option Bytes) (prior : Bytes)
    → IsResolved some some flag env prior (get_or flag (get_or env prior))
string-IsResolved (some v) env prior = refl
string-IsResolved none (some w) prior = refl
string-IsResolved none none prior = refl

parsed-IsResolved :
    {A : Type 0} (pf pe : Bytes → Option A) (flag env : Option Bytes) (prior : A)
    → ((v : Bytes) → flag ≡ some v → is_some (pf v) ≡ true)
    → IsResolved pf pe flag env prior (or_parsed pf flag (or_parsed pe env prior))
parsed-IsResolved pf pe (some v) env prior good =
    let (a, e) = some_text (pf v) (good v refl) in rw e refl
parsed-IsResolved pf pe none (some w) prior good = refl
parsed-IsResolved pf pe none none prior good = refl

module _ (h : Host) (given : List Given) (k : All (IsGiven h) given) where
  -- A flag that is given has a good text.
  good_text :
      (kind : FlagKind) (name : Bytes)
      → kind_of name ≡ some kind
      → (v : Bytes) → last_given name given ≡ some v
      → is_valid h kind v ≡ true
  good_text kind name e v f =
      let (found_kind, found, good) = last_given-IsGiven h name given k f in
      subst (λ x. is_valid h x v ≡ true) (some-injective _ _ (sym found ∙ e)) good

  overlay_strings :
      (loaded : BridgeConfig) (s : StringSetting)
      → IsResolved some some
          (last_given (string_name s) given)
          (h.lookup_env (string_key s))
          (string_in loaded s)
          (string_in (apply_flags h given (apply_env h loaded)) s)
  unfolding apply_flags apply_env
  overlay_strings loaded group_setting = string-IsResolved _ _ _
  overlay_strings loaded _ = string-IsResolved _ _ _

  overlay_ints :
      (loaded : BridgeConfig) (s : IntSetting)
      → IsResolved parse_int atoi
          (last_given (int_name s) given)
          (h.lookup_env (int_key s))
          (int_in loaded s)
          (int_in (apply_flags h given (apply_env h loaded)) s)
  unfolding apply_flags apply_env is_valid
  overlay_ints loaded port_setting =
      parsed-IsResolved parse_int atoi _ _ _ (good_text int_flag _ (int_kind port_setting))
  overlay_ints loaded s =
      parsed-IsResolved parse_int atoi _ _ _ (good_text int_flag (int_name s) (int_kind s))

  overlay_bools :
      (loaded : BridgeConfig) (s : BoolSetting)
      → IsResolved parse_bool parse_bool
          (last_given (bool_name s) given)
          (h.lookup_env (bool_key s))
          (bool_in loaded s)
          (bool_in (apply_flags h given (apply_env h loaded)) s)
  unfolding apply_flags apply_env is_valid
  overlay_bools loaded nats_no_echo_setting =
      parsed-IsResolved parse_bool parse_bool _ _ _
        (good_text bool_flag _ (bool_kind nats_no_echo_setting))
  overlay_bools loaded s =
      parsed-IsResolved parse_bool parse_bool _ _ _
        (good_text bool_flag (bool_name s) (bool_kind s))

  overlay_durations :
      (loaded : BridgeConfig) (s : DurationSetting)
      → IsResolved h.parse_duration h.parse_duration
          (last_given (duration_name s) given)
          (h.lookup_env (duration_key s))
          (duration_in loaded s)
          (duration_in (apply_flags h given (apply_env h loaded)) s)
  unfolding apply_flags apply_env is_valid
  overlay_durations loaded geofence_tag_ttl_setting =
      parsed-IsResolved h.parse_duration h.parse_duration _ _ _
        (good_text duration_flag _ (duration_kind geofence_tag_ttl_setting))
  overlay_durations loaded s =
      parsed-IsResolved h.parse_duration h.parse_duration _ _ _
        (good_text duration_flag (duration_name s) (duration_kind s))

  pub apply_flags-IsOverlay :
      (loaded : BridgeConfig) → IsOverlay h given loaded (apply_flags h given (apply_env h loaded))
  apply_flags-IsOverlay loaded = record {
    strings = overlay_strings loaded;
    ints = overlay_ints loaded;
    bools = overlay_bools loaded;
    durations = overlay_durations loaded;
    zones = unfold apply_flags apply_env in refl;
  }
