-- ===== src/Bridge/Config/Path.antt =====
-- `findConfigPath` of internal/cdpbridge/config.go beside the flag set.
use mathlib.Core.Option.{get_or}
use mathlib.Core.Path.{subst}
use cdp_go.Base.{
  All, Bool-cases, Bytes, List, Option, Option-cases, [], ap, arith, bytes_eq, bytes_eq_iff, codes,
  false, if◌then◌else◌, inl, inr, none, refl, some, sym, ◌++◌, ◌==◌, ◌∙◌, ◌∷◌, ◌≡◌, ◌⊎◌,
}
use cdp_go.Bridge.Config.{Host, getenv}
use cdp_go.Bridge.Config.Flags.{
  FlagError, Given, argument, cut_value, failed, flag_text, invalid_value, is_valid, kind_of,
  name_value, parse_flags, parse_one, set_within, take_argument, take_flag, take_named, take_text,
  undefined_flag,
}
use cdp_go.Bridge.Config.Load.{attached_path, find_config_path, is_config_flag, path_in}
use cdp_go.Cdp.Result.{bind-eq-ok, ok}
use cdp_go.Strings.{cut_prefix}

-- An argument that is a flag with its value, `-name=value` or `--name=value`.
pub record IsAttached (arg : Bytes) : Type 0 where
  pub text : Bytes
  pub name : Bytes
  pub value : Bytes
  pub is_flag : argument arg ≡ flag_text text
  pub is_named : name_value text ≡ some (name, some value)

-- The value behind `p=`.
abbrev behind : Bytes → Bytes × Option Bytes → Option Bytes
behind p (name, none) = none
behind p (name, some v) = if bytes_eq name p then some v else none

cut_prefix-cut_value :
    (p s : Bytes)
    → All (λ c. (c == b'=') ≡ false) p
    → cut_prefix (p ++ (b'=' ∷ [])) s ≡ behind p (cut_value s)
unfolding cut_prefix cut_value
cut_prefix-cut_value [] [] h = refl
cut_prefix-cut_value (d ∷ p) [] h = refl
cut_prefix-cut_value [] (c ∷ s) h = go (cut_value s)
  where
    go :
        (x : Bytes × Option Bytes)
        → (if b'=' == c then some s else none)
          ≡ behind [] (if c == b'=' then ([], some s) else (c ∷ x.0, x.1))
    go (n, none) = ground arith
    go (n, some v) = ground arith
cut_prefix-cut_value (d ∷ p) (c ∷ s) h = rw (cut_prefix-cut_value p s h.1) (go (cut_value s))
  where
    go :
        (x : Bytes × Option Bytes)
        → (if d == c then behind p x else none)
          ≡ behind (d ∷ p) (if c == b'=' then ([], some s) else (c ∷ x.0, x.1))
    go (n, none) = ground (arith, h.0)
    go (n, some v) = ground (arith, h.0)

name_value-cut_value :
    (s : Bytes) (x : Bytes × Option Bytes) → name_value s ≡ some x → cut_value s ≡ x
unfolding name_value cut_value
name_value-cut_value [] x e = absurd (ground (arith, e))
name_value-cut_value (c ∷ s) x e = ground (arith, e)

-- The argument with its minus signs.
argument_cases :
    (arg s : Bytes) → argument arg ≡ flag_text s → (arg ≡ b'-' ∷ s) ⊎ (arg ≡ b'-' ∷ b'-' ∷ s)
argument_cases [] s e = absurd (ground (arith, e))
argument_cases (c ∷ []) s e = absurd (ground (arith, e))
argument_cases (c ∷ d ∷ []) s e = ground (arith, e)
argument_cases (c ∷ d ∷ x ∷ t) s e = ground (arith, e)

-- No flag of that name without a value.
bare-ne : (s name v : Bytes) → cut_value s ≡ (name, some v) → bytes_eq s (codes "config") ≡ false
bare-ne s name v e = elim (Bool-cases (bytes_eq s (codes "config"))) [
  | inl same ↦
      let bare : cut_value s ≡ (codes "config", none) =
        ap cut_value ((bytes_eq_iff s (codes "config")).0 same) ∙ (unfold cut_value in refl) in
      absurd (ground (arith, e, bare))
  | inr differ ↦ differ
]

-- What is behind `config=`.
config_value :
    (s name v : Bytes)
    → name_value s ≡ some (name, some v)
    → cut_prefix (codes "config=") s ≡ (if bytes_eq name (codes "config") then some v else none)
config_value s name v e =
    cut_prefix-cut_value (codes "config") s (refl, (refl, (refl, (refl, (refl, (refl, tt))))))
    ∙ ap (behind (codes "config")) (name_value-cut_value s (name, some v) e)

-- What the loop sees in an argument.
abbrev Sees : Bytes → Bytes → Bytes → Type 0
Sees arg name v =
    (attached_path arg ≡ (if bytes_eq name (codes "config") then some v else none))
    × (is_config_flag arg ≡ false)

two_minuses :
    (s name v : Bytes) → name_value s ≡ some (name, some v) → Sees (b'-' ∷ b'-' ∷ s) name v
two_minuses s name v e =
    let bare = bare-ne s name v (name_value-cut_value s (name, some v) e) in
    ((unfold cut_prefix in ground (arith, config_value s name v e)), ground (arith, bare))

one_minus : (s name v : Bytes) → name_value s ≡ some (name, some v) → Sees (b'-' ∷ s) name v
one_minus [] name v e = absurd (unfold name_value in ground (arith, e))
one_minus (c ∷ s) name v e =
    let bare = bare-ne (c ∷ s) name v (name_value-cut_value (c ∷ s) (name, some v) e) in
    let plain : (c == b'-') ≡ false = unfold name_value in ground (arith, e) in
    (
      (unfold cut_prefix in ground (arith, config_value (c ∷ s) name v e, plain)),
      ground (arith, bare, plain),
    )

sees : (arg : Bytes) (a : IsAttached arg) → Sees arg a.name a.value
sees arg a = elim (argument_cases arg a.text a.is_flag) [
  | inl one ↦
      subst (λ x. Sees x a.name a.value) (sym one) (one_minus a.text a.name a.value a.is_named)
  | inr two ↦
      subst (λ x. Sees x a.name a.value) (sym two) (two_minuses a.text a.name a.value a.is_named)
]

-- The first text that is given to a flag.
abbrev pub first_given : Bytes → List Given → Option Bytes
first_given name [] = none
first_given name ((n, v) ∷ given) = if bytes_eq n name then some v else first_given name given

-- An attached flag is set to its own value, or refused.
sets :
    (h : Host) (arg : Bytes) (a : IsAttached arg) (next : Option Bytes)
    → (parse_one h arg next ≡ set_within a.name a.value)
      ⊎ ((e : FlagError) × (parse_one h arg next ≡ failed e))
unfolding take_argument take_text take_named take_flag
sets h arg a next =
    rw (a.is_flag, a.is_named)
      (elim (Option-cases (kind_of a.name)) [
        | inl missing ↦ rw missing (inr (undefined_flag a.name, refl))
        | inr (kind, known) ↦ rw known (elim (Bool-cases (is_valid h kind a.value)) [
          | inl good ↦ rw good (inl refl)
          | inr bad ↦ rw bad (inr (invalid_value a.name a.value, refl))
        ])
      ])

-- The loop on an attached argument.
path_step :
    (arg next : Bytes) (rest : List Bytes) (a : IsAttached arg)
    → path_in (arg ∷ next ∷ rest)
      ≡ (if bytes_eq a.name (codes "config") then some a.value else path_in (next ∷ rest))
unfolding path_in
path_step arg next rest a = ground (arith, sees arg a)

path_in-first_given :
    (h : Host) (args : List Bytes) {given : List Given}
    → All IsAttached args
    → parse_flags h args ≡ ok given
    → path_in args ≡ first_given (codes "config") given
unfolding parse_flags
path_in-first_given h [] {given} k e =
    let none_given : [] ≡ given = ground (arith, e) in
    unfold path_in in ap (first_given (codes "config")) none_given
path_in-first_given h (arg ∷ []) {given} k e = elim (sets h arg k.0 none) [
  | inl set_it ↦
      let one : (k.0.name, k.0.value) ∷ [] ≡ given = ground (arith, rw set_it at e) in
      unfold path_in in (sees arg k.0).0 ∙ ap (first_given (codes "config")) one
  | inr (x, refused) ↦ absurd (ground (arith, rw refused at e))
]
path_in-first_given h (arg ∷ next ∷ rest) {given} k e = elim (sets h arg k.0 (some next)) [
  | inl set_it ↦
      let (later, parsed, last) = bind-eq-ok (parse_flags h (next ∷ rest)) _ (rw set_it at e) in
      let all : (k.0.name, k.0.value) ∷ later ≡ given = ground (arith, last) in
      path_step arg next rest k.0
      ∙ ap (λ x. if bytes_eq k.0.name (codes "config") then some k.0.value else x)
          (path_in-first_given h (next ∷ rest) k.1 parsed)
      ∙ ap (first_given (codes "config")) all
  | inr (x, refused) ↦ absurd (ground (arith, rw refused at e))
]

-- On a command line of flags with their values in the same argument, which the flag set accepts,
-- the file is the one that the first `config` flag names, or without one that of `CONFIG_FILE`.
pub find_config_path-first_given :
    (h : Host) (args : List Bytes) {given : List Given}
    → All IsAttached args
    → parse_flags h args ≡ ok given
    → find_config_path h args
      ≡ get_or (first_given (codes "config") given) (getenv h (codes "CONFIG_FILE"))
unfolding find_config_path
find_config_path-first_given h args k e =
    ap (λ x. get_or x (getenv h (codes "CONFIG_FILE"))) (path_in-first_given h args k e)
