-- ===== src/Bridge/Config/Given.antt =====
-- The flags that `Parse` sets in `LoadConfig` of internal/cdpbridge/config.go.
use mathlib.Core.Path.{subst}
use cdp_go.Base.{
  All, Bool-cases, Bytes, List, Option, Option-cases, [], arith, bytes_eq, bytes_eq_iff, codes, inl,
  inr, none, refl, some, sym, true, ◌∙◌, ◌∷◌, ◌≡◌,
}
use cdp_go.Bridge.Config.{Host}
use cdp_go.Bridge.Config.Flags.{
  Argument, FlagError, FlagKind, FlagStep, Given, add_step, argument, bool_flag, checked, failed,
  flag_text, flags_end, is_valid, kind_of, last_given, name_value, operand, parse_flags, set_next,
  set_within, take_argument, take_flag, take_named, take_text, terminator,
}
use cdp_go.Cdp.Result.{Result, err, fault, ok, ◌>>=◌}

-- A flag that is declared, with a text that its `Set` accepts.
abbrev pub IsGiven : Host → Given → Type 0
IsGiven h (name, v) = (kind : FlagKind) × (kind_of name ≡ some kind) × (is_valid h kind v ≡ true)

-- What a step of `Parse` that sets a flag answers.
abbrev IsStep : Host → FlagStep → Type 0
IsStep h (set_within name v) = IsGiven h (name, v)
IsStep h (set_next name v) = IsGiven h (name, v)
IsStep h _ = Unit

checked-IsStep :
    (h : Host) (kind : FlagKind) (name v : Bytes) (step : FlagStep)
    → (is_valid h kind v ≡ true → IsStep h step)
    → IsStep h (checked h kind name v step)
checked-IsStep h kind name v step k = elim (Bool-cases (is_valid h kind v)) [
  | inl good ↦ rw good (k good)
  | inr bad ↦ rw bad tt
]

take_flag-IsStep :
    (h : Host) (kind : FlagKind) (name : Bytes) (value next : Option Bytes)
    → kind_of name ≡ some kind
    → IsStep h (take_flag h kind name value next)
unfolding take_flag
take_flag-IsStep h kind name (some v) next e = checked-IsStep h kind name v _ (λ g. (kind, e, g))
take_flag-IsStep h bool_flag name none next e =
    checked-IsStep h bool_flag name (codes "true") _ (λ g. (bool_flag, e, g))
take_flag-IsStep h kind name none none e = tt
take_flag-IsStep h kind name none (some v) e = checked-IsStep h kind name v _ (λ g. (kind, e, g))

take_named-IsStep :
    (h : Host) (name : Bytes) (value next : Option Bytes) (kind : Option FlagKind)
    → kind_of name ≡ kind
    → IsStep h (take_named h name value next kind)
unfolding take_named
take_named-IsStep h name value next none e = tt
take_named-IsStep h name value next (some kind) e = take_flag-IsStep h kind name value next e

take_text-IsStep :
    (h : Host) (arg : Bytes) (next : Option Bytes) (text : Option (Bytes × Option Bytes))
    → IsStep h (take_text h arg next text)
unfolding take_text
take_text-IsStep h arg next none = tt
take_text-IsStep h arg next (some (name, value)) =
    take_named-IsStep h name value next (kind_of name) refl

take_argument-IsStep :
    (h : Host) (arg : Bytes) (next : Option Bytes) (a : Argument)
    → IsStep h (take_argument h arg next a)
unfolding take_argument
take_argument-IsStep h arg next operand = tt
take_argument-IsStep h arg next terminator = tt
take_argument-IsStep h arg next (flag_text s) = take_text-IsStep h arg next (name_value s)

-- Every flag that `Parse` sets is declared, and its text is good.
abbrev pub AreGiven : Host → Result FlagError (List Given) → Type 0
AreGiven h (ok given) = All (IsGiven h) given
AreGiven h (err e) = Unit
AreGiven h fault = ⊥

add-AreGiven :
    (h : Host) (g : Given) (r : Result FlagError (List Given))
    → IsGiven h g
    → AreGiven h r
    → AreGiven h (r >>= λ given. ok (g ∷ given))
add-AreGiven h g (ok given) k t = (k, t)
add-AreGiven h g (err e) k t = tt
add-AreGiven h g fault k t = absurd t

add_step-AreGiven :
    (h : Host) (step : FlagStep) (all fewer : Result FlagError (List Given))
    → IsStep h step
    → AreGiven h all
    → AreGiven h fewer
    → AreGiven h (add_step step all fewer)
add_step-AreGiven h flags_end all fewer k n r = tt
add_step-AreGiven h (failed e) all fewer k n r = tt
add_step-AreGiven h (set_within name v) all fewer k n r = add-AreGiven h (name, v) all k n
add_step-AreGiven h (set_next name v) all fewer k n r = add-AreGiven h (name, v) fewer k r

pub parse_flags-AreGiven : (h : Host) (args : List Bytes) → AreGiven h (parse_flags h args)
unfolding parse_flags
parse_flags-AreGiven h [] = tt
parse_flags-AreGiven h (arg ∷ []) =
    add_step-AreGiven h _ (ok []) (ok []) (take_argument-IsStep h arg none (argument arg)) tt tt
parse_flags-AreGiven h (arg ∷ next ∷ rest) =
    add_step-AreGiven h _ _ _ (take_argument-IsStep h arg (some next) (argument arg))
      (parse_flags-AreGiven h (next ∷ rest)) (parse_flags-AreGiven h rest)

pub last_given-IsGiven :
    (h : Host) (name : Bytes) (given : List Given) {v : Bytes}
    → All (IsGiven h) given
    → last_given name given ≡ some v
    → IsGiven h (name, v)
unfolding last_given
last_given-IsGiven h name [] k e = absurd (ground (arith, e))
last_given-IsGiven h name ((n, w) ∷ given) {v} k e = elim (Option-cases (last_given name given)) [
  | inl only ↦ elim (Bool-cases (bytes_eq name n)) [
    | inl same ↦
        let found : w ≡ v = ground (arith, e, only, same) in
        subst (λ x. IsGiven h (name, x)) found
          (subst (λ x. IsGiven h (x, w)) (sym ((bytes_eq_iff name n).0 same)) k.0)
    | inr other ↦ absurd (ground (arith, e, only, other))
  ]
  | inr (x, later) ↦ last_given-IsGiven h name given k.1 (later ∙ (rw later at e))
]
