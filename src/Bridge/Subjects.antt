-- ===== src/Bridge/Subjects.antt =====
-- NATS subjects: tokens joined by dots, and `validateSubjectPrefix` of internal/cdpbridge/config.go.
pub mod Items
pub mod Events
pub mod Sent
use mathlib.Core.List.{append_assoc}
use mathlib.Core.Path.{ap₂, subst}
use cdp_go.Base.{
  ==_iff, All, Bool-cases, Bytes, List, [], ap, arith, false, inl, inr, refl, sym, ℕ, ◌==◌, ◌↔◌,
  ◌∙◌, ◌∷◌, ◌≡◌, ◌≢◌, ◌⊎◌,
}
use cdp_go.Bridge.{dotted}
use cdp_go.Bridge.Config.Load.{
  PrefixError, is_illegal, validate_subject_prefix, validate_token, validate_tokens,
}
use cdp_go.Cdp.Result.{Result-cases, bind-eq-ok, err, fault, ok}
use cdp_go.Strings.{prepend, split}
use cdp_go.Strings.Tokens.{IsTokenByte}

-- A token: at least one byte, each of those that may stand in one.
pub record IsToken (token : Bytes) : Type 0 where
  pub filled : token ≢ []
  pub legal : All IsTokenByte token

pub data IsSubject : Bytes → Type 0 where
  last_token : (token : Bytes) → IsToken token → IsSubject token
  more_tokens : (token s : Bytes) → IsToken token → IsSubject s → IsSubject (dotted token s)

append-dotted : (a b c : Bytes) → dotted a (dotted b c) ≡ dotted (dotted a b) c
append-dotted a b c = sym (append_assoc a (b'.' ∷ b) (b'.' ∷ c))

-- Two subjects joined by a dot are one.
pub dotted-IsSubject : {a b : Bytes} → IsSubject a → IsSubject b → IsSubject (dotted a b)
dotted-IsSubject (last_token a h) k = more_tokens a _ h k
dotted-IsSubject {b = b} (more_tokens a s h t) k =
    subst IsSubject (append-dotted a s b) (more_tokens a (dotted s b) h (dotted-IsSubject t k))

undotted : (token : Bytes) → All IsTokenByte token → All (λ c. c ≢ b'.') token
undotted [] h = tt
undotted (c ∷ token) h = (h.0.no_dot, undotted token h.1)

-- The tokens that `strings.Split` finds.
split_token : (token : Bytes) → All (λ c. c ≢ b'.') token → split b'.' token ≡ token ∷ []
unfolding split
split_token [] h = refl
split_token (c ∷ token) h = ground (arith, split_token token h.1)

split-dotted :
    (token s : Bytes)
    → All (λ c. c ≢ b'.') token
    → split b'.' (dotted token s) ≡ token ∷ split b'.' s
unfolding split
split-dotted [] s h = refl
split-dotted (c ∷ token) s h = ground (arith, split-dotted token s h.1)

validate_legal : (whole token : Bytes) → All IsTokenByte token → validate_token whole token ≡ ok tt
unfolding validate_token
validate_legal whole [] h = refl
validate_legal whole (c ∷ token) h =
    let good : is_illegal c ≡ false = ground (arith, h.0) in
    rw good (validate_legal whole token h.1)

validate_cons :
    (whole token : Bytes) (tokens : List Bytes)
    → IsToken token
    → validate_tokens whole (token ∷ tokens) ≡ validate_tokens whole tokens
unfolding validate_tokens
validate_cons whole [] tokens h = absurd (h.filled refl)
validate_cons whole (c ∷ token) tokens h = rw (validate_legal whole (c ∷ token) h.legal) refl

subject_validates : (whole s : Bytes) → IsSubject s → validate_tokens whole (split b'.' s) ≡ ok tt
subject_validates whole _ (last_token token h) =
    rw (split_token token (undotted token h.legal))
      (validate_cons whole token [] h ∙ (unfold validate_tokens in refl))
subject_validates whole _ (more_tokens token s h k) =
    rw (split-dotted token s (undotted token h.legal))
      (validate_cons whole token (split b'.' s) h ∙ subject_validates whole s k)

-- Back from the tokens to the prefix.
join : List Bytes → Bytes
join [] = []
join (token ∷ []) = token
join (token ∷ next ∷ tokens) = dotted token (join (next ∷ tokens))

split_filled : (s : Bytes) → (t : Bytes) × (ts : List Bytes) × (split b'.' s ≡ t ∷ ts)
unfolding split
split_filled [] = ([], [], refl)
split_filled (c ∷ s) = elim (Bool-cases (c == b'.')) [
  | inl dot ↦ ([], split b'.' s, rw dot refl)
  | inr text ↦ let (t, ts, e) = split_filled s in (c ∷ t, ts, rw (text, e) refl)
]

join-prepend : (c : ℕ) (tokens : List Bytes) → join (prepend c tokens) ≡ c ∷ join tokens
unfolding join
join-prepend c [] = refl
join-prepend c (t ∷ []) = refl
join-prepend c (t ∷ u ∷ ts) = refl

join-nil : (s : Bytes) → join ([] ∷ split b'.' s) ≡ b'.' ∷ join (split b'.' s)
unfolding join
join-nil s = let (t, ts, e) = split_filled s in rw e refl

join-split : (s : Bytes) → join (split b'.' s) ≡ s
unfolding split
join-split [] = unfold join in refl
join-split (c ∷ s) = elim (Bool-cases (c == b'.')) [
  | inl dot ↦ rw dot (join-nil s ∙ ap₂ ◌∷◌ (sym ((==_iff c b'.').0 dot)) (join-split s))
  | inr text ↦ rw text (join-prepend c (split b'.' s) ∙ ap (◌∷◌ c) (join-split s))
]

abbrev AreUndotted : List Bytes → Type 0
AreUndotted = All (λ t. All (λ c. c ≢ b'.') t)

prepend-AreUndotted :
    (c : ℕ) (tokens : List Bytes) → c ≢ b'.' → AreUndotted tokens → AreUndotted (prepend c tokens)
prepend-AreUndotted c [] n h = ((n, tt), tt)
prepend-AreUndotted c (t ∷ ts) n h = ((n, h.0), h.1)

split-AreUndotted : (s : Bytes) → AreUndotted (split b'.' s)
unfolding split
split-AreUndotted [] = (tt, tt)
split-AreUndotted (c ∷ s) = elim (Bool-cases (c == b'.')) [
  | inl dot ↦ rw dot ((tt, split-AreUndotted s))
  | inr text ↦ rw text (prepend-AreUndotted c (split b'.' s) (ground arith) (split-AreUndotted s))
]

legal_validated :
    (whole token : Bytes)
    → All (λ c. c ≢ b'.') token
    → validate_token whole token ≡ ok tt
    → All IsTokenByte token
unfolding validate_token
legal_validated whole [] h e = tt
legal_validated whole (c ∷ token) h e = elim (Bool-cases (is_illegal c)) [
  | inl bad ↦ absurd (ground (arith, e, bad))
  | inr good ↦ (ground (arith, h.0), legal_validated whole token h.1 (rw good at e))
]

validated_head :
    (whole token : Bytes) (tokens : List Bytes)
    → All (λ c. c ≢ b'.') token
    → validate_tokens whole (token ∷ tokens) ≡ ok tt
    → IsToken token × (validate_tokens whole tokens ≡ ok tt)
unfolding validate_tokens
validated_head whole [] tokens h e = absurd (ground (arith, e))
validated_head whole (c ∷ token) tokens h e =
    let (_, first, next) = bind-eq-ok (validate_token whole (c ∷ token)) _ e in
    (record { filled = λ n. ground arith; legal = legal_validated whole (c ∷ token) h first }, next)

validated-IsSubject :
    (whole token : Bytes) (tokens : List Bytes)
    → AreUndotted (token ∷ tokens)
    → validate_tokens whole (token ∷ tokens) ≡ ok tt
    → IsSubject (join (token ∷ tokens))
unfolding join
validated-IsSubject whole token [] h e = last_token token (validated_head whole token [] h.0 e).0
validated-IsSubject whole token (next ∷ tokens) h e =
    let (t, rest) = validated_head whole token (next ∷ tokens) h.0 e in
    more_tokens token (join (next ∷ tokens)) t (validated-IsSubject whole next tokens h.1 rest)

split_validated-IsSubject :
    (whole s : Bytes) → validate_tokens whole (split b'.' s) ≡ ok tt → IsSubject s
split_validated-IsSubject whole s e =
    let (t, ts, found) = split_filled s in
    subst IsSubject (ap join (sym found) ∙ join-split s) (
      validated-IsSubject whole t ts (subst AreUndotted found (split-AreUndotted s))
        (subst (λ l. validate_tokens whole l ≡ ok tt) found e))

-- A prefix that `validateSubjectPrefix` is to let pass: none, or a subject.
abbrev pub IsPrefix : Bytes → Type 0
IsPrefix prefix = (prefix ≡ []) ⊎ IsSubject prefix

-- A prefix passes `validateSubjectPrefix` if it is empty or a subject, and only then.
pub validate_subject_prefix-IsSubject :
    (prefix : Bytes) → (validate_subject_prefix prefix ≡ ok tt) ↔ IsPrefix prefix
unfolding validate_subject_prefix
validate_subject_prefix-IsSubject [] = (λ e. inl refl, λ h. refl)
validate_subject_prefix-IsSubject (c ∷ s) = (
  λ e. inr (split_validated-IsSubject (c ∷ s) (c ∷ s) e),
  λ h. elim h [
    | inl empty ↦ absurd (ground (arith, empty))
    | inr subject ↦ subject_validates (c ∷ s) (c ∷ s) subject
  ],
)

validate_token-total : (whole token : Bytes) → validate_token whole token ≢ fault
unfolding validate_token
validate_token-total whole [] e = ground (arith, e)
validate_token-total whole (c ∷ token) e = ground (arith, e, validate_token-total whole token)

validate_tokens-total : (whole : Bytes) (tokens : List Bytes) → validate_tokens whole tokens ≢ fault
unfolding validate_tokens
validate_tokens-total whole [] e = ground (arith, e)
validate_tokens-total whole ([] ∷ tokens) e = ground (arith, e)
validate_tokens-total whole ((c ∷ token) ∷ tokens) e =
    elim (Result-cases (validate_token whole (c ∷ token))) [
      | inl (_, good) ↦ validate_tokens-total whole tokens (rw good at e)
      | inr (inl (x, bad)) ↦ ground (arith, e, bad)
      | inr (inr never) ↦ validate_token-total whole (c ∷ token) never
    ]

validate-total : (p : Bytes) → validate_subject_prefix p ≢ fault
unfolding validate_subject_prefix
validate-total [] e = ground (arith, e)
validate-total (c ∷ s) e = validate_tokens-total (c ∷ s) (split b'.' (c ∷ s)) e

-- What the answer of `validateSubjectPrefix` says of the prefix.
pub prefix_cases :
    (prefix : Bytes)
    → ((validate_subject_prefix prefix ≡ ok tt) × IsPrefix prefix)
      ⊎ ((e : PrefixError) × (validate_subject_prefix prefix ≡ err e) × (¬ IsPrefix prefix))
prefix_cases prefix = elim (Result-cases (validate_subject_prefix prefix)) [
  | inl (_, good) ↦ inl (good, (validate_subject_prefix-IsSubject prefix).0 good)
  | inr (inl (e, bad)) ↦
      inr (e, bad, λ k. ground (arith, bad, (validate_subject_prefix-IsSubject prefix).1 k))
  | inr (inr never) ↦ absurd (validate-total prefix never)
]
