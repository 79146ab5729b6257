-- ===== src/Cdp/Result.antt =====
-- Results of the functions of pkg/cdp that return (value, error).
use cdp_go.Base.{inl, inr, refl, ◌≡◌, ◌⊎◌}

-- `fault` is no Go result: it stands for a read past the end of a slice, and for a loop whose
-- fuel has run out.
pub data Result {ℓ} (E : Type 0) (A : Type ℓ) : Type ℓ where
  ok : A → Result E A
  err : E → Result E A
  fault : Result E A

infixl 5 ◌>>=◌
abbrev pub ◌>>=◌ {ℓ κ} :
    {E : Type 0} {A : Type ℓ} {B : Type κ} → Result E A → (A → Result E B) → Result E B
ok a >>= f = f a
err e >>= f = err e
fault >>= f = fault

pub bind-eq-ok {ℓ κ} :
    {E : Type 0} {A : Type ℓ} {B : Type κ} (r : Result E A) (next : A → Result E B) {out : B}
    → (r >>= next) ≡ ok out
    → (value : A) × (r ≡ ok value) × (next value ≡ ok out)
bind-eq-ok (ok value) next e = (value, refl, e)
bind-eq-ok (err _) next e = cc
bind-eq-ok fault next e = cc

pub Result-cases {ℓ} :
    {E : Type 0} {A : Type ℓ} (r : Result E A)
    → ((a : A) × (r ≡ ok a)) ⊎ ((e : E) × (r ≡ err e)) ⊎ (r ≡ fault)
Result-cases (ok a) = inl (a, refl)
Result-cases (err e) = inr (inl (e, refl))
Result-cases fault = inr (inr refl)
