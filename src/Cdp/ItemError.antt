-- ===== src/Cdp/ItemError.antt =====
-- The errors of the item decoders, and what a decoder promises for a payload of `n` bytes.
use cdp_go.Base.{refl, ℕ, ◌%◌, ◌-◌, ◌<◌, ◌≡◌, ◌≤◌}
use cdp_go.Cdp.Result.{Result, err, fault, ok}

-- `errShort`, and the "trailing %d bytes" of the items that end in a list.
pub data ItemError : Type 0 where
  short : ItemError
  trailing : ℕ → ItemError

abbrev pub Decoded {ℓ} : Type ℓ → Type ℓ
Decoded A = Result ItemError A

-- An item has `fixed` bytes and then entries of `stride` bytes each.
abbrev pub Framed {ℓ} : {A : Type ℓ} → ℕ → ℕ → ℕ → Decoded A → Type 0
Framed fixed stride n (ok _) = (fixed ≤ n) × ((n - fixed) % stride ≡ 0)
Framed fixed stride n (err short) = n < fixed
Framed fixed stride n (err (trailing k)) = (fixed ≤ n) × (k ≡ (n - fixed) % stride) × (0 < k)
Framed fixed stride n fault = ⊥

-- The call succeeds.
abbrev pub IsOk {ℓ} : {A : Type ℓ} → Decoded A → Type 0
IsOk (ok _) = Unit
IsOk (err _) = ⊥
IsOk fault = ⊥

pub IsOk→eq {ℓ} : {A : Type ℓ} (r : Decoded A) → IsOk r → (a : A) × (r ≡ ok a)
IsOk→eq (ok a) h = (a, refl)
IsOk→eq (err e) h = absurd h
IsOk→eq fault h = absurd h
