-- ===== src/Cdp/Packet/Termination.antt =====
-- Whether `Decode` of pkg/cdp/cdp.go can fault: the registered decoders, a round of its loop, and
-- the loop.
use cdp_go.Base.{
  Bool-cases, Bytes, List, Option, [], arith, inl, inr, leb, leb→le, length, ltb, ltb→le, none,
  refl, some, suc, tests, zero, ℕ, ◌++◌, ◌+◌, ◌-◌, ◌<◌, ◌∷◌, ◌≡◌, ◌≤◌,
}
use cdp_go.Base.Assoc.{lookup}
use cdp_go.Cdp.ItemError.{Decoded, Framed}
use cdp_go.Cdp.Packet.{Item, decode, decode_entry, decode_item, items_loop, known_item, or_bad_item}
use cdp_go.Cdp.Packet.Rounds.{
  check_rest, decode_checks, items_loop_end, items_loop_round, payload_at, size_at, type_at,
}
use cdp_go.Cdp.Registry.{RegistryEntry, registry}
use cdp_go.Cdp.Registry.Layout.{Meets, PayloadLayout, layouts, registry-Meets}
use cdp_go.Cdp.Result.{Result, err, fault, ok, ◌>>=◌}

abbrev pub NoFault {ℓ} : {E : Type 0} {A : Type ℓ} → Result E A → Type 0
NoFault (ok _) = Unit
NoFault (err _) = Unit
NoFault fault = ⊥

pub bind-NoFault {ℓ κ} :
    {E : Type 0} {A : Type ℓ} {B : Type κ} (r : Result E A) (f : A → Result E B)
    → NoFault r
    → ((a : A) → r ≡ ok a → NoFault (f a))
    → NoFault (r >>= f)
bind-NoFault (ok a) f h k = k a refl
bind-NoFault (err e) f h k = tt
bind-NoFault fault f h k = absurd h

Framed-NoFault {ℓ} :
    {A : Type ℓ} (fixed stride n : ℕ) (type_id : ℕ) (r : Decoded A)
    → Framed fixed stride n r
    → NoFault (or_bad_item type_id r)
unfolding or_bad_item
Framed-NoFault fixed stride n type_id (ok a) h = tt
Framed-NoFault fixed stride n type_id (err e) h = tt
Framed-NoFault fixed stride n type_id fault h = h

Meets-NoFault :
    (l : Option PayloadLayout) (e : RegistryEntry) (type_id : ℕ) (payload : Bytes)
    → Meets l e
    → NoFault (or_bad_item type_id (e.decode payload))
Meets-NoFault none e type_id payload h = absurd h
Meets-NoFault (some l) e type_id payload h =
    Framed-NoFault l.fixed l.stride (length payload) type_id (e.decode payload) (h payload)

decode_entry-NoFault :
    (l : Option PayloadLayout) (e : Option RegistryEntry) (type_id : ℕ) (payload : Bytes)
    → ((entry : RegistryEntry) → e ≡ some entry → Meets l entry)
    → NoFault (decode_entry e type_id payload)
unfolding decode_entry
decode_entry-NoFault l none type_id payload h = tt
decode_entry-NoFault l (some e) type_id payload h =
    bind-NoFault (or_bad_item type_id (e.decode payload)) (λ d. ok (known_item type_id e d))
      (Meets-NoFault l e type_id payload (h e refl)) (λ _ _. tt)

pub decode_item-NoFault : (type_id : ℕ) (payload : Bytes) → NoFault (decode_item type_id payload)
unfolding decode_item
decode_item-NoFault type_id payload =
    decode_entry-NoFault (lookup type_id layouts) (lookup type_id registry) type_id payload
      (λ e. registry-Meets type_id)

items_loop-NoFault :
    (fuel : ℕ) (buf : Bytes) (idx : ℕ) (items : List Item)
    → idx ≤ length buf
    → length buf < fuel + idx
    → NoFault (items_loop fuel buf idx items)
items_loop-NoFault zero buf idx items h k = absurd (omega arith)
items_loop-NoFault (suc fuel) buf idx items h k = elim (Bool-cases (leb 4 (length buf - idx))) [
  | inr done ↦ rw (items_loop_end fuel buf idx items done) tt
  | inl more ↦
      rw (items_loop_round fuel buf idx items more)
        (elim (Bool-cases (ltb (length buf - (idx + 4)) (size_at buf idx))) [
          | inl cut ↦ rw cut tt
          | inr fits ↦ rw fits (
              bind-NoFault (decode_item (type_at buf idx) (payload_at buf idx))
                (λ item. items_loop fuel buf (idx + 4 + size_at buf idx) (items ++ (item ∷ [])))
                (decode_item-NoFault _ _)
                (λ item _.
                  items_loop-NoFault fuel buf (idx + 4 + size_at buf idx) (items ++ (item ∷ []))
                    (omega (tests, leb→le 4 (length buf - idx) more, ltb→le _ _ fits))
                    (omega arith)))
        ])
]

check_rest-NoFault : (buf : Bytes) (r : List Item × ℕ) → NoFault (check_rest buf r)
check_rest-NoFault buf (items, idx) = ground arith

-- `Decode` returns a packet or an error on every buffer: it never reads out of bounds or runs out
-- of fuel.
pub decode-NoFault : (buf : Bytes) → NoFault (decode buf)
decode-NoFault buf = elim (Bool-cases (ltb (length buf) 20)) [
  | inl small ↦ unfold decode in rw small tt
  | inr full ↦
      let loop =
        bind-NoFault (items_loop (suc (length buf)) buf 20 []) (check_rest buf)
          (items_loop-NoFault (suc (length buf)) buf 20 [] (ltb→le _ _ full) (omega arith))
          (λ r _. check_rest-NoFault buf r) in
      rw (decode_checks buf (ltb→le _ _ full)) (ground (arith, loop))
]
