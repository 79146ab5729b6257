-- ===== src/Cdp/Items/Tail/Framing.antt =====
-- The loops over the variable part of a payload, and the lengths that they accept.
use cdp_go.Base.{
  Bool-cases, Bytes, List, [], arith, drop, inl, inr, leb, leb→le, leb→lt, length, length-drop, suc,
  zero, ℕ, ◌%◌, ◌*◌, ◌++◌, ◌+◌, ◌/◌, ◌<◌, ◌∷◌, ◌≡◌, ◌≤◌,
}
use cdp_go.Cdp.ItemError.{Decoded, Framed, IsOk, IsOk→eq}
use cdp_go.Cdp.Items.Tail.{entries, entries_loop, read_all, read_each}
use cdp_go.Cdp.Packet.{decode_entry}
use cdp_go.Cdp.Readers.{slice, slice_from, u16, u32}
use cdp_go.Cdp.Result.{ok}
use native.Mathlib.Nat.{mod-eq-sub-mod, mod-eq_of_lt}

module _ {ℓ} {A : Type ℓ} (stride : ℕ) (decode_entry : Bytes → Decoded A) where
  -- With enough fuel the loop ends by its test: what is left is what no entry fits in.
  entries_loop_ends :
      0 < stride
      → ((b : Bytes) → stride ≤ length b → IsOk (decode_entry b))
      → (fuel : ℕ) (rest : Bytes) (out : List A) → length rest < fuel
      → (r : List A × Bytes) × (entries_loop stride decode_entry fuel rest out ≡ ok r)
        × (length r.1 ≡ length rest % stride)
  unfolding entries_loop slice_from
  entries_loop_ends hs total zero rest out h = absurd (omega arith)
  entries_loop_ends hs total (suc fuel) rest out h = elim (Bool-cases (leb stride (length rest))) [
    | inl more ↦
        let (a, e) = IsOk→eq (decode_entry rest) (total rest (leb→le stride (length rest) more)) in
        ground (
          arith,
          length-drop stride rest,
          mod-eq-sub-mod (leb→le stride (length rest) more),
          entries_loop_ends hs total fuel (drop stride rest) (out ++ (a ∷ [])),
        )
    | inr done ↦
        let small = leb→lt stride (length rest) done in
        ((out, rest), ground arith, omega (arith, mod-eq_of_lt small))
  ]

module _ {ℓ} {A : Type ℓ} where
  pub entries-Framed :
      (stride : ℕ) (decode_entry : Bytes → Decoded A)
      → 0 < stride
      → ((b : Bytes) → stride ≤ length b → IsOk (decode_entry b))
      → (rest : Bytes) → Framed 0 stride (length rest) (entries stride decode_entry rest)
  unfolding entries
  entries-Framed stride decode_entry hs total rest =
      ground (arith, entries_loop_ends stride decode_entry hs total (suc (length rest)) rest [])

module _ (read : Bytes → ℕ → Decoded ℕ) (width : ℕ) (rest : Bytes)
    (reads : (off : ℕ) → off + width ≤ length rest → IsOk (read rest off)) where
  read_each_total : (i n : ℕ) → (i + n) * width ≤ length rest → IsOk (read_each read width rest i n)
  unfolding read_each
  read_each_total i zero h = tt
  read_each_total i (suc n) h =
      let (c, e) = IsOk→eq (read rest (i * width)) (reads (i * width) (grind arith)) in
      let (cs, es) =
        IsOk→eq (read_each read width rest (i + 1) n) (read_each_total (i + 1) n (grind arith)) in
      rw (e, es) tt

u32_total : (b : Bytes) (off : ℕ) → off + 4 ≤ length b → IsOk (u32 b off)
unfolding u32 slice
u32_total b off h = ground arith

u16_total : (b : Bytes) (off : ℕ) → off + 2 ≤ length b → IsOk (u16 b off)
unfolding u16 slice
u16_total b off h = ground arith

pub read_all-u32-Framed : (rest : Bytes) → Framed 0 4 (length rest) (read_all u32 4 rest)
unfolding read_all
read_all-u32-Framed rest =
    ground (arith, read_each_total u32 4 rest (u32_total rest) 0 (length rest / 4) (omega arith))

pub read_all-u16-Framed : (rest : Bytes) → Framed 0 2 (length rest) (read_all u16 2 rest)
unfolding read_all
read_all-u16-Framed rest =
    ground (arith, read_each_total u16 2 rest (u16_total rest) 0 (length rest / 2) (omega arith))
