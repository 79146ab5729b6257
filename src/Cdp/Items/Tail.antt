-- ===== src/Cdp/Items/Tail.antt =====
-- What the decoders of pkg/cdp/items.go do with the variable part of a payload.
pub mod Framing
use cdp_go.Base.{
  Bytes, List, [], if◌then◌else◌, leb, length, not, suc, zero, ℕ, ◌%◌, ◌*◌, ◌++◌, ◌+◌, ◌/◌, ◌==◌,
  ◌∷◌,
}
use cdp_go.Cdp.ItemError.{Decoded, trailing}
use cdp_go.Cdp.Readers.{slice_from}
use cdp_go.Cdp.Result.{err, fault, ok, ◌>>=◌}

-- `nullStrip`.
unfoldable pub null_strip : Bytes → Bytes
null_strip [] = []
null_strip (c ∷ cs) = if c == 0 then [] else c ∷ null_strip cs

module _ {ℓ} {A : Type ℓ} (stride : ℕ) (decode_entry : Bytes → Decoded A) where
  -- `for len(rest) >= stride`, with the entries read so far in `out`. Without fuel it is a fault.
  unfoldable pub entries_loop : ℕ → Bytes → List A → Decoded (List A × Bytes)
  entries_loop zero rest out = fault
  entries_loop (suc fuel) rest out =
      let round = (do
        entry ← decode_entry rest
        rest' ← slice_from rest stride
        entries_loop fuel rest' (out ++ (entry ∷ []))) in
      if leb stride (length rest) then round else ok (out, rest)

  -- The loop, and the check that no bytes are left. A round takes a byte at least, so the fuel
  -- is enough.
  unfoldable pub entries : Bytes → Decoded (List A)
  unfolding entries_loop
  entries rest = do
    (out, left) ← entries_loop (suc (length rest)) rest []
    if length left == 0 then ok out else err (trailing (length left))

-- `for i := range counts { counts[i] = read(rest, i*width) }` with `n` rounds left.
unfoldable pub read_each : (Bytes → ℕ → Decoded ℕ) → ℕ → Bytes → ℕ → ℕ → Decoded (List ℕ)
read_each read width rest i zero = ok []
read_each read width rest i (suc n) = do
  count ← read rest (i * width)
  counts ← read_each read width rest (i + 1) n
  ok (count ∷ counts)

-- The numbers that fill `rest`, after the check that they do.
unfoldable pub read_all : (Bytes → ℕ → Decoded ℕ) → ℕ → Bytes → Decoded (List ℕ)
unfolding read_each
read_all read width rest =
    if not (length rest % width == 0)
    then err (trailing (length rest % width))
    else read_each read width rest 0 (length rest / width)
