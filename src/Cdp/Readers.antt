-- ===== src/Cdp/Readers.antt =====
-- The readers of pkg/cdp/cdp.go: `u8` to `u64`, `i8` to `i32` and `f32`, on a slice `b` at an offset.
pub mod Wire
pub mod Fields
use cdp_go.Base.{
  Bytes, [], drop, if◌then◌else◌, leb, length, take, ℕ, ◌&&◌, ◌*◌, ◌+◌, ◌-◌, ◌<◌, ◌^◌, ◌∷◌,
}
use cdp_go.Base.Int.{signed, ℤ}
use cdp_go.Cdp.Result.{Result, fault, ok, ◌>>=◌}

abbrev pub IsByte : ℕ → Type 0
IsByte b = b < 256

-- `b[lo:hi]`. Go allows `hi` up to the capacity; a result past the length would hold bytes of
-- whatever follows in the datagram, so here that is a fault too.
unfoldable pub slice : {E : Type 0} → Bytes → ℕ → ℕ → Result E Bytes
slice b lo hi = if leb lo hi && leb hi (length b) then ok (take (hi - lo) (drop lo b)) else fault

-- `b[lo:]`.
unfoldable pub slice_from : {E : Type 0} → Bytes → ℕ → Result E Bytes
slice_from b lo = if leb lo (length b) then ok (drop lo b) else fault

-- The bytes as one little-endian number: `binary.LittleEndian.Uint16`, `Uint32` and `Uint64`.
unfoldable pub le_value : Bytes → ℕ
le_value [] = 0
le_value (b ∷ bs) = b + 256 * le_value bs

-- What `math.Float32frombits` returns, known by its bits.
pub data Float32 : Type 0 where
  from_bits : ℕ → Float32

module _ {E : Type 0} (b : Bytes) (off : ℕ) where
  unfoldable pub u8 : Result E ℕ
  unfolding slice le_value
  u8 = do s ← slice b off (off + 1); ok (le_value s)

  unfoldable pub u16 : Result E ℕ
  unfolding slice le_value
  u16 = do s ← slice b off (off + 2); ok (le_value s)

  unfoldable pub u32 : Result E ℕ
  unfolding slice le_value
  u32 = do s ← slice b off (off + 4); ok (le_value s)

  unfoldable pub u64 : Result E ℕ
  unfolding slice le_value
  u64 = do s ← slice b off (off + 8); ok (le_value s)

  unfoldable pub i8 : Result E ℤ
  unfolding u8
  i8 = do n ← u8; ok (signed (2 ^ 8) n)

  unfoldable pub i16 : Result E ℤ
  unfolding u16
  i16 = do n ← u16; ok (signed (2 ^ 16) n)

  unfoldable pub i32 : Result E ℤ
  unfolding u32
  i32 = do n ← u32; ok (signed (2 ^ 32) n)

  unfoldable pub f32 : Result E Float32
  unfolding u32
  f32 = do n ← u32; ok (from_bits n)
