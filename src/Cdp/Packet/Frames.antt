-- ===== src/Cdp/Packet/Frames.antt =====
-- The wire format that `Decode` reads, written from the package comment of pkg/cdp/cdp.go:
-- a header and then items of a type, a size and a payload.
use cdp_go.Base.{
  Bytes, List, [], arith, length, length-append, le→leb, le→ltb, refl, suc, ℕ, ◌++◌, ◌+◌, ◌-◌, ◌<◌,
  ◌^◌, ◌∷◌, ◌≡◌, ◌⊎◌,
}
use cdp_go.Cdp.Packet.{
  Item, PacketError, decode_item, items_loop, marker_value, string_cdp0002, string_lcm_self,
}
use cdp_go.Cdp.Readers.{slice}
use cdp_go.Cdp.Readers.Wire.{le, le_value-le, length-le, slice-append, slice-append_after}
use cdp_go.Cdp.Result.{Result, ok, ◌>>=◌}
use cdp_go.Cdp.Serial.{Serial}
use native.Mathlib.Nat.{add_assoc}

pub record Frame : Type 0 where
  pub type_id : ℕ
  pub payload : Bytes

abbrev pub IsFrame : Frame → Type 0
IsFrame f = (f.type_id < 2 ^ 16) × (length f.payload < 2 ^ 16)

unfoldable pub frame_wire : Frame → Bytes
frame_wire f = le 2 f.type_id ++ (le 2 (length f.payload) ++ f.payload)

unfoldable pub frames_wire : List Frame → Bytes
frames_wire [] = []
frames_wire (f ∷ fs) = frame_wire f ++ frames_wire fs

-- The items of the frames, in their order; the first one that does not decode is the error.
unfoldable pub decode_frames : List Frame → Result PacketError (List Item)
decode_frames [] = ok []
decode_frames (f ∷ fs) = do
  item ← decode_item f.type_id f.payload
  items ← decode_frames fs
  ok (item ∷ items)

-- `magic` is the string of the header.
unfoldable pub header_wire : ℕ → Bytes → Serial → Bytes
header_wire sequence magic sender = le 4 marker_value ++ (le 4 sequence ++ (magic ++ le 4 sender))

abbrev pub IsMagic : Bytes → Type 0
IsMagic magic = (magic ≡ string_cdp0002) ⊎ (magic ≡ string_lcm_self)

pub length-frame_wire : (f : Frame) → length (frame_wire f) ≡ 4 + length f.payload
unfolding frame_wire
length-frame_wire f = omega (
  arith,
  length-append (le 2 f.type_id) (le 2 (length f.payload) ++ f.payload),
  length-append (le 2 (length f.payload)) f.payload,
  length-le 2 f.type_id,
  length-le 2 (length f.payload),
)

-- One round of the loop takes one frame.
module _ (f : Frame) (front rest : Bytes) (fuel idx : ℕ) (items : List Item) (h : IsFrame f)
    (e : idx ≡ length front) where
  abbrev buffer : Bytes
  buffer = front ++ (frame_wire f ++ rest)

  type_id_slice : slice {E = PacketError} buffer idx (idx + 2) ≡ ok (le 2 f.type_id)
  unfolding frame_wire le
  type_id_slice =
      slice-append front (le 2 f.type_id) (le 2 (length f.payload) ++ (f.payload ++ rest)) idx
        (idx + 2) e (omega arith)

  size_slice : slice {E = PacketError} buffer (idx + 2) (idx + 4) ≡ ok (le 2 (length f.payload))
  unfolding frame_wire le
  size_slice =
      slice-append_after front (le 2 f.type_id) (le 2 (length f.payload)) (f.payload ++ rest)
        (idx + 2) (idx + 4) (omega arith) (omega arith)

  payload_slice :
      slice {E = PacketError} buffer (idx + 4) (idx + 4 + length f.payload) ≡ ok f.payload
  unfolding frame_wire le
  payload_slice =
      slice-append_after front (le 2 f.type_id ++ le 2 (length f.payload)) f.payload rest (idx + 4)
        (idx + 4 + length f.payload) (omega arith) refl

  length-buffer : length buffer ≡ idx + 4 + length f.payload + length rest
  length-buffer = omega (
    arith,
    length-append front (frame_wire f ++ rest),
    length-append (frame_wire f) rest,
    length-frame_wire f,
  )

  pub items_loop_frame : items_loop (suc fuel) buffer idx items ≡ (
      decode_item f.type_id f.payload >>= λ item.
      items_loop fuel buffer (idx + length (frame_wire f)) (items ++ (item ∷ [])))
  unfolding items_loop
  items_loop_frame = rw (
    le→leb 4 (length buffer - idx) (omega (arith, length-buffer)),
    type_id_slice,
    size_slice,
    le_value-le 2 f.type_id h.0,
    le_value-le 2 (length f.payload) h.1,
    le→ltb (length buffer - (idx + 4)) (length f.payload) (omega (arith, length-buffer)),
    payload_slice,
    length-frame_wire f,
    add_assoc idx 4 (length f.payload),
  )
