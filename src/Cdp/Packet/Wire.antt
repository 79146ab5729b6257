-- ===== src/Cdp/Packet/Wire.antt =====
-- `Decode` on well-formed packets.
use mathlib.Core.List.{append-nil, append_assoc}
use cdp_go.Base.{
  All, Bytes, List, [], ap, arith, if◌then◌else◌, length, length-append, le→ltb, lt→leb, not, refl,
  suc, sym, zero, ℕ, ◌++◌, ◌+◌, ◌-◌, ◌<◌, ◌==◌, ◌^◌, ◌∙◌, ◌∷◌, ◌≡◌,
}
use cdp_go.Cdp.Packet.{
  Item, Packet, PacketError, decode, decode_item, decode_items, items_loop, marker_value,
  trailing_bytes,
}
use cdp_go.Cdp.Packet.Frames.{
  Frame, IsFrame, IsMagic, decode_frames, frame_wire, frames_wire, header_wire, items_loop_frame,
  length-frame_wire,
}
use cdp_go.Cdp.Packet.Header.{
  length-packet, magic_known, magic_slice, marker_slice, sender_slice, sequence_slice,
}
use cdp_go.Cdp.Readers.Wire.{le_value-le}
use cdp_go.Cdp.Result.{Result, err, fault, ok, ◌>>=◌}
use cdp_go.Cdp.Serial.{Serial}

-- The loop's way to collect the items meets that of `decode_frames`.
collect_items :
    (r : Result PacketError Item) (round : Item → Result PacketError (List Item × ℕ))
    (later : Result PacketError (List Item)) (items : List Item) (n : ℕ)
    → ((item : Item) → round item ≡ (later >>= λ new. ok ((items ++ (item ∷ [])) ++ new, n)))
    → (r >>= round)
      ≡ ((r >>= λ item. later >>= λ rest. ok (item ∷ rest)) >>= λ new. ok (items ++ new, n))
collect_items (ok item) round (ok rest) items n h =
    h item ∙ rw (append_assoc items (item ∷ []) rest)
collect_items (ok item) round (err e) items n h = h item
collect_items (ok item) round fault items n h = h item
collect_items (err e) round later items n h = refl
collect_items fault round later items n h = refl

-- The loop takes the frames one after the other and stops before `tail`, which is too short to
-- hold the header of an item.
pub items_loop_frames :
    (fs : List Frame) (front tail buf : Bytes) (fuel idx : ℕ) (items : List Item)
    → All IsFrame fs
    → length tail < 4
    → buf ≡ front ++ (frames_wire fs ++ tail)
    → idx ≡ length front
    → length (frames_wire fs) < fuel
    → items_loop fuel buf idx items
      ≡ (decode_frames fs >>= λ new. ok (items ++ new, idx + length (frames_wire fs)))
unfolding items_loop decode_frames frames_wire
items_loop_frames fs front tail buf zero idx items h t eb ei ef = absurd (omega arith)
items_loop_frames [] front tail buf (suc fuel) idx items h t eb ei ef =
    ground (arith, length-append front tail, append-nil items, lt→leb 4 (length buf - idx))
items_loop_frames (f ∷ fs) front tail buf (suc fuel) idx items h t eb ei ef =
    let rest = frames_wire fs ++ tail in
    let eb' : buf ≡ front ++ (frame_wire f ++ rest) =
      eb ∙ rw (append_assoc (frame_wire f) (frames_wire fs) tail) in
    let n = idx + length (frame_wire f) + length (frames_wire fs) in
    let end : idx + length (frames_wire (f ∷ fs)) ≡ n =
      omega (arith, length-append (frame_wire f) (frames_wire fs)) in
    let buf' = front ++ (frame_wire f ++ rest) in
    let later = λ (item : Item).
      items_loop_frames fs (front ++ frame_wire f) tail buf' fuel (idx + length (frame_wire f))
        (items ++ (item ∷ [])) h.1 t (sym (append_assoc front (frame_wire f) rest))
        (omega (arith, length-append front (frame_wire f)))
        (omega (arith, length-append (frame_wire f) (frames_wire fs), length-frame_wire f)) in
    rw (eb', end)
      (items_loop_frame f front rest fuel idx items h.0 ei
        ∙ collect_items (decode_item f.type_id f.payload)
            (λ item. items_loop fuel buf' (idx + length (frame_wire f)) (items ++ (item ∷ [])))
            (decode_frames fs) items n later)

-- What `Decode` returns for the items of a packet with `left` bytes behind them.
abbrev pub finish : ℕ → Serial → ℕ → List Item → Result PacketError Packet
finish sequence sender left items =
    if left == 0
    then ok (record { sequence = sequence; sender = sender; items = items })
    else err (trailing_bytes left)

finish_loop :
    (r : Result PacketError (List Item)) (sequence sender length_buf idx left : ℕ)
    → length_buf - idx ≡ left
    → ((r >>= λ new. ok ([] ++ new, idx)) >>= λ (items, i).
        if not (length_buf - i == 0)
        then err (trailing_bytes (length_buf - i))
        else ok (record { sequence = sequence; sender = sender; items = items }))
      ≡ (r >>= finish sequence sender left)
finish_loop (ok items) sequence sender n idx left e = ground arith
finish_loop (err x) sequence sender n idx left e = refl
finish_loop fault sequence sender n idx left e = refl

-- `Decode` of a header, frames and fewer than four bytes more, where the sequence number, the
-- sender, the types and the payload lengths fit their fields and the header's string is a known
-- one: the items are those of the frames in order; the first frame that does not decode is the
-- error, and if there is none, the bytes left over are.
pub decode-wire :
    (sequence : ℕ) (magic : Bytes) (sender : Serial) (fs : List Frame) (tail : Bytes)
    → sequence < 2 ^ 32
    → IsMagic magic
    → sender < 2 ^ 32
    → All IsFrame fs
    → length tail < 4
    → decode (header_wire sequence magic sender ++ (frames_wire fs ++ tail))
      ≡ (decode_frames fs >>= finish sequence sender (length tail))
unfolding decode decode_items
decode-wire sequence magic sender fs tail hq m hs h t =
    let rest = frames_wire fs ++ tail in
    let buf = header_wire sequence magic sender ++ rest in
    let idx = 20 + length (frames_wire fs) in
    let size : length buf ≡ idx + length tail =
      omega
        (arith, length-packet sequence magic sender rest m, length-append (frames_wire fs) tail) in
    let loop =
      items_loop_frames fs (header_wire sequence magic sender) tail buf (suc (length buf)) 20 [] h t
        refl
        (omega (
          arith,
          length-packet sequence magic sender [] m,
          ap length (append-nil (header_wire sequence magic sender)),
        ))
        (omega (arith, size)) in
    rw
      (
        le→ltb (length buf) 20 (omega (arith, size)),
        marker_slice sequence magic sender rest m,
        le_value-le 4 marker_value (omega arith),
        magic_slice sequence magic sender rest m,
        magic_known sequence magic sender rest m,
        sequence_slice sequence magic sender rest m,
        sender_slice sequence magic sender rest m,
        le_value-le 4 sequence hq,
        le_value-le 4 sender hs,
        loop,
      )
      (finish_loop (decode_frames fs) sequence sender (length buf) idx (length tail)
        (omega (arith, size)))
