-- ===== src/Cdp/Packet/Sound.antt =====
-- What `Decode` has read when it returns, on any buffer.
use mathlib.Core.List.{append-nil, append_assoc}
use cdp_go.Base.{
  All, Bool-cases, Bytes, List, Option, [], ap, arith, drop, inl, inr, leb, leb→le, leb→lt, length,
  ltb, ltb→le, ltb→lt, none, refl, some, suc, sym, take, zero, ℕ, ◌++◌, ◌+◌, ◌-◌, ◌<◌, ◌^◌, ◌∙◌,
  ◌∷◌, ◌≡◌, ◌≤◌,
}
use cdp_go.Base.Assoc.{lookup}
use cdp_go.Cdp.ItemError.{Decoded, ItemError}
use cdp_go.Cdp.Packet.{
  Item, PacketError, bad_item, decode_entry, decode_item, items_loop, known_item, or_bad_item,
  truncated_item,
}
use cdp_go.Cdp.Packet.Frames.{Frame, IsFrame, decode_frames, frame_wire, frames_wire}
use cdp_go.Cdp.Packet.Rounds.{items_loop_end, items_loop_round, payload_at, size_at, type_at}
use cdp_go.Cdp.Packet.Termination.{decode_item-NoFault}
use cdp_go.Cdp.Payload.{Payload}
use cdp_go.Cdp.Readers.{IsByte, le_value}
use cdp_go.Cdp.Readers.Wire.{drop-slice, le, le-le_value, le_value-lt, length-slice, slice-IsByte}
use cdp_go.Cdp.Registry.{RegistryEntry, registry}
use cdp_go.Cdp.Result.{Result, err, fault, ok, ◌>>=◌}

-- From `idx` to `end` the buffer holds whole frames, and `new` are their items.
pub record Reads (buf : Bytes) (idx end : ℕ) (new : List Item) : Type 0 where
  pub frames : List Frame
  pub are_frames : All IsFrame frames
  pub decoded : decode_frames frames ≡ ok new
  pub splits : drop idx buf ≡ frames_wire frames ++ drop end buf
  pub end_within : end ≤ length buf

Reads-here : (buf : Bytes) (idx : ℕ) → idx ≤ length buf → Reads buf idx idx []
unfolding decode_frames frames_wire
Reads-here buf idx h = record {
  frames = [];
  are_frames = tt;
  decoded = refl;
  splits = refl;
  end_within = h;
}

-- The frame that starts at `idx`.
abbrev pub frame_at : Bytes → ℕ → Frame
frame_at buf idx = record { type_id = type_at buf idx; payload = payload_at buf idx }

module _ (buf : Bytes) (idx : ℕ) (bytes : All IsByte buf)
    (fits : idx + 4 + size_at buf idx ≤ length buf) where
  length-payload_at : length (payload_at buf idx) ≡ size_at buf idx
  length-payload_at = length-slice buf (idx + 4) (size_at buf idx) fits

  number_at-lt : (lo : ℕ) → lo + 2 ≤ length buf → le_value (take 2 (drop lo buf)) < 2 ^ 16
  number_at-lt lo h =
      let bound = le_value-lt (take 2 (drop lo buf)) (slice-IsByte buf lo 2 bytes) in
      rw (length-slice buf lo 2 h) at bound

  frame_at-IsFrame : IsFrame (frame_at buf idx)
  frame_at-IsFrame =
      (number_at-lt idx (omega arith), rw length-payload_at (number_at-lt (idx + 2) (omega arith)))

  le-number_at :
      (lo : ℕ) → lo + 2 ≤ length buf → le 2 (le_value (take 2 (drop lo buf))) ≡ take 2 (drop lo buf)
  le-number_at lo h =
      le-le_value (take 2 (drop lo buf)) 2 (slice-IsByte buf lo 2 bytes)
        (sym (length-slice buf lo 2 h))

  drop_frame : drop idx buf ≡ frame_wire (frame_at buf idx) ++ drop (idx + 4 + size_at buf idx) buf
  unfolding frame_wire
  drop_frame =
      let four : idx + 2 + 2 ≡ idx + 4 = omega arith in
      rw (
        length-payload_at,
        le-number_at idx (omega arith),
        le-number_at (idx + 2) (omega arith),
        append_assoc (take 2 (drop idx buf)),
        append_assoc (take 2 (drop (idx + 2) buf)),
        ← drop-slice buf (idx + 4) (size_at buf idx) fits,
        ← four,
        ← drop-slice buf (idx + 2) 2 (omega arith),
        ← drop-slice buf idx 2 (omega arith),
      )

  Reads-cons :
      {item : Item} {new : List Item} {end : ℕ}
      → decode_item (type_at buf idx) (payload_at buf idx) ≡ ok item
      → Reads buf (idx + 4 + size_at buf idx) end new
      → Reads buf idx end (item ∷ new)
  unfolding decode_frames frames_wire
  Reads-cons {item} {new} {end} e r = record {
    frames = frame_at buf idx ∷ r.frames;
    are_frames = (frame_at-IsFrame, r.are_frames);
    decoded = rw (e, r.decoded);
    splits =
        drop_frame
        ∙ ap (◌++◌ (frame_wire (frame_at buf idx))) r.splits
        ∙ sym (append_assoc (frame_wire (frame_at buf idx)) (frames_wire r.frames) (drop end buf));
    end_within = r.end_within;
  }

-- The loop stops in front of fewer than four bytes, or at an item that it refuses: one whose size
-- passes the end of the buffer, or one that does not decode.
abbrev pub Stops : Bytes → ℕ → List Item → Result PacketError (List Item × ℕ) → Type 0
Stops buf idx items (ok (out, end)) =
    (new : List Item) × Reads buf idx end new × (out ≡ items ++ new) × (length buf - end < 4)
Stops buf idx items (err (truncated_item t s left)) =
    (end : ℕ) × (new : List Item) × Reads buf idx end new
    × (t ≡ type_at buf end)
    × (s ≡ size_at buf end)
    × (end + 4 + left ≡ length buf)
    × (left < s)
Stops buf idx items (err (bad_item t e)) =
    (end : ℕ) × (new : List Item) × Reads buf idx end new
    × (t ≡ type_at buf end)
    × (end + 4 + size_at buf end ≤ length buf)
    × (decode_item t (payload_at buf end) ≡ err (bad_item t e))
Stops buf idx items (err _) = ⊥
Stops buf idx items fault = ⊥

decode_entry-err :
    (o : Option RegistryEntry) (t : ℕ) (payload : Bytes) {e : PacketError}
    → decode_entry o t payload ≡ err e
    → (x : ItemError) × (e ≡ bad_item t x)
unfolding decode_entry or_bad_item
decode_entry-err none t payload {e} h = cc
decode_entry-err (some entry) t payload {e} h = go (entry.decode payload) h
  where
    go :
        (r : Decoded Payload)
        → (or_bad_item t r >>= λ d. ok (known_item t entry d)) ≡ err e
        → (x : ItemError) × (e ≡ bad_item t x)
    go (ok d) k = cc
    go (err x) k = (x, ground arith)
    go fault k = cc

module _ (buf : Bytes) (idx : ℕ) (items : List Item) (bytes : All IsByte buf)
    (fits : idx + 4 + size_at buf idx ≤ length buf) (item : Item)
    (e : decode_item (type_at buf idx) (payload_at buf idx) ≡ ok item) where
  Stops-cons :
      (q : Result PacketError (List Item × ℕ))
      → Stops buf (idx + 4 + size_at buf idx) (items ++ (item ∷ [])) q
      → Stops buf idx items q
  Stops-cons (ok (out, end)) (new, r, o, small) =
      (item ∷ new, Reads-cons buf idx bytes fits e r, o ∙ append_assoc items (item ∷ []) new, small)
  Stops-cons (err (truncated_item t s left)) (end, new, r, f, g, h, k) =
      (end, item ∷ new, Reads-cons buf idx bytes fits e r, f, g, h, k)
  Stops-cons (err (bad_item t x)) (end, new, r, f, g, h) =
      (end, item ∷ new, Reads-cons buf idx bytes fits e r, f, g, h)
  Stops-cons (err _) h = h
  Stops-cons fault h = h

-- After the size test: the item decodes and the loop goes on, or its error is the result.
Stops-item :
    (buf : Bytes) (idx : ℕ) (items : List Item) (bytes : All IsByte buf)
    (fits : idx + 4 + size_at buf idx ≤ length buf) (r : Result PacketError Item)
    (more : Item → Result PacketError (List Item × ℕ))
    → decode_item (type_at buf idx) (payload_at buf idx) ≡ r
    → ((item : Item) → Stops buf (idx + 4 + size_at buf idx) (items ++ (item ∷ [])) (more item))
    → Stops buf idx items (r >>= more)
unfolding decode_item
Stops-item buf idx items bytes fits (ok item) more e k =
    Stops-cons buf idx items bytes fits item e (more item) (k item)
Stops-item buf idx items bytes fits (err x) more e k =
    let t = type_at buf idx in
    let (y, ey) = decode_entry-err (lookup t registry) t (payload_at buf idx) e in
    rw ey (idx, [], Reads-here buf idx (omega arith), refl, fits, e ∙ ap err ey)
Stops-item buf idx items bytes fits fault more e k =
    let safe = decode_item-NoFault (type_at buf idx) (payload_at buf idx) in absurd (rw e at safe)

pub items_loop-Stops :
    (fuel : ℕ) (buf : Bytes) (idx : ℕ) (items : List Item)
    → All IsByte buf
    → idx ≤ length buf
    → length buf < fuel + idx
    → Stops buf idx items (items_loop fuel buf idx items)
items_loop-Stops zero buf idx items bytes h k = absurd (omega arith)
items_loop-Stops (suc fuel) buf idx items bytes h k = elim (Bool-cases (leb 4 (length buf - idx))) [
  | inr done ↦
      rw (items_loop_end fuel buf idx items done)
        ([], Reads-here buf idx h, sym (append-nil items), leb→lt _ _ done)
  | inl more ↦ rw (items_loop_round fuel buf idx items more) (
      let room = leb→le 4 (length buf - idx) more in
      elim (Bool-cases (ltb (length buf - (idx + 4)) (size_at buf idx))) [
        | inl cut ↦ rw cut (idx, [], Reads-here buf idx h, refl, refl, omega arith, ltb→lt _ _ cut)
        | inr fits ↦ rw fits (
            let within = ltb→le (length buf - (idx + 4)) (size_at buf idx) fits in
            Stops-item buf idx items bytes (omega arith)
              (decode_item (type_at buf idx) (payload_at buf idx)) _ refl
              (λ item.
                items_loop-Stops fuel buf (idx + 4 + size_at buf idx) (items ++ (item ∷ [])) bytes
                  (omega arith) (omega arith)))
      ])
]
