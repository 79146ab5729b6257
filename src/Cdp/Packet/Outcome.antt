-- ===== src/Cdp/Packet/Outcome.antt =====
-- What each result of `Decode` says of the buffer.
use mathlib.Core.List.{append-nil, append_assoc}
use cdp_go.Base.{
  All, Bool-cases, Bytes, List, [], ap, arith, bytes_eq_iff, drop, drop_all, false, inl, inr,
  length, ltb, ltb→le, ltb→lt, refl, suc, sym, true, ℕ, ◌++◌, ◌+◌, ◌-◌, ◌<◌, ◌==◌, ◌∙◌, ◌≡◌, ◌≢◌,
  ◌≤◌,
}
use cdp_go.Cdp.Packet.{
  Item, Packet, PacketError, bad_header_string, bad_item, bad_marker, decode, decode_item,
  items_loop, marker_value, string_cdp0002, string_lcm_self, too_short, trailing_bytes,
  truncated_item,
}
use cdp_go.Cdp.Packet.Frames.{Frame, IsFrame, IsMagic, decode_frames, frames_wire, header_wire}
use cdp_go.Cdp.Packet.Rounds.{
  check_rest, decode_checks, field, is_unknown, payload_at, size_at, type_at,
}
use cdp_go.Cdp.Packet.Sound.{Reads, Stops, items_loop-Stops}
use cdp_go.Cdp.Readers.{IsByte, le_value}
use cdp_go.Cdp.Readers.Wire.{drop-slice, le, le-le_value, length-slice, slice-IsByte}
use cdp_go.Cdp.Result.{Result, err, fault, ok, ◌>>=◌}

abbrev pub Outcome : Bytes → Result PacketError Packet → Type 0
Outcome buf (ok p) =
    (magic : Bytes) × (fs : List Frame) × IsMagic magic
    × All IsFrame fs
    × (buf ≡ header_wire p.sequence magic p.sender ++ frames_wire fs)
    × (decode_frames fs ≡ ok p.items)
Outcome buf (err (too_short n)) = (n ≡ length buf) × (n < 20)
Outcome buf (err (bad_marker m)) =
    (20 ≤ length buf) × (m ≡ le_value (field buf 0 4)) × (m ≢ marker_value)
Outcome buf (err (bad_header_string str)) =
    (20 ≤ length buf) × (str ≡ field buf 8 8) × (¬ IsMagic str)
Outcome buf (err (truncated_item t s left)) =
    (end : ℕ) × (new : List Item) × Reads buf 20 end new
    × (t ≡ type_at buf end)
    × (s ≡ size_at buf end)
    × (end + 4 + left ≡ length buf)
    × (left < s)
Outcome buf (err (bad_item t e)) =
    (end : ℕ) × (new : List Item) × Reads buf 20 end new
    × (t ≡ type_at buf end)
    × (end + 4 + size_at buf end ≤ length buf)
    × (decode_item t (payload_at buf end) ≡ err (bad_item t e))
Outcome buf (err (trailing_bytes k)) =
    (end : ℕ) × (new : List Item) × Reads buf 20 end new
    × (end + k ≡ length buf)
    × (0 < k)
    × (k < 4)
Outcome buf fault = ⊥

module _ (buf : Bytes) (bytes : All IsByte buf) (full : 20 ≤ length buf)
    (marked : le_value (field buf 0 4) ≡ marker_value) (known : IsMagic (field buf 8 8)) where
  -- A field of the header is the number that was read from it.
  le-field : (lo : ℕ) → lo + 4 ≤ length buf → le 4 (le_value (field buf lo 4)) ≡ field buf lo 4
  le-field lo h =
      le-le_value (field buf lo 4) 4 (slice-IsByte buf lo 4 bytes) (sym (length-slice buf lo 4 h))

  header_splits :
      buf
      ≡ header_wire (le_value (field buf 4 4)) (field buf 8 8) (le_value (field buf 16 4))
        ++ drop 20 buf
  unfolding header_wire
  header_splits =
      let marker : le 4 marker_value ≡ field buf 0 4 =
        ap (le 4) (sym marked) ∙ le-field 0 (omega arith) in
      rw
        (
          marker,
          le-field 4 (omega arith),
          le-field 16 (omega arith),
          append_assoc (field buf 0 4),
          append_assoc (field buf 4 4),
          append_assoc (field buf 8 8),
          ← drop-slice buf 16 4 (omega arith),
          ← drop-slice buf 8 8 (omega arith),
          ← drop-slice buf 4 4 (omega arith),
          ← drop-slice buf 0 4 (omega arith),
        )
        (unfold drop in refl)

  frames_split :
      (fs : List Frame) (end : ℕ)
      → drop 20 buf ≡ frames_wire fs ++ drop end buf
      → length buf ≤ end
      → buf
        ≡ header_wire (le_value (field buf 4 4)) (field buf 8 8) (le_value (field buf 16 4))
          ++ frames_wire fs
  frames_split fs end splits done =
      header_splits
      ∙ ap
          (◌++◌
            (header_wire (le_value (field buf 4 4)) (field buf 8 8) (le_value (field buf 16 4))))
          (splits ∙ rw (drop_all end buf done) (append-nil (frames_wire fs)))

  check_rest-Outcome :
      (r : Result PacketError (List Item × ℕ))
      → Stops buf 20 [] r
      → Outcome buf (r >>= check_rest buf)
  check_rest-Outcome (ok (out, end)) (new, r, o, small) =
      elim (Bool-cases (length buf - end == 0)) [
        | inl empty ↦ rw empty (
          field buf 8 8,
          r.frames,
          known,
          r.are_frames,
          frames_split r.frames end r.splits (ground arith),
          rw o r.decoded,
        )
        | inr left ↦ rw left (end, new, r, omega (arith, r.end_within), ground arith, small)
      ]
  check_rest-Outcome (err (truncated_item t s left)) h = h
  check_rest-Outcome (err (bad_item t e)) h = h
  check_rest-Outcome (err _) h = absurd h
  check_rest-Outcome fault h = h

is_unknown→IsMagic : (str : Bytes) → is_unknown str ≡ false → IsMagic str
is_unknown→IsMagic str h =
    ground (arith, bytes_eq_iff str string_cdp0002, bytes_eq_iff str string_lcm_self)

is_unknown→not : (str : Bytes) → is_unknown str ≡ true → ¬ IsMagic str
is_unknown→not str h m =
    ground (arith, bytes_eq_iff str string_cdp0002, bytes_eq_iff str string_lcm_self)

-- `Decode` of any buffer of bytes ends with a packet or an error, never a fault. For a packet the
-- buffer is a header with a known string and whole frames that fill it, and the packet's sequence
-- number, sender and items are theirs. Each error says what is wrong: the buffer is shorter than a
-- header, the marker or the header's string is another one, the frames in front of the reported
-- item decode and that item passes the end of the buffer or is refused by its decoder, or the
-- frames decode and one to three bytes are left over.
pub decode-Outcome : (buf : Bytes) → All IsByte buf → Outcome buf (decode buf)
decode-Outcome buf bytes = elim (Bool-cases (ltb (length buf) 20)) [
  | inl small ↦ unfold decode in rw small (refl, ltb→lt _ _ small)
  | inr full ↦
      let enough = ltb→le (length buf) 20 full in
      rw (decode_checks buf enough) (elim (Bool-cases (le_value (field buf 0 4) == marker_value)) [
        | inr other ↦ rw other (enough, refl, ground arith)
        | inl marked ↦ rw marked (elim (Bool-cases (is_unknown (field buf 8 8))) [
          | inl foreign ↦ rw foreign (enough, refl, is_unknown→not (field buf 8 8) foreign)
          | inr known ↦ rw known (
              check_rest-Outcome buf bytes enough (ground arith)
                (is_unknown→IsMagic (field buf 8 8) known) (items_loop (suc (length buf)) buf 20 [])
                (items_loop-Stops (suc (length buf)) buf 20 [] bytes enough (omega arith)))
        ])
      ])
]
