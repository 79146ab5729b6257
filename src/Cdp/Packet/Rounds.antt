-- ===== src/Cdp/Packet/Rounds.antt =====
-- The loop of `Decode` on any buffer, round by round.
use cdp_go.Base.{
  Bool, Bool-cases, Bytes, List, [], arith, bytes_eq, drop, false, if◌then◌else◌, inl, inr, leb,
  leb→le, length, le→ltb, ltb, ltb→le, not, refl, suc, take, true, ℕ, ◌&&◌, ◌++◌, ◌+◌, ◌-◌, ◌==◌,
  ◌∷◌, ◌≡◌, ◌≤◌,
}
use cdp_go.Cdp.Packet.{
  Item, Packet, PacketError, bad_header_string, bad_marker, decode, decode_item, decode_items,
  items_loop, marker_value, string_cdp0002, string_lcm_self, trailing_bytes, truncated_item,
}
use cdp_go.Cdp.Readers.{le_value}
use cdp_go.Cdp.Readers.Wire.{slice_total}
use cdp_go.Cdp.Result.{Result, err, ok, ◌>>=◌}

-- The fields of the item that starts at `idx`.
abbrev pub type_at : Bytes → ℕ → ℕ
type_at buf idx = le_value (take 2 (drop idx buf))

abbrev pub size_at : Bytes → ℕ → ℕ
size_at buf idx = le_value (take 2 (drop (idx + 2) buf))

abbrev pub payload_at : Bytes → ℕ → Bytes
payload_at buf idx = take (size_at buf idx) (drop (idx + 4) buf)

module _ (fuel : ℕ) (buf : Bytes) (idx : ℕ) (items : List Item) where
  pub items_loop_end :
      leb 4 (length buf - idx) ≡ false → items_loop (suc fuel) buf idx items ≡ ok (items, idx)
  unfolding items_loop
  items_loop_end done = rw done

  pub items_loop_round :
      leb 4 (length buf - idx) ≡ true
      → items_loop (suc fuel) buf idx items ≡ (
          if ltb (length buf - (idx + 4)) (size_at buf idx)
          then err (truncated_item (type_at buf idx) (size_at buf idx) (length buf - (idx + 4)))
          else decode_item (type_at buf idx) (payload_at buf idx) >>= λ item.
              items_loop fuel buf (idx + 4 + size_at buf idx) (items ++ (item ∷ [])))
  unfolding items_loop
  items_loop_round more =
      let room = leb→le 4 (length buf - idx) more in
      rw
        (
          more,
          slice_total {E = PacketError} buf idx (idx + 2) 2 refl (omega arith),
          slice_total {E = PacketError} buf (idx + 2) (idx + 4) 2 (omega arith) (omega arith),
        )
        (elim (Bool-cases (ltb (length buf - (idx + 4)) (size_at buf idx))) [
          | inl cut ↦ rw cut
          | inr fits ↦ rw (
            fits,
            slice_total {E = PacketError} buf (idx + 4) (idx + 4 + size_at buf idx)
                (size_at buf idx) refl (omega (arith, ltb→le _ _ fits)),
          )
        ])

-- The bytes of the header from `lo` on.
abbrev pub field : Bytes → ℕ → ℕ → Bytes
field buf lo n = take n (drop lo buf)

abbrev pub is_unknown : Bytes → Bool
is_unknown str = not (bytes_eq str string_cdp0002) && not (bytes_eq str string_lcm_self)

-- What `Decode` does with a buffer that holds a header.
abbrev pub check_rest : Bytes → List Item × ℕ → Result PacketError Packet
check_rest buf (items, idx) =
    if not (length buf - idx == 0)
    then err (trailing_bytes (length buf - idx))
    else ok (record {
      sequence = le_value (field buf 4 4);
      sender = le_value (field buf 16 4);
      items = items;
    })

pub decode_checks :
    (buf : Bytes)
    → 20 ≤ length buf
    → decode buf ≡ (
        if not (le_value (field buf 0 4) == marker_value)
        then err (bad_marker (le_value (field buf 0 4)))
        else if is_unknown (field buf 8 8)
        then err (bad_header_string (field buf 8 8))
        else items_loop (suc (length buf)) buf 20 [] >>= check_rest buf)
unfolding decode decode_items
decode_checks buf h = rw (
  le→ltb (length buf) 20 h,
  slice_total {E = PacketError} buf 0 4 4 refl (omega arith),
  slice_total {E = PacketError} buf 8 16 8 refl (omega arith),
  slice_total {E = PacketError} buf 4 8 4 refl (omega arith),
  slice_total {E = PacketError} buf 16 20 4 refl (omega arith),
)
