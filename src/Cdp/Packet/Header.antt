-- ===== src/Cdp/Packet/Header.antt =====
-- The header of a packet, as `Decode` finds its fields.
use mathlib.Core.List.{append_assoc}
use cdp_go.Base.{
  Bytes, [], arith, bytes_eq, bytes_eq_iff, false, inl, inr, length, length-append, not, refl, ℕ,
  ◌&&◌, ◌++◌, ◌+◌, ◌≡◌,
}
use cdp_go.Cdp.Packet.{PacketError, marker_value, string_cdp0002, string_lcm_self}
use cdp_go.Cdp.Packet.Frames.{IsMagic, header_wire}
use cdp_go.Cdp.Readers.{slice}
use cdp_go.Cdp.Readers.Wire.{le, length-le, slice-append, slice-append_after}
use cdp_go.Cdp.Result.{ok}
use cdp_go.Cdp.Serial.{Serial}

module _ (sequence : ℕ) (magic : Bytes) (sender : Serial) (rest : Bytes) where
  header_pieces :
      header_wire sequence magic sender ++ rest
      ≡ le 4 marker_value ++ (le 4 sequence ++ (magic ++ (le 4 sender ++ rest)))
  unfolding header_wire
  header_pieces = simp append_assoc

  pub length-IsMagic : IsMagic magic → length magic ≡ 8
  length-IsMagic (inl e) = rw e
  length-IsMagic (inr e) = rw e

  pub magic_known :
      IsMagic magic
      → (not (bytes_eq magic string_cdp0002) && not (bytes_eq magic string_lcm_self)) ≡ false
  magic_known (inl e) = ground (arith, bytes_eq_iff magic string_cdp0002)
  magic_known (inr e) = ground (arith, bytes_eq_iff magic string_lcm_self)

  module _ (m : IsMagic magic) where
    abbrev pub packet : Bytes
    packet = header_wire sequence magic sender ++ rest

    pub length-packet : length packet ≡ 20 + length rest
    length-packet = rw header_pieces (
        omega (
          arith,
          length-append (le 4 marker_value) (le 4 sequence ++ (magic ++ (le 4 sender ++ rest))),
          length-append (le 4 sequence) (magic ++ (le 4 sender ++ rest)),
          length-append magic (le 4 sender ++ rest),
          length-append (le 4 sender) rest,
          length-le 4 marker_value,
          length-le 4 sequence,
          length-le 4 sender,
          length-IsMagic m,
        ))

    pub marker_slice : slice {E = PacketError} packet 0 4 ≡ ok (le 4 marker_value)
    marker_slice =
        rw header_pieces
          (slice-append [] (le 4 marker_value) _ 0 4 refl (omega (arith, length-le 4 marker_value)))

    pub sequence_slice : slice {E = PacketError} packet 4 8 ≡ ok (le 4 sequence)
    sequence_slice = rw header_pieces (
        slice-append (le 4 marker_value) (le 4 sequence) _ 4 8
          (omega (arith, length-le 4 marker_value)) (omega (arith, length-le 4 sequence)))

    pub magic_slice : slice {E = PacketError} packet 8 16 ≡ ok magic
    magic_slice = rw header_pieces (
        slice-append_after (le 4 marker_value) (le 4 sequence) magic _ 8 16
          (omega (arith, length-le 4 marker_value, length-le 4 sequence))
          (omega (arith, length-IsMagic m)))

    pub sender_slice : slice {E = PacketError} packet 16 20 ≡ ok (le 4 sender)
    sender_slice =
        rw (header_pieces, ← append_assoc (le 4 sequence) magic (le 4 sender ++ rest))
          (slice-append_after (le 4 marker_value) (le 4 sequence ++ magic) (le 4 sender) rest 16 20
            (omega (
              arith,
              length-le 4 marker_value,
              length-le 4 sequence,
              length-append (le 4 sequence) magic,
              length-IsMagic m,
            ))
            (omega (arith, length-le 4 sender)))
