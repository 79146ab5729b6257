-- ===== src/Cdp/Items/Uwb/Framing.antt =====
-- The payload lengths that each decoder of the parent module accepts.
use cdp_go.Base.{Bytes, arith, length}
use cdp_go.Cdp.ItemError.{Framed}
use cdp_go.Cdp.Items.Uwb.{
  decode_ping_v5, decode_signal_strength, decode_tick_v4, decode_tick_v5, decode_timed_rx_v5,
  decode_timed_rx_v6,
}
use cdp_go.Cdp.Readers.{slice, slice_from, u16, u32, u64, u8}

pub decode_timed_rx_v5-Framed : (b : Bytes) → Framed 45 1 (length b) (decode_timed_rx_v5 b)
unfolding decode_timed_rx_v5 slice slice_from u8 u32 u64 decode_signal_strength u16
decode_timed_rx_v5-Framed b = ground arith

pub decode_timed_rx_v6-Framed : (b : Bytes) → Framed 37 1 (length b) (decode_timed_rx_v6 b)
unfolding decode_timed_rx_v6 slice slice_from u8 u32 u64 decode_signal_strength u16
decode_timed_rx_v6-Framed b = ground arith

pub decode_tick_v4-Framed : (b : Bytes) → Framed 18 1 (length b) (decode_tick_v4 b)
unfolding decode_tick_v4 slice slice_from u8 u64
decode_tick_v4-Framed b = ground arith

pub decode_tick_v5-Framed : (b : Bytes) → Framed 19 1 (length b) (decode_tick_v5 b)
unfolding decode_tick_v5 slice slice_from u8 u64
decode_tick_v5-Framed b = ground arith

pub decode_ping_v5-Framed : (b : Bytes) → Framed 37 1 (length b) (decode_ping_v5 b)
unfolding decode_ping_v5 slice slice_from u8 u16 u32 u64 decode_signal_strength
decode_ping_v5-Framed b = ground arith
