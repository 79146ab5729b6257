-- ===== src/Cdp/Items/Anchor/Framing.antt =====
-- The payload lengths that each decoder of the parent module accepts.
use cdp_go.Base.{Bytes, arith, drop, length, length-drop, ◌≤◌}
use cdp_go.Cdp.ItemError.{Framed, IsOk}
use cdp_go.Cdp.Items.Anchor.{
  decode_anchor_health_v5, decode_anchor_position_status_v3, decode_anchor_position_status_v4,
  decode_full_device_id, decode_global_ping_timing_report_v1, decode_position_anchor_status,
  decode_position_anchor_status_v4_entry,
}
use cdp_go.Cdp.Items.Tail.{entries}
use cdp_go.Cdp.Items.Tail.Framing.{entries-Framed, read_all-u32-Framed}
use cdp_go.Cdp.Readers.{i16, slice, slice_from, u16, u32, u64, u8}

full_device_id_total : (rest : Bytes) → 5 ≤ length rest → IsOk (decode_full_device_id rest)
unfolding decode_full_device_id slice u8 u32
full_device_id_total rest h = ground arith

full_device_id-Framed :
    (rest : Bytes) → Framed 0 5 (length rest) (entries 5 decode_full_device_id rest)
full_device_id-Framed = entries-Framed 5 decode_full_device_id (omega arith) full_device_id_total

position_anchor_status_v4_entry_total :
    (rest : Bytes) → 8 ≤ length rest → IsOk (decode_position_anchor_status_v4_entry rest)
unfolding decode_position_anchor_status_v4_entry slice u8 u16 u32
position_anchor_status_v4_entry_total rest h = ground arith

position_anchor_status_v4_entry-Framed :
    (rest : Bytes)
    → Framed 0 8 (length rest) (entries 8 decode_position_anchor_status_v4_entry rest)
position_anchor_status_v4_entry-Framed =
    entries-Framed 8 decode_position_anchor_status_v4_entry (omega arith)
      position_anchor_status_v4_entry_total

position_anchor_status_total :
    (rest : Bytes) → 12 ≤ length rest → IsOk (decode_position_anchor_status rest)
unfolding decode_position_anchor_status slice u8 u16 u32 i16
position_anchor_status_total rest h = ground arith

position_anchor_status-Framed :
    (rest : Bytes) → Framed 0 12 (length rest) (entries 12 decode_position_anchor_status rest)
position_anchor_status-Framed =
    entries-Framed 12 decode_position_anchor_status (omega arith) position_anchor_status_total

pub decode_anchor_position_status_v3-Framed :
    (b : Bytes) → Framed 12 12 (length b) (decode_anchor_position_status_v3 b)
unfolding decode_anchor_position_status_v3 slice slice_from u32 u64
decode_anchor_position_status_v3-Framed b =
    ground (arith, position_anchor_status-Framed (drop 12 b), length-drop 12 b)

pub decode_anchor_position_status_v4-Framed :
    (b : Bytes) → Framed 12 8 (length b) (decode_anchor_position_status_v4 b)
unfolding decode_anchor_position_status_v4 slice slice_from u32 u64
decode_anchor_position_status_v4-Framed b =
    ground (arith, position_anchor_status_v4_entry-Framed (drop 12 b), length-drop 12 b)

pub decode_anchor_health_v5-Framed :
    (b : Bytes) → Framed 29 5 (length b) (decode_anchor_health_v5 b)
unfolding decode_anchor_health_v5 slice slice_from u8 u16 u32
decode_anchor_health_v5-Framed b =
    ground (arith, full_device_id-Framed (drop 29 b), length-drop 29 b)

pub decode_global_ping_timing_report_v1-Framed :
    (b : Bytes) → Framed 8 4 (length b) (decode_global_ping_timing_report_v1 b)
unfolding decode_global_ping_timing_report_v1 slice slice_from u32
decode_global_ping_timing_report_v1-Framed b =
    ground (arith, read_all-u32-Framed (drop 8 b), length-drop 8 b)
