-- ===== src/Cdp/Items/Node/Framing.antt =====
-- The payload lengths that each decoder of the parent module accepts.
use cdp_go.Base.{Bytes, arith, length}
use cdp_go.Cdp.ItemError.{Framed}
use cdp_go.Cdp.Items.Node.{
  decode_bootload_progress, decode_link_md_status, decode_node_status_change_v2, decode_role_report,
  decode_synchronization,
}
use cdp_go.Cdp.Readers.{slice, slice_from, u16, u32, u8}

pub decode_node_status_change_v2-Framed :
    (b : Bytes) → Framed 6 1 (length b) (decode_node_status_change_v2 b)
unfolding decode_node_status_change_v2 slice slice_from u8 u32
decode_node_status_change_v2-Framed b = ground arith

pub decode_link_md_status-Framed : (b : Bytes) → Framed 6 1 (length b) (decode_link_md_status b)
unfolding decode_link_md_status slice slice_from u8 u32
decode_link_md_status-Framed b = ground arith

pub decode_synchronization-Framed : (b : Bytes) → Framed 8 1 (length b) (decode_synchronization b)
unfolding decode_synchronization slice slice_from u16
decode_synchronization-Framed b = ground arith

pub decode_role_report-Framed : (b : Bytes) → Framed 6 1 (length b) (decode_role_report b)
unfolding decode_role_report slice slice_from u16
decode_role_report-Framed b = ground arith

pub decode_bootload_progress-Framed :
    (b : Bytes) → Framed 36 1 (length b) (decode_bootload_progress b)
unfolding decode_bootload_progress slice slice_from u8 u16 u32
decode_bootload_progress-Framed b = ground arith
