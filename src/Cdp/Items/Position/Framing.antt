-- ===== src/Cdp/Items/Position/Framing.antt =====
-- The payload lengths that each decoder of the parent module accepts.
use cdp_go.Base.{Bytes, arith, length}
use cdp_go.Cdp.ItemError.{Framed}
use cdp_go.Cdp.Items.Position.{
  decode_bounding_box_report, decode_bounding_cylinder_report, decode_distance_v2,
  decode_network_time, decode_nt_real_time_mapping_v1, decode_polar_coordinates_v1,
  decode_position_v3,
}
use cdp_go.Cdp.Readers.{f32, i32, slice, slice_from, u16, u32, u64, u8}

pub decode_position_v3-Framed : (b : Bytes) → Framed 30 1 (length b) (decode_position_v3 b)
unfolding decode_position_v3 slice slice_from u8 u16 u32 u64 i32
decode_position_v3-Framed b = ground arith

pub decode_polar_coordinates_v1-Framed :
    (b : Bytes) → Framed 30 1 (length b) (decode_polar_coordinates_v1 b)
unfolding decode_polar_coordinates_v1 slice slice_from u8 u16 u32 u64 f32
decode_polar_coordinates_v1-Framed b = ground arith

pub decode_distance_v2-Framed : (b : Bytes) → Framed 24 1 (length b) (decode_distance_v2 b)
unfolding decode_distance_v2 slice slice_from u8 u16 u32 u64
decode_distance_v2-Framed b = ground arith

pub decode_bounding_box_report-Framed :
    (b : Bytes) → Framed 24 1 (length b) (decode_bounding_box_report b)
unfolding decode_bounding_box_report slice slice_from u32
decode_bounding_box_report-Framed b = ground arith

pub decode_bounding_cylinder_report-Framed :
    (b : Bytes) → Framed 20 1 (length b) (decode_bounding_cylinder_report b)
unfolding decode_bounding_cylinder_report slice slice_from u32
decode_bounding_cylinder_report-Framed b = ground arith

pub decode_network_time-Framed : (b : Bytes) → Framed 13 1 (length b) (decode_network_time b)
unfolding decode_network_time slice slice_from u8 u32 u64
decode_network_time-Framed b = ground arith

pub decode_nt_real_time_mapping_v1-Framed :
    (b : Bytes) → Framed 32 1 (length b) (decode_nt_real_time_mapping_v1 b)
unfolding decode_nt_real_time_mapping_v1 slice slice_from u64
decode_nt_real_time_mapping_v1-Framed b = ground arith
