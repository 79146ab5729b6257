-- ===== src/Cdp/Items/Zones/Framing.antt =====
-- The payload lengths that each decoder of the parent module accepts.
use cdp_go.Base.{Bytes, arith, drop, length, length-drop, ◌≤◌}
use cdp_go.Cdp.ItemError.{Framed, IsOk}
use cdp_go.Cdp.Items.Tail.{entries}
use cdp_go.Cdp.Items.Tail.Framing.{entries-Framed, read_all-u16-Framed}
use cdp_go.Cdp.Items.Zones.{
  decode_clear_object, decode_draw_prism, decode_geofencer_zone_info, decode_tag_zone_info,
  decode_xy_coordinate,
}
use cdp_go.Cdp.Readers.{i32, slice, slice_from, u16, u32, u8}

xy_coordinate_total : (rest : Bytes) → 8 ≤ length rest → IsOk (decode_xy_coordinate rest)
unfolding decode_xy_coordinate slice i32
xy_coordinate_total rest h = ground arith

xy_coordinate-Framed :
    (rest : Bytes) → Framed 0 8 (length rest) (entries 8 decode_xy_coordinate rest)
xy_coordinate-Framed = entries-Framed 8 decode_xy_coordinate (omega arith) xy_coordinate_total

pub decode_geofencer_zone_info-Framed :
    (b : Bytes) → Framed 64 8 (length b) (decode_geofencer_zone_info b)
unfolding decode_geofencer_zone_info slice slice_from u16 u32 i32
decode_geofencer_zone_info-Framed b =
    ground (arith, xy_coordinate-Framed (drop 64 b), length-drop 64 b)

pub decode_tag_zone_info-Framed : (b : Bytes) → Framed 4 2 (length b) (decode_tag_zone_info b)
unfolding decode_tag_zone_info slice slice_from u32
decode_tag_zone_info-Framed b = ground (arith, read_all-u16-Framed (drop 4 b), length-drop 4 b)

pub decode_draw_prism-Framed : (b : Bytes) → Framed 62 8 (length b) (decode_draw_prism b)
unfolding decode_draw_prism slice slice_from u8 i32
decode_draw_prism-Framed b = ground (arith, xy_coordinate-Framed (drop 62 b), length-drop 62 b)

pub decode_clear_object-Framed : (b : Bytes) → Framed 50 1 (length b) (decode_clear_object b)
unfolding decode_clear_object slice slice_from
decode_clear_object-Framed b = ground arith
