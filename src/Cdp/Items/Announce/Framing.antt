-- ===== src/Cdp/Items/Announce/Framing.antt =====
-- The payload lengths that each decoder of the parent module accepts.
use cdp_go.Base.{Bytes, arith, drop, length, length-drop, ◌≤◌}
use cdp_go.Cdp.ItemError.{Framed, IsOk}
use cdp_go.Cdp.Items.Announce.{
  decode_app_settings_chunk, decode_cdp_stream_information, decode_device_names,
  decode_hostname_announce, decode_image, decode_image_discovery_v1, decode_image_discovery_v2,
  decode_instance_announce, decode_user_defined_v2, decode_user_defined_v3,
}
use cdp_go.Cdp.Items.Tail.{entries}
use cdp_go.Cdp.Items.Tail.Framing.{entries-Framed}
use cdp_go.Cdp.Readers.{slice, slice_from, u16, u32, u64, u8}

image_total : (rest : Bytes) → 53 ≤ length rest → IsOk (decode_image rest)
unfolding decode_image slice u8
image_total rest h = ground arith

image-Framed : (rest : Bytes) → Framed 0 53 (length rest) (entries 53 decode_image rest)
image-Framed = entries-Framed 53 decode_image (omega arith) image_total

pub decode_cdp_stream_information-Framed :
    (b : Bytes) → Framed 17 1 (length b) (decode_cdp_stream_information b)
unfolding decode_cdp_stream_information slice slice_from u8 u16 u32
decode_cdp_stream_information-Framed b = ground arith

pub decode_hostname_announce-Framed :
    (b : Bytes) → Framed 0 1 (length b) (decode_hostname_announce b)
unfolding decode_hostname_announce slice slice_from
decode_hostname_announce-Framed b = ground arith

pub decode_instance_announce-Framed :
    (b : Bytes) → Framed 0 1 (length b) (decode_instance_announce b)
unfolding decode_instance_announce slice slice_from
decode_instance_announce-Framed b = ground arith

pub decode_app_settings_chunk-Framed :
    (b : Bytes) → Framed 260 1 (length b) (decode_app_settings_chunk b)
unfolding decode_app_settings_chunk slice slice_from u16
decode_app_settings_chunk-Framed b = ground arith

pub decode_device_names-Framed : (b : Bytes) → Framed 4 1 (length b) (decode_device_names b)
unfolding decode_device_names slice slice_from u32
decode_device_names-Framed b = ground arith

pub decode_user_defined_v2-Framed : (b : Bytes) → Framed 4 1 (length b) (decode_user_defined_v2 b)
unfolding decode_user_defined_v2 slice slice_from u32
decode_user_defined_v2-Framed b = ground arith

pub decode_user_defined_v3-Framed : (b : Bytes) → Framed 12 1 (length b) (decode_user_defined_v3 b)
unfolding decode_user_defined_v3 slice slice_from u32 u64
decode_user_defined_v3-Framed b = ground arith

pub decode_image_discovery_v1-Framed :
    (b : Bytes) → Framed 97 53 (length b) (decode_image_discovery_v1 b)
unfolding decode_image_discovery_v1 slice slice_from u8
decode_image_discovery_v1-Framed b = ground (arith, image-Framed (drop 97 b), length-drop 97 b)

pub decode_image_discovery_v2-Framed :
    (b : Bytes) → Framed 3 1 (length b) (decode_image_discovery_v2 b)
unfolding decode_image_discovery_v2 slice slice_from u8
decode_image_discovery_v2-Framed b = ground arith
