-- ===== src/Cdp/Items/Device/Framing.antt =====
-- The payload lengths that each decoder of the parent module accepts.
use cdp_go.Base.{Bytes, arith, length}
use cdp_go.Cdp.ItemError.{Framed}
use cdp_go.Cdp.Items.Device.{
  decode_clear_device_color, decode_device_activity_state, decode_device_color,
  decode_device_hardware_status_v2, decode_device_status_v3, decode_pressure_v2,
  decode_temperature_v2,
}
use cdp_go.Cdp.Readers.{i16, i32, i8, slice, slice_from, u16, u32, u64, u8}

pub decode_pressure_v2-Framed : (b : Bytes) → Framed 20 1 (length b) (decode_pressure_v2 b)
unfolding decode_pressure_v2 slice slice_from u32 u64 i32
decode_pressure_v2-Framed b = ground arith

pub decode_temperature_v2-Framed : (b : Bytes) → Framed 16 1 (length b) (decode_temperature_v2 b)
unfolding decode_temperature_v2 slice slice_from u16 u32 u64 i16
decode_temperature_v2-Framed b = ground arith

pub decode_device_activity_state-Framed :
    (b : Bytes) → Framed 20 1 (length b) (decode_device_activity_state b)
unfolding decode_device_activity_state slice slice_from u8 u32 i32
decode_device_activity_state-Framed b = ground arith

pub decode_device_hardware_status_v2-Framed :
    (b : Bytes) → Framed 17 1 (length b) (decode_device_hardware_status_v2 b)
unfolding decode_device_hardware_status_v2 slice slice_from u8 u16 u32 i8
decode_device_hardware_status_v2-Framed b = ground arith

pub decode_device_status_v3-Framed :
    (b : Bytes) → Framed 23 1 (length b) (decode_device_status_v3 b)
unfolding decode_device_status_v3 slice slice_from u8 u16 u32 i8
decode_device_status_v3-Framed b = ground arith

pub decode_device_color-Framed : (b : Bytes) → Framed 8 1 (length b) (decode_device_color b)
unfolding decode_device_color slice slice_from u8 u32
decode_device_color-Framed b = ground arith

pub decode_clear_device_color-Framed :
    (b : Bytes) → Framed 5 1 (length b) (decode_clear_device_color b)
unfolding decode_clear_device_color slice slice_from u8 u32
decode_clear_device_color-Framed b = ground arith
