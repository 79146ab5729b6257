-- ===== src/Cdp/Items/Motion/Framing.antt =====
-- The payload lengths that each decoder of the parent module accepts.
use cdp_go.Base.{Bytes, arith, length}
use cdp_go.Cdp.ItemError.{Framed}
use cdp_go.Cdp.Items.Motion.{
  decode_accelerometer_v2, decode_accelerometer_v3, decode_gyroscope_v2, decode_gyroscope_v3,
  decode_magnetometer_v2, decode_magnetometer_v3, decode_quaternion_v2, decode_quaternion_v3,
}
use cdp_go.Cdp.Readers.{i32, slice, slice_from, u16, u32, u64, u8}

pub decode_accelerometer_v2-Framed :
    (b : Bytes) → Framed 25 1 (length b) (decode_accelerometer_v2 b)
unfolding decode_accelerometer_v2 slice slice_from u8 u32 u64 i32
decode_accelerometer_v2-Framed b = ground arith

pub decode_gyroscope_v2-Framed : (b : Bytes) → Framed 26 1 (length b) (decode_gyroscope_v2 b)
unfolding decode_gyroscope_v2 slice slice_from u16 u32 u64 i32
decode_gyroscope_v2-Framed b = ground arith

pub decode_magnetometer_v2-Framed : (b : Bytes) → Framed 26 1 (length b) (decode_magnetometer_v2 b)
unfolding decode_magnetometer_v2 slice slice_from u16 u32 u64 i32
decode_magnetometer_v2-Framed b = ground arith

pub decode_quaternion_v2-Framed : (b : Bytes) → Framed 29 1 (length b) (decode_quaternion_v2 b)
unfolding decode_quaternion_v2 slice slice_from u8 u32 u64 i32
decode_quaternion_v2-Framed b = ground arith

pub decode_quaternion_v3-Framed : (b : Bytes) → Framed 31 1 (length b) (decode_quaternion_v3 b)
unfolding decode_quaternion_v3 slice slice_from u8 u16 u32 u64 i32
decode_quaternion_v3-Framed b = ground arith

pub decode_accelerometer_v3-Framed :
    (b : Bytes) → Framed 25 1 (length b) (decode_accelerometer_v3 b)
unfolding decode_accelerometer_v3 slice slice_from u8 u32 u64 i32
decode_accelerometer_v3-Framed b = ground arith

pub decode_gyroscope_v3-Framed : (b : Bytes) → Framed 26 1 (length b) (decode_gyroscope_v3 b)
unfolding decode_gyroscope_v3 slice slice_from u16 u32 u64 i32
decode_gyroscope_v3-Framed b = ground arith

pub decode_magnetometer_v3-Framed : (b : Bytes) → Framed 26 1 (length b) (decode_magnetometer_v3 b)
unfolding decode_magnetometer_v3 slice slice_from u16 u32 u64 i32
decode_magnetometer_v3-Framed b = ground arith
