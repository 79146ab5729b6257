-- ===== src/Cdp/Items/Motion/Wire.antt =====
-- The wire formats of these items, which their decoders in pkg/cdp/items.go read.
use cdp_go.Base.{Bytes, drop, take, ◌++◌, ◌<◌, ◌^◌, ◌≡◌}
use cdp_go.Base.Int.{IsWithin}
use cdp_go.Cdp.Items.Motion.{
  AccelerometerV2, AccelerometerV3, GyroscopeV2, GyroscopeV3, MagnetometerV2, MagnetometerV3,
  QuaternionV2, QuaternionV3, decode_accelerometer_v2, decode_accelerometer_v3, decode_gyroscope_v2,
  decode_gyroscope_v3, decode_magnetometer_v2, decode_magnetometer_v3, decode_quaternion_v2,
  decode_quaternion_v3,
}
use cdp_go.Cdp.Readers.{i32, slice, u16, u32, u64, u8}
use cdp_go.Cdp.Readers.Fields.{signed-le_int}
use cdp_go.Cdp.Readers.Wire.{le, le_int, le_value-le}
use cdp_go.Cdp.Result.{ok}

pub record IsAccelerometerV2 (a : AccelerometerV2) : Type 0 where
  pub serial_number : a.serial_number < 2 ^ 32
  pub network_time : a.network_time < 2 ^ 64
  pub x : IsWithin (2 ^ 32) a.x
  pub y : IsWithin (2 ^ 32) a.y
  pub z : IsWithin (2 ^ 32) a.z
  pub scale : a.scale < 2 ^ 8

unfoldable pub accelerometer_v2_wire : AccelerometerV2 → Bytes
accelerometer_v2_wire a =
    le 4 a.serial_number
    ++ le 8 a.network_time
    ++ le_int 4 a.x
    ++ le_int 4 a.y
    ++ le_int 4 a.z
    ++ le 1 a.scale

pub decode_accelerometer_v2-wire :
    (a : AccelerometerV2)
    → IsAccelerometerV2 a
    → decode_accelerometer_v2 (accelerometer_v2_wire a) ≡ ok a
unfolding decode_accelerometer_v2 accelerometer_v2_wire u8 u32 u64 i32 slice le take drop
decode_accelerometer_v2-wire a h = λ i. ok (record {
  serial_number = le_value-le 4 a.serial_number h.serial_number i;
  network_time = le_value-le 8 a.network_time h.network_time i;
  x = signed-le_int 3 a.x h.x i;
  y = signed-le_int 3 a.y h.y i;
  z = signed-le_int 3 a.z h.z i;
  scale = le_value-le 1 a.scale h.scale i;
})

pub record IsGyroscopeV2 (a : GyroscopeV2) : Type 0 where
  pub serial_number : a.serial_number < 2 ^ 32
  pub network_time : a.network_time < 2 ^ 64
  pub x : IsWithin (2 ^ 32) a.x
  pub y : IsWithin (2 ^ 32) a.y
  pub z : IsWithin (2 ^ 32) a.z
  pub scale : a.scale < 2 ^ 16

unfoldable pub gyroscope_v2_wire : GyroscopeV2 → Bytes
gyroscope_v2_wire a =
    le 4 a.serial_number
    ++ le 8 a.network_time
    ++ le_int 4 a.x
    ++ le_int 4 a.y
    ++ le_int 4 a.z
    ++ le 2 a.scale

pub decode_gyroscope_v2-wire :
    (a : GyroscopeV2) → IsGyroscopeV2 a → decode_gyroscope_v2 (gyroscope_v2_wire a) ≡ ok a
unfolding decode_gyroscope_v2 gyroscope_v2_wire u16 u32 u64 i32 slice le take drop
decode_gyroscope_v2-wire a h = λ i. ok (record {
  serial_number = le_value-le 4 a.serial_number h.serial_number i;
  network_time = le_value-le 8 a.network_time h.network_time i;
  x = signed-le_int 3 a.x h.x i;
  y = signed-le_int 3 a.y h.y i;
  z = signed-le_int 3 a.z h.z i;
  scale = le_value-le 2 a.scale h.scale i;
})

pub record IsMagnetometerV2 (a : MagnetometerV2) : Type 0 where
  pub serial_number : a.serial_number < 2 ^ 32
  pub network_time : a.network_time < 2 ^ 64
  pub x : IsWithin (2 ^ 32) a.x
  pub y : IsWithin (2 ^ 32) a.y
  pub z : IsWithin (2 ^ 32) a.z
  pub scale : a.scale < 2 ^ 16

unfoldable pub magnetometer_v2_wire : MagnetometerV2 → Bytes
magnetometer_v2_wire a =
    le 4 a.serial_number
    ++ le 8 a.network_time
    ++ le_int 4 a.x
    ++ le_int 4 a.y
    ++ le_int 4 a.z
    ++ le 2 a.scale

pub decode_magnetometer_v2-wire :
    (a : MagnetometerV2)
    → IsMagnetometerV2 a
    → decode_magnetometer_v2 (magnetometer_v2_wire a) ≡ ok a
unfolding decode_magnetometer_v2 magnetometer_v2_wire u16 u32 u64 i32 slice le take drop
decode_magnetometer_v2-wire a h = λ i. ok (record {
  serial_number = le_value-le 4 a.serial_number h.serial_number i;
  network_time = le_value-le 8 a.network_time h.network_time i;
  x = signed-le_int 3 a.x h.x i;
  y = signed-le_int 3 a.y h.y i;
  z = signed-le_int 3 a.z h.z i;
  scale = le_value-le 2 a.scale h.scale i;
})

pub record IsQuaternionV2 (a : QuaternionV2) : Type 0 where
  pub serial_number : a.serial_number < 2 ^ 32
  pub network_time : a.network_time < 2 ^ 64
  pub x : IsWithin (2 ^ 32) a.x
  pub y : IsWithin (2 ^ 32) a.y
  pub z : IsWithin (2 ^ 32) a.z
  pub w : IsWithin (2 ^ 32) a.w
  pub quaternion_type : a.quaternion_type < 2 ^ 8

unfoldable pub quaternion_v2_wire : QuaternionV2 → Bytes
quaternion_v2_wire a =
    le 4 a.serial_number
    ++ le 8 a.network_time
    ++ le_int 4 a.x
    ++ le_int 4 a.y
    ++ le_int 4 a.z
    ++ le_int 4 a.w
    ++ le 1 a.quaternion_type

pub decode_quaternion_v2-wire :
    (a : QuaternionV2) → IsQuaternionV2 a → decode_quaternion_v2 (quaternion_v2_wire a) ≡ ok a
unfolding decode_quaternion_v2 quaternion_v2_wire u8 u32 u64 i32 slice le take drop
decode_quaternion_v2-wire a h = λ i. ok (record {
  serial_number = le_value-le 4 a.serial_number h.serial_number i;
  network_time = le_value-le 8 a.network_time h.network_time i;
  x = signed-le_int 3 a.x h.x i;
  y = signed-le_int 3 a.y h.y i;
  z = signed-le_int 3 a.z h.z i;
  w = signed-le_int 3 a.w h.w i;
  quaternion_type = le_value-le 1 a.quaternion_type h.quaternion_type i;
})

pub record IsQuaternionV3 (a : QuaternionV3) : Type 0 where
  pub serial_number : a.serial_number < 2 ^ 32
  pub network_time : a.network_time < 2 ^ 64
  pub x : IsWithin (2 ^ 32) a.x
  pub y : IsWithin (2 ^ 32) a.y
  pub z : IsWithin (2 ^ 32) a.z
  pub w : IsWithin (2 ^ 32) a.w
  pub quaternion_type : a.quaternion_type < 2 ^ 8
  pub quality : a.quality < 2 ^ 16

unfoldable pub quaternion_v3_wire : QuaternionV3 → Bytes
quaternion_v3_wire a =
    le 4 a.serial_number
    ++ le 8 a.network_time
    ++ le_int 4 a.x
    ++ le_int 4 a.y
    ++ le_int 4 a.z
    ++ le_int 4 a.w
    ++ le 1 a.quaternion_type
    ++ le 2 a.quality

pub decode_quaternion_v3-wire :
    (a : QuaternionV3) → IsQuaternionV3 a → decode_quaternion_v3 (quaternion_v3_wire a) ≡ ok a
unfolding decode_quaternion_v3 quaternion_v3_wire u8 u16 u32 u64 i32 slice le take drop
decode_quaternion_v3-wire a h = λ i. ok (record {
  serial_number = le_value-le 4 a.serial_number h.serial_number i;
  network_time = le_value-le 8 a.network_time h.network_time i;
  x = signed-le_int 3 a.x h.x i;
  y = signed-le_int 3 a.y h.y i;
  z = signed-le_int 3 a.z h.z i;
  w = signed-le_int 3 a.w h.w i;
  quaternion_type = le_value-le 1 a.quaternion_type h.quaternion_type i;
  quality = le_value-le 2 a.quality h.quality i;
})

pub record IsAccelerometerV3 (a : AccelerometerV3) : Type 0 where
  pub serial_number : a.serial_number < 2 ^ 32
  pub network_time : a.network_time < 2 ^ 64
  pub x : IsWithin (2 ^ 32) a.x
  pub y : IsWithin (2 ^ 32) a.y
  pub z : IsWithin (2 ^ 32) a.z
  pub scale : a.scale < 2 ^ 8

unfoldable pub accelerometer_v3_wire : AccelerometerV3 → Bytes
accelerometer_v3_wire a =
    le 4 a.serial_number
    ++ le 8 a.network_time
    ++ le_int 4 a.x
    ++ le_int 4 a.y
    ++ le_int 4 a.z
    ++ le 1 a.scale

pub decode_accelerometer_v3-wire :
    (a : AccelerometerV3)
    → IsAccelerometerV3 a
    → decode_accelerometer_v3 (accelerometer_v3_wire a) ≡ ok a
unfolding decode_accelerometer_v3 accelerometer_v3_wire u8 u32 u64 i32 slice le take drop
decode_accelerometer_v3-wire a h = λ i. ok (record {
  serial_number = le_value-le 4 a.serial_number h.serial_number i;
  network_time = le_value-le 8 a.network_time h.network_time i;
  x = signed-le_int 3 a.x h.x i;
  y = signed-le_int 3 a.y h.y i;
  z = signed-le_int 3 a.z h.z i;
  scale = le_value-le 1 a.scale h.scale i;
})

pub record IsGyroscopeV3 (a : GyroscopeV3) : Type 0 where
  pub serial_number : a.serial_number < 2 ^ 32
  pub network_time : a.network_time < 2 ^ 64
  pub x : IsWithin (2 ^ 32) a.x
  pub y : IsWithin (2 ^ 32) a.y
  pub z : IsWithin (2 ^ 32) a.z
  pub scale : a.scale < 2 ^ 16

unfoldable pub gyroscope_v3_wire : GyroscopeV3 → Bytes
gyroscope_v3_wire a =
    le 4 a.serial_number
    ++ le 8 a.network_time
    ++ le_int 4 a.x
    ++ le_int 4 a.y
    ++ le_int 4 a.z
    ++ le 2 a.scale

pub decode_gyroscope_v3-wire :
    (a : GyroscopeV3) → IsGyroscopeV3 a → decode_gyroscope_v3 (gyroscope_v3_wire a) ≡ ok a
unfolding decode_gyroscope_v3 gyroscope_v3_wire u16 u32 u64 i32 slice le take drop
decode_gyroscope_v3-wire a h = λ i. ok (record {
  serial_number = le_value-le 4 a.serial_number h.serial_number i;
  network_time = le_value-le 8 a.network_time h.network_time i;
  x = signed-le_int 3 a.x h.x i;
  y = signed-le_int 3 a.y h.y i;
  z = signed-le_int 3 a.z h.z i;
  scale = le_value-le 2 a.scale h.scale i;
})

pub record IsMagnetometerV3 (a : MagnetometerV3) : Type 0 where
  pub serial_number : a.serial_number < 2 ^ 32
  pub network_time : a.network_time < 2 ^ 64
  pub x : IsWithin (2 ^ 32) a.x
  pub y : IsWithin (2 ^ 32) a.y
  pub z : IsWithin (2 ^ 32) a.z
  pub scale : a.scale < 2 ^ 16

unfoldable pub magnetometer_v3_wire : MagnetometerV3 → Bytes
magnetometer_v3_wire a =
    le 4 a.serial_number
    ++ le 8 a.network_time
    ++ le_int 4 a.x
    ++ le_int 4 a.y
    ++ le_int 4 a.z
    ++ le 2 a.scale

pub decode_magnetometer_v3-wire :
    (a : MagnetometerV3)
    → IsMagnetometerV3 a
    → decode_magnetometer_v3 (magnetometer_v3_wire a) ≡ ok a
unfolding decode_magnetometer_v3 magnetometer_v3_wire u16 u32 u64 i32 slice le take drop
decode_magnetometer_v3-wire a h = λ i. ok (record {
  serial_number = le_value-le 4 a.serial_number h.serial_number i;
  network_time = le_value-le 8 a.network_time h.network_time i;
  x = signed-le_int 3 a.x h.x i;
  y = signed-le_int 3 a.y h.y i;
  z = signed-le_int 3 a.z h.z i;
  scale = le_value-le 2 a.scale h.scale i;
})
