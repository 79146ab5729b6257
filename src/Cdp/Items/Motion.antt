-- ===== src/Cdp/Items/Motion.antt =====
-- The inertial items of pkg/cdp/items.go, with their decoders.
pub mod Framing
pub mod Wire
use cdp_go.Base.{Bytes, if◌then◌else◌, length, ltb, ℕ}
use cdp_go.Base.Int.{ℤ}
use cdp_go.Cdp.ItemError.{Decoded, short}
use cdp_go.Cdp.Readers.{i32, u16, u32, u64, u8}
use cdp_go.Cdp.Result.{err, ok, ◌>>=◌}
use cdp_go.Cdp.Serial.{Serial}

pub record AccelerometerV2 : Type 0 where
  pub serial_number : Serial
  pub network_time : ℕ
  pub x : ℤ
  pub y : ℤ
  pub z : ℤ
  pub scale : ℕ

unfoldable pub decode_accelerometer_v2 : Bytes → Decoded AccelerometerV2
decode_accelerometer_v2 b = if ltb (length b) 25 then err short else do
  serial_number ← u32 b 0
  network_time ← u64 b 4
  x ← i32 b 12
  y ← i32 b 16
  z ← i32 b 20
  scale ← u8 b 24
  ok (record {
    serial_number = serial_number;
    network_time = network_time;
    x = x;
    y = y;
    z = z;
    scale = scale;
  })

pub record GyroscopeV2 : Type 0 where
  pub serial_number : Serial
  pub network_time : ℕ
  pub x : ℤ
  pub y : ℤ
  pub z : ℤ
  pub scale : ℕ

unfoldable pub decode_gyroscope_v2 : Bytes → Decoded GyroscopeV2
decode_gyroscope_v2 b = if ltb (length b) 26 then err short else do
  serial_number ← u32 b 0
  network_time ← u64 b 4
  x ← i32 b 12
  y ← i32 b 16
  z ← i32 b 20
  scale ← u16 b 24
  ok (record {
    serial_number = serial_number;
    network_time = network_time;
    x = x;
    y = y;
    z = z;
    scale = scale;
  })

pub record MagnetometerV2 : Type 0 where
  pub serial_number : Serial
  pub network_time : ℕ
  pub x : ℤ
  pub y : ℤ
  pub z : ℤ
  pub scale : ℕ

unfoldable pub decode_magnetometer_v2 : Bytes → Decoded MagnetometerV2
decode_magnetometer_v2 b = if ltb (length b) 26 then err short else do
  serial_number ← u32 b 0
  network_time ← u64 b 4
  x ← i32 b 12
  y ← i32 b 16
  z ← i32 b 20
  scale ← u16 b 24
  ok (record {
    serial_number = serial_number;
    network_time = network_time;
    x = x;
    y = y;
    z = z;
    scale = scale;
  })

pub record QuaternionV2 : Type 0 where
  pub serial_number : Serial
  pub network_time : ℕ
  pub x : ℤ
  pub y : ℤ
  pub z : ℤ
  pub w : ℤ
  pub quaternion_type : ℕ

unfoldable pub decode_quaternion_v2 : Bytes → Decoded QuaternionV2
decode_quaternion_v2 b = if ltb (length b) 29 then err short else do
  serial_number ← u32 b 0
  network_time ← u64 b 4
  x ← i32 b 12
  y ← i32 b 16
  z ← i32 b 20
  w ← i32 b 24
  quaternion_type ← u8 b 28
  ok (record {
    serial_number = serial_number;
    network_time = network_time;
    x = x;
    y = y;
    z = z;
    w = w;
    quaternion_type = quaternion_type;
  })

pub record QuaternionV3 : Type 0 where
  pub serial_number : Serial
  pub network_time : ℕ
  pub x : ℤ
  pub y : ℤ
  pub z : ℤ
  pub w : ℤ
  pub quaternion_type : ℕ
  pub quality : ℕ

unfoldable pub decode_quaternion_v3 : Bytes → Decoded QuaternionV3
decode_quaternion_v3 b = if ltb (length b) 31 then err short else do
  serial_number ← u32 b 0
  network_time ← u64 b 4
  x ← i32 b 12
  y ← i32 b 16
  z ← i32 b 20
  w ← i32 b 24
  quaternion_type ← u8 b 28
  quality ← u16 b 29
  ok (record {
    serial_number = serial_number;
    network_time = network_time;
    x = x;
    y = y;
    z = z;
    w = w;
    quaternion_type = quaternion_type;
    quality = quality;
  })

pub record AccelerometerV3 : Type 0 where
  pub serial_number : Serial
  pub network_time : ℕ
  pub x : ℤ
  pub y : ℤ
  pub z : ℤ
  pub scale : ℕ

unfoldable pub decode_accelerometer_v3 : Bytes → Decoded AccelerometerV3
decode_accelerometer_v3 b = if ltb (length b) 25 then err short else do
  serial_number ← u32 b 0
  network_time ← u64 b 4
  x ← i32 b 12
  y ← i32 b 16
  z ← i32 b 20
  scale ← u8 b 24
  ok (record {
    serial_number = serial_number;
    network_time = network_time;
    x = x;
    y = y;
    z = z;
    scale = scale;
  })

pub record GyroscopeV3 : Type 0 where
  pub serial_number : Serial
  pub network_time : ℕ
  pub x : ℤ
  pub y : ℤ
  pub z : ℤ
  pub scale : ℕ

unfoldable pub decode_gyroscope_v3 : Bytes → Decoded GyroscopeV3
decode_gyroscope_v3 b = if ltb (length b) 26 then err short else do
  serial_number ← u32 b 0
  network_time ← u64 b 4
  x ← i32 b 12
  y ← i32 b 16
  z ← i32 b 20
  scale ← u16 b 24
  ok (record {
    serial_number = serial_number;
    network_time = network_time;
    x = x;
    y = y;
    z = z;
    scale = scale;
  })

pub record MagnetometerV3 : Type 0 where
  pub serial_number : Serial
  pub network_time : ℕ
  pub x : ℤ
  pub y : ℤ
  pub z : ℤ
  pub scale : ℕ

unfoldable pub decode_magnetometer_v3 : Bytes → Decoded MagnetometerV3
decode_magnetometer_v3 b = if ltb (length b) 26 then err short else do
  serial_number ← u32 b 0
  network_time ← u64 b 4
  x ← i32 b 12
  y ← i32 b 16
  z ← i32 b 20
  scale ← u16 b 24
  ok (record {
    serial_number = serial_number;
    network_time = network_time;
    x = x;
    y = y;
    z = z;
    scale = scale;
  })
