-- ===== src/Cdp/Items/Position.antt =====
-- The position, distance, bounding and network time items of pkg/cdp/items.go, with their decoders.
pub mod Framing
pub mod Wire
use cdp_go.Base.{Bytes, if◌then◌else◌, length, ltb, ℕ}
use cdp_go.Base.Int.{ℤ}
use cdp_go.Cdp.ItemError.{Decoded, short}
use cdp_go.Cdp.Readers.{Float32, f32, i32, u16, u32, u64, u8}
use cdp_go.Cdp.Result.{err, ok, ◌>>=◌}
use cdp_go.Cdp.Serial.{Serial}

pub record PositionV3 : Type 0 where
  pub serial_number : Serial
  pub network_time : ℕ
  pub x : ℤ
  pub y : ℤ
  pub z : ℤ
  pub quality : ℕ
  pub anchor_count : ℕ
  pub flags : ℕ
  pub smoothing : ℕ

unfoldable pub decode_position_v3 : Bytes → Decoded PositionV3
decode_position_v3 b = if ltb (length b) 30 then err short else do
  serial_number ← u32 b 0
  network_time ← u64 b 4
  x ← i32 b 12
  y ← i32 b 16
  z ← i32 b 20
  quality ← u16 b 24
  anchor_count ← u8 b 26
  flags ← u8 b 27
  smoothing ← u16 b 28
  ok (record {
    serial_number = serial_number;
    network_time = network_time;
    x = x;
    y = y;
    z = z;
    quality = quality;
    anchor_count = anchor_count;
    flags = flags;
    smoothing = smoothing;
  })

pub record PolarCoordinatesV1 : Type 0 where
  pub serial_number : Serial
  pub network_time : ℕ
  pub rho : ℕ
  pub theta : Float32
  pub phi : Float32
  pub quality : ℕ
  pub anchor_count : ℕ
  pub flags : ℕ
  pub smoothing : ℕ

unfoldable pub decode_polar_coordinates_v1 : Bytes → Decoded PolarCoordinatesV1
decode_polar_coordinates_v1 b = if ltb (length b) 30 then err short else do
  serial_number ← u32 b 0
  network_time ← u64 b 4
  rho ← u32 b 12
  theta ← f32 b 16
  phi ← f32 b 20
  quality ← u16 b 24
  anchor_count ← u8 b 26
  flags ← u8 b 27
  smoothing ← u16 b 28
  ok (record {
    serial_number = serial_number;
    network_time = network_time;
    rho = rho;
    theta = theta;
    phi = phi;
    quality = quality;
    anchor_count = anchor_count;
    flags = flags;
    smoothing = smoothing;
  })

pub record DistanceV2 : Type 0 where
  pub serial_number_1 : Serial
  pub serial_number_2 : Serial
  pub interface_id_1 : ℕ
  pub interface_id_2 : ℕ
  pub rx_timestamp : ℕ
  pub distance : ℕ
  pub quality : ℕ

unfoldable pub decode_distance_v2 : Bytes → Decoded DistanceV2
decode_distance_v2 b = if ltb (length b) 24 then err short else do
  serial_number_1 ← u32 b 0
  serial_number_2 ← u32 b 4
  interface_id_1 ← u8 b 8
  interface_id_2 ← u8 b 9
  rx_timestamp ← u64 b 10
  distance ← u32 b 18
  quality ← u16 b 22
  ok (record {
    serial_number_1 = serial_number_1;
    serial_number_2 = serial_number_2;
    interface_id_1 = interface_id_1;
    interface_id_2 = interface_id_2;
    rx_timestamp = rx_timestamp;
    distance = distance;
    quality = quality;
  })

pub record BoundingBoxReport : Type 0 where
  pub min_x : ℕ
  pub min_y : ℕ
  pub min_z : ℕ
  pub max_x : ℕ
  pub max_y : ℕ
  pub max_z : ℕ

unfoldable pub decode_bounding_box_report : Bytes → Decoded BoundingBoxReport
decode_bounding_box_report b = if ltb (length b) 24 then err short else do
  min_x ← u32 b 0
  min_y ← u32 b 4
  min_z ← u32 b 8
  max_x ← u32 b 12
  max_y ← u32 b 16
  max_z ← u32 b 20
  ok (record {
    min_x = min_x;
    min_y = min_y;
    min_z = min_z;
    max_x = max_x;
    max_y = max_y;
    max_z = max_z;
  })

pub record BoundingCylinderReport : Type 0 where
  pub x : ℕ
  pub y : ℕ
  pub z : ℕ
  pub radius : ℕ
  pub height : ℕ

unfoldable pub decode_bounding_cylinder_report : Bytes → Decoded BoundingCylinderReport
decode_bounding_cylinder_report b = if ltb (length b) 20 then err short else do
  x ← u32 b 0
  y ← u32 b 4
  z ← u32 b 8
  radius ← u32 b 12
  height ← u32 b 16
  ok (record { x = x; y = y; z = z; radius = radius; height = height })

pub record NetworkTime : Type 0 where
  pub server_instance : Serial
  pub network_time : ℕ
  pub nt_quality : ℕ

unfoldable pub decode_network_time : Bytes → Decoded NetworkTime
decode_network_time b = if ltb (length b) 13 then err short else do
  server_instance ← u32 b 0
  network_time ← u64 b 4
  nt_quality ← u8 b 12
  ok (record {
    server_instance = server_instance;
    network_time = network_time;
    nt_quality = nt_quality;
  })

pub record NtRealTimeMappingV1 : Type 0 where
  pub network_time_previous : ℕ
  pub real_time_previous : ℕ
  pub network_time_current : ℕ
  pub real_time_current : ℕ

unfoldable pub decode_nt_real_time_mapping_v1 : Bytes → Decoded NtRealTimeMappingV1
decode_nt_real_time_mapping_v1 b = if ltb (length b) 32 then err short else do
  network_time_previous ← u64 b 0
  real_time_previous ← u64 b 8
  network_time_current ← u64 b 16
  real_time_current ← u64 b 24
  ok (record {
    network_time_previous = network_time_previous;
    real_time_previous = real_time_previous;
    network_time_current = network_time_current;
    real_time_current = real_time_current;
  })
