-- ===== src/Cdp/Items/Position/Wire.antt =====
-- The wire formats of these items, which their decoders in pkg/cdp/items.go read.
use cdp_go.Base.{Bytes, drop, take, ◌++◌, ◌<◌, ◌^◌, ◌≡◌}
use cdp_go.Base.Int.{IsWithin}
use cdp_go.Cdp.Items.Position.{
  BoundingBoxReport, BoundingCylinderReport, DistanceV2, NetworkTime, NtRealTimeMappingV1,
  PolarCoordinatesV1, PositionV3, decode_bounding_box_report, decode_bounding_cylinder_report,
  decode_distance_v2, decode_network_time, decode_nt_real_time_mapping_v1,
  decode_polar_coordinates_v1, decode_position_v3,
}
use cdp_go.Cdp.Readers.{f32, i32, slice, u16, u32, u64, u8}
use cdp_go.Cdp.Readers.Fields.{bits, from_bits-le, signed-le_int}
use cdp_go.Cdp.Readers.Wire.{le, le_int, le_value-le}
use cdp_go.Cdp.Result.{ok}

pub record IsPositionV3 (a : PositionV3) : Type 0 where
  pub serial_number : a.serial_number < 2 ^ 32
  pub network_time : a.network_time < 2 ^ 64
  pub x : IsWithin (2 ^ 32) a.x
  pub y : IsWithin (2 ^ 32) a.y
  pub z : IsWithin (2 ^ 32) a.z
  pub quality : a.quality < 2 ^ 16
  pub anchor_count : a.anchor_count < 2 ^ 8
  pub flags : a.flags < 2 ^ 8
  pub smoothing : a.smoothing < 2 ^ 16

unfoldable pub position_v3_wire : PositionV3 → Bytes
position_v3_wire a =
    le 4 a.serial_number
    ++ le 8 a.network_time
    ++ le_int 4 a.x
    ++ le_int 4 a.y
    ++ le_int 4 a.z
    ++ le 2 a.quality
    ++ le 1 a.anchor_count
    ++ le 1 a.flags
    ++ le 2 a.smoothing

pub decode_position_v3-wire :
    (a : PositionV3) → IsPositionV3 a → decode_position_v3 (position_v3_wire a) ≡ ok a
unfolding decode_position_v3 position_v3_wire u8 u16 u32 u64 i32 slice le take drop
decode_position_v3-wire a h = λ i. ok (record {
  serial_number = le_value-le 4 a.serial_number h.serial_number i;
  network_time = le_value-le 8 a.network_time h.network_time i;
  x = signed-le_int 3 a.x h.x i;
  y = signed-le_int 3 a.y h.y i;
  z = signed-le_int 3 a.z h.z i;
  quality = le_value-le 2 a.quality h.quality i;
  anchor_count = le_value-le 1 a.anchor_count h.anchor_count i;
  flags = le_value-le 1 a.flags h.flags i;
  smoothing = le_value-le 2 a.smoothing h.smoothing i;
})

pub record IsPolarCoordinatesV1 (a : PolarCoordinatesV1) : Type 0 where
  pub serial_number : a.serial_number < 2 ^ 32
  pub network_time : a.network_time < 2 ^ 64
  pub rho : a.rho < 2 ^ 32
  pub theta : bits a.theta < 2 ^ 32
  pub phi : bits a.phi < 2 ^ 32
  pub quality : a.quality < 2 ^ 16
  pub anchor_count : a.anchor_count < 2 ^ 8
  pub flags : a.flags < 2 ^ 8
  pub smoothing : a.smoothing < 2 ^ 16

unfoldable pub polar_coordinates_v1_wire : PolarCoordinatesV1 → Bytes
polar_coordinates_v1_wire a =
    le 4 a.serial_number
    ++ le 8 a.network_time
    ++ le 4 a.rho
    ++ le 4 (bits a.theta)
    ++ le 4 (bits a.phi)
    ++ le 2 a.quality
    ++ le 1 a.anchor_count
    ++ le 1 a.flags
    ++ le 2 a.smoothing

pub decode_polar_coordinates_v1-wire :
    (a : PolarCoordinatesV1)
    → IsPolarCoordinatesV1 a
    → decode_polar_coordinates_v1 (polar_coordinates_v1_wire a) ≡ ok a
unfolding decode_polar_coordinates_v1 polar_coordinates_v1_wire u8 u16 u32 u64 f32 slice le take
    drop
decode_polar_coordinates_v1-wire a h = λ i. ok (record {
  serial_number = le_value-le 4 a.serial_number h.serial_number i;
  network_time = le_value-le 8 a.network_time h.network_time i;
  rho = le_value-le 4 a.rho h.rho i;
  theta = from_bits-le a.theta h.theta i;
  phi = from_bits-le a.phi h.phi i;
  quality = le_value-le 2 a.quality h.quality i;
  anchor_count = le_value-le 1 a.anchor_count h.anchor_count i;
  flags = le_value-le 1 a.flags h.flags i;
  smoothing = le_value-le 2 a.smoothing h.smoothing i;
})

pub record IsDistanceV2 (a : DistanceV2) : Type 0 where
  pub serial_number_1 : a.serial_number_1 < 2 ^ 32
  pub serial_number_2 : a.serial_number_2 < 2 ^ 32
  pub interface_id_1 : a.interface_id_1 < 2 ^ 8
  pub interface_id_2 : a.interface_id_2 < 2 ^ 8
  pub rx_timestamp : a.rx_timestamp < 2 ^ 64
  pub distance : a.distance < 2 ^ 32
  pub quality : a.quality < 2 ^ 16

unfoldable pub distance_v2_wire : DistanceV2 → Bytes
distance_v2_wire a =
    le 4 a.serial_number_1
    ++ le 4 a.serial_number_2
    ++ le 1 a.interface_id_1
    ++ le 1 a.interface_id_2
    ++ le 8 a.rx_timestamp
    ++ le 4 a.distance
    ++ le 2 a.quality

pub decode_distance_v2-wire :
    (a : DistanceV2) → IsDistanceV2 a → decode_distance_v2 (distance_v2_wire a) ≡ ok a
unfolding decode_distance_v2 distance_v2_wire u8 u16 u32 u64 slice le take drop
decode_distance_v2-wire a h = λ i. ok (record {
  serial_number_1 = le_value-le 4 a.serial_number_1 h.serial_number_1 i;
  serial_number_2 = le_value-le 4 a.serial_number_2 h.serial_number_2 i;
  interface_id_1 = le_value-le 1 a.interface_id_1 h.interface_id_1 i;
  interface_id_2 = le_value-le 1 a.interface_id_2 h.interface_id_2 i;
  rx_timestamp = le_value-le 8 a.rx_timestamp h.rx_timestamp i;
  distance = le_value-le 4 a.distance h.distance i;
  quality = le_value-le 2 a.quality h.quality i;
})

pub record IsBoundingBoxReport (a : BoundingBoxReport) : Type 0 where
  pub min_x : a.min_x < 2 ^ 32
  pub min_y : a.min_y < 2 ^ 32
  pub min_z : a.min_z < 2 ^ 32
  pub max_x : a.max_x < 2 ^ 32
  pub max_y : a.max_y < 2 ^ 32
  pub max_z : a.max_z < 2 ^ 32

unfoldable pub bounding_box_report_wire : BoundingBoxReport → Bytes
bounding_box_report_wire a =
    le 4 a.min_x ++ le 4 a.min_y ++ le 4 a.min_z ++ le 4 a.max_x ++ le 4 a.max_y ++ le 4 a.max_z

pub decode_bounding_box_report-wire :
    (a : BoundingBoxReport)
    → IsBoundingBoxReport a
    → decode_bounding_box_report (bounding_box_report_wire a) ≡ ok a
unfolding decode_bounding_box_report bounding_box_report_wire u32 slice le take drop
decode_bounding_box_report-wire a h = λ i. ok (record {
  min_x = le_value-le 4 a.min_x h.min_x i;
  min_y = le_value-le 4 a.min_y h.min_y i;
  min_z = le_value-le 4 a.min_z h.min_z i;
  max_x = le_value-le 4 a.max_x h.max_x i;
  max_y = le_value-le 4 a.max_y h.max_y i;
  max_z = le_value-le 4 a.max_z h.max_z i;
})

pub record IsBoundingCylinderReport (a : BoundingCylinderReport) : Type 0 where
  pub x : a.x < 2 ^ 32
  pub y : a.y < 2 ^ 32
  pub z : a.z < 2 ^ 32
  pub radius : a.radius < 2 ^ 32
  pub height : a.height < 2 ^ 32

unfoldable pub bounding_cylinder_report_wire : BoundingCylinderReport → Bytes
bounding_cylinder_report_wire a = le 4 a.x ++ le 4 a.y ++ le 4 a.z ++ le 4 a.radius ++ le 4 a.height

pub decode_bounding_cylinder_report-wire :
    (a : BoundingCylinderReport)
    → IsBoundingCylinderReport a
    → decode_bounding_cylinder_report (bounding_cylinder_report_wire a) ≡ ok a
unfolding decode_bounding_cylinder_report bounding_cylinder_report_wire u32 slice le take drop
decode_bounding_cylinder_report-wire a h = λ i. ok (record {
  x = le_value-le 4 a.x h.x i;
  y = le_value-le 4 a.y h.y i;
  z = le_value-le 4 a.z h.z i;
  radius = le_value-le 4 a.radius h.radius i;
  height = le_value-le 4 a.height h.height i;
})

pub record IsNetworkTime (a : NetworkTime) : Type 0 where
  pub server_instance : a.server_instance < 2 ^ 32
  pub network_time : a.network_time < 2 ^ 64
  pub nt_quality : a.nt_quality < 2 ^ 8

unfoldable pub network_time_wire : NetworkTime → Bytes
network_time_wire a = le 4 a.server_instance ++ le 8 a.network_time ++ le 1 a.nt_quality

pub decode_network_time-wire :
    (a : NetworkTime) → IsNetworkTime a → decode_network_time (network_time_wire a) ≡ ok a
unfolding decode_network_time network_time_wire u8 u32 u64 slice le take drop
decode_network_time-wire a h = λ i. ok (record {
  server_instance = le_value-le 4 a.server_instance h.server_instance i;
  network_time = le_value-le 8 a.network_time h.network_time i;
  nt_quality = le_value-le 1 a.nt_quality h.nt_quality i;
})

pub record IsNtRealTimeMappingV1 (a : NtRealTimeMappingV1) : Type 0 where
  pub network_time_previous : a.network_time_previous < 2 ^ 64
  pub real_time_previous : a.real_time_previous < 2 ^ 64
  pub network_time_current : a.network_time_current < 2 ^ 64
  pub real_time_current : a.real_time_current < 2 ^ 64

unfoldable pub nt_real_time_mapping_v1_wire : NtRealTimeMappingV1 → Bytes
nt_real_time_mapping_v1_wire a =
    le 8 a.network_time_previous
    ++ le 8 a.real_time_previous
    ++ le 8 a.network_time_current
    ++ le 8 a.real_time_current

pub decode_nt_real_time_mapping_v1-wire :
    (a : NtRealTimeMappingV1)
    → IsNtRealTimeMappingV1 a
    → decode_nt_real_time_mapping_v1 (nt_real_time_mapping_v1_wire a) ≡ ok a
unfolding decode_nt_real_time_mapping_v1 nt_real_time_mapping_v1_wire u64 slice le take drop
decode_nt_real_time_mapping_v1-wire a h = λ i. ok (record {
  network_time_previous = le_value-le 8 a.network_time_previous h.network_time_previous i;
  real_time_previous = le_value-le 8 a.real_time_previous h.real_time_previous i;
  network_time_current = le_value-le 8 a.network_time_current h.network_time_current i;
  real_time_current = le_value-le 8 a.real_time_current h.real_time_current i;
})
