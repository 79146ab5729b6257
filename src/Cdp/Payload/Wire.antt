-- ===== src/Cdp/Payload/Wire.antt =====
-- The wire format of the payloads that consist of numbers only: 27 of the 49 items of
-- pkg/cdp/items.go. The others are left out of `IsFixed`.
use cdp_go.Base.{Bytes, Option, [], ap, arith, length, none, some, ℕ, ◌<◌, ◌^◌, ◌≡◌}
use cdp_go.Base.Assoc.{lookup}
use cdp_go.Cdp.ItemError.{Decoded, short}
use cdp_go.Cdp.Items.Device.Wire.{
  IsClearDeviceColor, IsDeviceActivityState, IsDeviceColor, IsPressureV2, IsTemperatureV2,
  clear_device_color_wire, decode_clear_device_color-wire, decode_device_activity_state-wire,
  decode_device_color-wire, decode_pressure_v2-wire, decode_temperature_v2-wire,
  device_activity_state_wire, device_color_wire, pressure_v2_wire, temperature_v2_wire,
}
use cdp_go.Cdp.Items.Motion.Wire.{
  IsAccelerometerV2, IsAccelerometerV3, IsGyroscopeV2, IsGyroscopeV3, IsMagnetometerV2,
  IsMagnetometerV3, IsQuaternionV2, IsQuaternionV3, accelerometer_v2_wire, accelerometer_v3_wire,
  decode_accelerometer_v2-wire, decode_accelerometer_v3-wire, decode_gyroscope_v2-wire,
  decode_gyroscope_v3-wire, decode_magnetometer_v2-wire, decode_magnetometer_v3-wire,
  decode_quaternion_v2-wire, decode_quaternion_v3-wire, gyroscope_v2_wire, gyroscope_v3_wire,
  magnetometer_v2_wire, magnetometer_v3_wire, quaternion_v2_wire, quaternion_v3_wire,
}
use cdp_go.Cdp.Items.Node.Wire.{
  IsLinkMdStatus, IsNodeStatusChangeV2, IsSynchronization, decode_link_md_status-wire,
  decode_node_status_change_v2-wire, decode_synchronization-wire, link_md_status_wire,
  node_status_change_v2_wire, synchronization_wire,
}
use cdp_go.Cdp.Items.Position.Wire.{
  IsBoundingBoxReport, IsBoundingCylinderReport, IsDistanceV2, IsNetworkTime, IsNtRealTimeMappingV1,
  IsPolarCoordinatesV1, IsPositionV3, bounding_box_report_wire, bounding_cylinder_report_wire,
  decode_bounding_box_report-wire, decode_bounding_cylinder_report-wire, decode_distance_v2-wire,
  decode_network_time-wire, decode_nt_real_time_mapping_v1-wire, decode_polar_coordinates_v1-wire,
  decode_position_v3-wire, distance_v2_wire, network_time_wire, nt_real_time_mapping_v1_wire,
  polar_coordinates_v1_wire, position_v3_wire,
}
use cdp_go.Cdp.Items.Uwb.Wire.{
  IsTickV4, IsTickV5, IsTimedRxV5, IsTimedRxV6, decode_tick_v4-wire, decode_tick_v5-wire,
  decode_timed_rx_v5-wire, decode_timed_rx_v6-wire, signal_strength_wire, tick_v4_wire,
  tick_v5_wire, timed_rx_v5_wire, timed_rx_v6_wire,
}
use cdp_go.Cdp.Payload.{
  Payload, accelerometer_v2, accelerometer_v3, bounding_box_report, bounding_cylinder_report,
  clear_device_color, device_activity_state, device_color, distance_v2, gyroscope_v2, gyroscope_v3,
  link_md_status, magnetometer_v2, magnetometer_v3, network_time, node_status_change_v2,
  nt_real_time_mapping_v1, polar_coordinates_v1, position_v3, pressure_v2, quaternion_v2,
  quaternion_v3, synchronization, temperature_v2, tick_v4, tick_v5, timed_rx_v5, timed_rx_v6,
}
use cdp_go.Cdp.Readers.Wire.{le}
use cdp_go.Cdp.Registry.{RegistryEntry, registry}
use cdp_go.Cdp.Result.{err, ok, ◌>>=◌}

-- The payload is of such an item, and its fields fit their types.
abbrev pub IsFixed : Payload → Type 0
IsFixed (position_v3 a) = IsPositionV3 a
IsFixed (polar_coordinates_v1 a) = IsPolarCoordinatesV1 a
IsFixed (distance_v2 a) = IsDistanceV2 a
IsFixed (bounding_box_report a) = IsBoundingBoxReport a
IsFixed (bounding_cylinder_report a) = IsBoundingCylinderReport a
IsFixed (network_time a) = IsNetworkTime a
IsFixed (nt_real_time_mapping_v1 a) = IsNtRealTimeMappingV1 a
IsFixed (accelerometer_v2 a) = IsAccelerometerV2 a
IsFixed (gyroscope_v2 a) = IsGyroscopeV2 a
IsFixed (magnetometer_v2 a) = IsMagnetometerV2 a
IsFixed (quaternion_v2 a) = IsQuaternionV2 a
IsFixed (quaternion_v3 a) = IsQuaternionV3 a
IsFixed (accelerometer_v3 a) = IsAccelerometerV3 a
IsFixed (gyroscope_v3 a) = IsGyroscopeV3 a
IsFixed (magnetometer_v3 a) = IsMagnetometerV3 a
IsFixed (pressure_v2 a) = IsPressureV2 a
IsFixed (temperature_v2 a) = IsTemperatureV2 a
IsFixed (device_activity_state a) = IsDeviceActivityState a
IsFixed (device_color a) = IsDeviceColor a
IsFixed (clear_device_color a) = IsClearDeviceColor a
IsFixed (node_status_change_v2 a) = IsNodeStatusChangeV2 a
IsFixed (link_md_status a) = IsLinkMdStatus a
IsFixed (synchronization a) = IsSynchronization a
IsFixed (timed_rx_v5 a) = IsTimedRxV5 a
IsFixed (timed_rx_v6 a) = IsTimedRxV6 a
IsFixed (tick_v4 a) = IsTickV4 a
IsFixed (tick_v5 a) = IsTickV5 a
IsFixed _ = ⊥

abbrev pub payload_wire : Payload → Bytes
payload_wire (position_v3 a) = position_v3_wire a
payload_wire (polar_coordinates_v1 a) = polar_coordinates_v1_wire a
payload_wire (distance_v2 a) = distance_v2_wire a
payload_wire (bounding_box_report a) = bounding_box_report_wire a
payload_wire (bounding_cylinder_report a) = bounding_cylinder_report_wire a
payload_wire (network_time a) = network_time_wire a
payload_wire (nt_real_time_mapping_v1 a) = nt_real_time_mapping_v1_wire a
payload_wire (accelerometer_v2 a) = accelerometer_v2_wire a
payload_wire (gyroscope_v2 a) = gyroscope_v2_wire a
payload_wire (magnetometer_v2 a) = magnetometer_v2_wire a
payload_wire (quaternion_v2 a) = quaternion_v2_wire a
payload_wire (quaternion_v3 a) = quaternion_v3_wire a
payload_wire (accelerometer_v3 a) = accelerometer_v3_wire a
payload_wire (gyroscope_v3 a) = gyroscope_v3_wire a
payload_wire (magnetometer_v3 a) = magnetometer_v3_wire a
payload_wire (pressure_v2 a) = pressure_v2_wire a
payload_wire (temperature_v2 a) = temperature_v2_wire a
payload_wire (device_activity_state a) = device_activity_state_wire a
payload_wire (device_color a) = device_color_wire a
payload_wire (clear_device_color a) = clear_device_color_wire a
payload_wire (node_status_change_v2 a) = node_status_change_v2_wire a
payload_wire (link_md_status a) = link_md_status_wire a
payload_wire (synchronization a) = synchronization_wire a
payload_wire (timed_rx_v5 a) = timed_rx_v5_wire a
payload_wire (timed_rx_v6 a) = timed_rx_v6_wire a
payload_wire (tick_v4 a) = tick_v4_wire a
payload_wire (tick_v5 a) = tick_v5_wire a
payload_wire _ = []

-- The type id that announces the item.
abbrev pub type_of : Payload → ℕ
type_of (position_v3 _) = 0x0135
type_of (polar_coordinates_v1 _) = 0x0164
type_of (distance_v2 _) = 0x0127
type_of (bounding_box_report _) = 0x016a
type_of (bounding_cylinder_report _) = 0x016b
type_of (network_time _) = 0x0149
type_of (nt_real_time_mapping_v1 _) = 0x015a
type_of (accelerometer_v2 _) = 0x0139
type_of (gyroscope_v2 _) = 0x013a
type_of (magnetometer_v2 _) = 0x013b
type_of (quaternion_v2 _) = 0x013d
type_of (quaternion_v3 _) = 0x0178
type_of (accelerometer_v3 _) = 0x017a
type_of (gyroscope_v3 _) = 0x017b
type_of (magnetometer_v3 _) = 0x017c
type_of (pressure_v2 _) = 0x013c
type_of (temperature_v2 _) = 0x013e
type_of (device_activity_state _) = 0x0137
type_of (device_color _) = 0x80c0
type_of (clear_device_color _) = 0x80da
type_of (node_status_change_v2 _) = 0x010d
type_of (link_md_status _) = 0x0163
type_of (synchronization _) = 0x0140
type_of (timed_rx_v5 _) = 0x802c
type_of (timed_rx_v6 _) = 0x80b3
type_of (tick_v4 _) = 0x802d
type_of (tick_v5 _) = 0x80b2
type_of _ = 0

pub length-payload_wire : (p : Payload) → IsFixed p → length (payload_wire p) < 2 ^ 16
unfolding le signal_strength_wire position_v3_wire polar_coordinates_v1_wire distance_v2_wire
    bounding_box_report_wire bounding_cylinder_report_wire network_time_wire
    nt_real_time_mapping_v1_wire accelerometer_v2_wire gyroscope_v2_wire magnetometer_v2_wire
    quaternion_v2_wire quaternion_v3_wire accelerometer_v3_wire gyroscope_v3_wire
    magnetometer_v3_wire pressure_v2_wire temperature_v2_wire device_activity_state_wire
    device_color_wire clear_device_color_wire node_status_change_v2_wire link_md_status_wire
    synchronization_wire timed_rx_v5_wire timed_rx_v6_wire tick_v4_wire tick_v5_wire
length-payload_wire (position_v3 a) h = omega arith
length-payload_wire (polar_coordinates_v1 a) h = omega arith
length-payload_wire (distance_v2 a) h = omega arith
length-payload_wire (bounding_box_report a) h = omega arith
length-payload_wire (bounding_cylinder_report a) h = omega arith
length-payload_wire (network_time a) h = omega arith
length-payload_wire (nt_real_time_mapping_v1 a) h = omega arith
length-payload_wire (accelerometer_v2 a) h = omega arith
length-payload_wire (gyroscope_v2 a) h = omega arith
length-payload_wire (magnetometer_v2 a) h = omega arith
length-payload_wire (quaternion_v2 a) h = omega arith
length-payload_wire (quaternion_v3 a) h = omega arith
length-payload_wire (accelerometer_v3 a) h = omega arith
length-payload_wire (gyroscope_v3 a) h = omega arith
length-payload_wire (magnetometer_v3 a) h = omega arith
length-payload_wire (pressure_v2 a) h = omega arith
length-payload_wire (temperature_v2 a) h = omega arith
length-payload_wire (device_activity_state a) h = omega arith
length-payload_wire (device_color a) h = omega arith
length-payload_wire (clear_device_color a) h = omega arith
length-payload_wire (node_status_change_v2 a) h = omega arith
length-payload_wire (link_md_status a) h = omega arith
length-payload_wire (synchronization a) h = omega arith
length-payload_wire (timed_rx_v5 a) h = omega arith
length-payload_wire (timed_rx_v6 a) h = omega arith
length-payload_wire (tick_v4 a) h = omega arith
length-payload_wire (tick_v5 a) h = omega arith
length-payload_wire _ h = absurd h

pub type_of-lt : (p : Payload) → type_of p < 2 ^ 16
type_of-lt (position_v3 _) = omega arith
type_of-lt (polar_coordinates_v1 _) = omega arith
type_of-lt (distance_v2 _) = omega arith
type_of-lt (bounding_box_report _) = omega arith
type_of-lt (bounding_cylinder_report _) = omega arith
type_of-lt (network_time _) = omega arith
type_of-lt (nt_real_time_mapping_v1 _) = omega arith
type_of-lt (accelerometer_v2 _) = omega arith
type_of-lt (gyroscope_v2 _) = omega arith
type_of-lt (magnetometer_v2 _) = omega arith
type_of-lt (quaternion_v2 _) = omega arith
type_of-lt (quaternion_v3 _) = omega arith
type_of-lt (accelerometer_v3 _) = omega arith
type_of-lt (gyroscope_v3 _) = omega arith
type_of-lt (magnetometer_v3 _) = omega arith
type_of-lt (pressure_v2 _) = omega arith
type_of-lt (temperature_v2 _) = omega arith
type_of-lt (device_activity_state _) = omega arith
type_of-lt (device_color _) = omega arith
type_of-lt (clear_device_color _) = omega arith
type_of-lt (node_status_change_v2 _) = omega arith
type_of-lt (link_md_status _) = omega arith
type_of-lt (synchronization _) = omega arith
type_of-lt (timed_rx_v5 _) = omega arith
type_of-lt (timed_rx_v6 _) = omega arith
type_of-lt (tick_v4 _) = omega arith
type_of-lt (tick_v5 _) = omega arith
type_of-lt _ = omega arith

-- What the registry's decoder for the type makes of the payload's bytes.
abbrev pub decode_as : Option RegistryEntry → Bytes → Decoded Payload
decode_as none b = err short
decode_as (some e) b = e.decode b

pub decode_as-payload_wire :
    (p : Payload) → IsFixed p → decode_as (lookup (type_of p) registry) (payload_wire p) ≡ ok p
unfolding lookup registry
decode_as-payload_wire (position_v3 a) h =
    ap (λ r. r >>= λ x. ok (position_v3 x)) (decode_position_v3-wire a h)
decode_as-payload_wire (polar_coordinates_v1 a) h =
    ap (λ r. r >>= λ x. ok (polar_coordinates_v1 x)) (decode_polar_coordinates_v1-wire a h)
decode_as-payload_wire (distance_v2 a) h =
    ap (λ r. r >>= λ x. ok (distance_v2 x)) (decode_distance_v2-wire a h)
decode_as-payload_wire (bounding_box_report a) h =
    ap (λ r. r >>= λ x. ok (bounding_box_report x)) (decode_bounding_box_report-wire a h)
decode_as-payload_wire (bounding_cylinder_report a) h =
    ap (λ r. r >>= λ x. ok (bounding_cylinder_report x)) (decode_bounding_cylinder_report-wire a h)
decode_as-payload_wire (network_time a) h =
    ap (λ r. r >>= λ x. ok (network_time x)) (decode_network_time-wire a h)
decode_as-payload_wire (nt_real_time_mapping_v1 a) h =
    ap (λ r. r >>= λ x. ok (nt_real_time_mapping_v1 x)) (decode_nt_real_time_mapping_v1-wire a h)
decode_as-payload_wire (accelerometer_v2 a) h =
    ap (λ r. r >>= λ x. ok (accelerometer_v2 x)) (decode_accelerometer_v2-wire a h)
decode_as-payload_wire (gyroscope_v2 a) h =
    ap (λ r. r >>= λ x. ok (gyroscope_v2 x)) (decode_gyroscope_v2-wire a h)
decode_as-payload_wire (magnetometer_v2 a) h =
    ap (λ r. r >>= λ x. ok (magnetometer_v2 x)) (decode_magnetometer_v2-wire a h)
decode_as-payload_wire (quaternion_v2 a) h =
    ap (λ r. r >>= λ x. ok (quaternion_v2 x)) (decode_quaternion_v2-wire a h)
decode_as-payload_wire (quaternion_v3 a) h =
    ap (λ r. r >>= λ x. ok (quaternion_v3 x)) (decode_quaternion_v3-wire a h)
decode_as-payload_wire (accelerometer_v3 a) h =
    ap (λ r. r >>= λ x. ok (accelerometer_v3 x)) (decode_accelerometer_v3-wire a h)
decode_as-payload_wire (gyroscope_v3 a) h =
    ap (λ r. r >>= λ x. ok (gyroscope_v3 x)) (decode_gyroscope_v3-wire a h)
decode_as-payload_wire (magnetometer_v3 a) h =
    ap (λ r. r >>= λ x. ok (magnetometer_v3 x)) (decode_magnetometer_v3-wire a h)
decode_as-payload_wire (pressure_v2 a) h =
    ap (λ r. r >>= λ x. ok (pressure_v2 x)) (decode_pressure_v2-wire a h)
decode_as-payload_wire (temperature_v2 a) h =
    ap (λ r. r >>= λ x. ok (temperature_v2 x)) (decode_temperature_v2-wire a h)
decode_as-payload_wire (device_activity_state a) h =
    ap (λ r. r >>= λ x. ok (device_activity_state x)) (decode_device_activity_state-wire a h)
decode_as-payload_wire (device_color a) h =
    ap (λ r. r >>= λ x. ok (device_color x)) (decode_device_color-wire a h)
decode_as-payload_wire (clear_device_color a) h =
    ap (λ r. r >>= λ x. ok (clear_device_color x)) (decode_clear_device_color-wire a h)
decode_as-payload_wire (node_status_change_v2 a) h =
    ap (λ r. r >>= λ x. ok (node_status_change_v2 x)) (decode_node_status_change_v2-wire a h)
decode_as-payload_wire (link_md_status a) h =
    ap (λ r. r >>= λ x. ok (link_md_status x)) (decode_link_md_status-wire a h)
decode_as-payload_wire (synchronization a) h =
    ap (λ r. r >>= λ x. ok (synchronization x)) (decode_synchronization-wire a h)
decode_as-payload_wire (timed_rx_v5 a) h =
    ap (λ r. r >>= λ x. ok (timed_rx_v5 x)) (decode_timed_rx_v5-wire a h)
decode_as-payload_wire (timed_rx_v6 a) h =
    ap (λ r. r >>= λ x. ok (timed_rx_v6 x)) (decode_timed_rx_v6-wire a h)
decode_as-payload_wire (tick_v4 a) h = ap (λ r. r >>= λ x. ok (tick_v4 x)) (decode_tick_v4-wire a h)
decode_as-payload_wire (tick_v5 a) h = ap (λ r. r >>= λ x. ok (tick_v5 x)) (decode_tick_v5-wire a h)
decode_as-payload_wire _ h = absurd h
