-- ===== src/Cdp/Registry.antt =====
-- The registry that `init` of pkg/cdp/items.go builds, and the `typeHexes` beside it.
pub mod Layout
use Prim.Native.String.{String}
use cdp_go.Base.{Bytes, List, [], codes, map, ℕ, ◌++◌, ◌∷◌}
use cdp_go.Cdp.ItemError.{Decoded}
use cdp_go.Cdp.Items.Anchor.{
  decode_anchor_health_v5, decode_anchor_position_status_v3, decode_anchor_position_status_v4,
  decode_global_ping_timing_report_v1,
}
use cdp_go.Cdp.Items.Announce.{
  decode_app_settings_chunk, decode_cdp_stream_information, decode_device_names,
  decode_hostname_announce, decode_image_discovery_v1, decode_image_discovery_v2,
  decode_instance_announce, decode_user_defined_v2, decode_user_defined_v3,
}
use cdp_go.Cdp.Items.Device.{
  decode_clear_device_color, decode_device_activity_state, decode_device_color,
  decode_device_hardware_status_v2, decode_device_status_v3, decode_pressure_v2,
  decode_temperature_v2,
}
use cdp_go.Cdp.Items.Motion.{
  decode_accelerometer_v2, decode_accelerometer_v3, decode_gyroscope_v2, decode_gyroscope_v3,
  decode_magnetometer_v2, decode_magnetometer_v3, decode_quaternion_v2, decode_quaternion_v3,
}
use cdp_go.Cdp.Items.Node.{
  decode_bootload_progress, decode_link_md_status, decode_node_status_change_v2, decode_role_report,
  decode_synchronization,
}
use cdp_go.Cdp.Items.Position.{
  decode_bounding_box_report, decode_bounding_cylinder_report, decode_distance_v2,
  decode_network_time, decode_nt_real_time_mapping_v1, decode_polar_coordinates_v1,
  decode_position_v3,
}
use cdp_go.Cdp.Items.Uwb.{
  decode_ping_v5, decode_tick_v4, decode_tick_v5, decode_timed_rx_v5, decode_timed_rx_v6,
}
use cdp_go.Cdp.Items.Zones.{
  decode_clear_object, decode_draw_prism, decode_geofencer_zone_info, decode_tag_zone_info,
}
use cdp_go.Cdp.Payload.{
  Payload, accelerometer_v2, accelerometer_v3, anchor_health_v5, anchor_position_status_v3,
  anchor_position_status_v4, app_settings_chunk, bootload_progress, bounding_box_report,
  bounding_cylinder_report, cdp_stream_information, clear_device_color, clear_object,
  device_activity_state, device_color, device_hardware_status_v2, device_names, device_status_v3,
  distance_v2, draw_prism, geofencer_zone_info, global_ping_timing_report_v1, gyroscope_v2,
  gyroscope_v3, hostname_announce, image_discovery_v1, image_discovery_v2, instance_announce,
  link_md_status, magnetometer_v2, magnetometer_v3, network_time, node_status_change_v2,
  nt_real_time_mapping_v1, ping_v5, polar_coordinates_v1, position_v3, pressure_v2, quaternion_v2,
  quaternion_v3, role_report, synchronization, tag_zone_info, temperature_v2, tick_v4, tick_v5,
  timed_rx_v5, timed_rx_v6, user_defined_v2, user_defined_v3,
}
use cdp_go.Cdp.Result.{ok, ◌>>=◌}
use cdp_go.Cdp.Serial.{hex, upper}

-- `registryEntry`.
pub record RegistryEntry : Type 0 where
  pub name : Bytes
  pub subject : Bytes
  pub decode : Bytes → Decoded Payload

abbrev entry : {A : Type 0} → String → String → (A → Payload) → (Bytes → Decoded A) → RegistryEntry
entry name subject item decode_item = record {
  name = codes name;
  subject = codes subject;
  decode = λ b. decode_item b >>= λ a. ok (item a);
}

unfoldable pub registry : List (ℕ × RegistryEntry)
registry =
    (
      0x010d,
      entry "NodeStatusChangeV2" "node_status_change" node_status_change_v2
          decode_node_status_change_v2,
    )
    ∷ (
      0x011a,
      entry "CDPStreamInformation" "cdp_stream_information" cdp_stream_information
          decode_cdp_stream_information,
    )
    ∷ (
      0x011b,
      entry "HostnameAnnounce" "hostname_announce" hostname_announce decode_hostname_announce,
    )
    ∷ (
      0x011c,
      entry "InstanceAnnounce" "instance_announce" instance_announce decode_instance_announce,
    )
    ∷ (
      0x0121,
      entry "AppSettingsChunk" "app_settings_chunk" app_settings_chunk decode_app_settings_chunk,
    )
    ∷ (0x0127, entry "DistanceV2" "distance" distance_v2 decode_distance_v2)
    ∷ (0x0135, entry "PositionV3" "position" position_v3 decode_position_v3)
    ∷ (
      0x0136,
      entry "AnchorPositionStatusV3" "anchor_position_status" anchor_position_status_v3
          decode_anchor_position_status_v3,
    )
    ∷ (
      0x0137,
      entry "DeviceActivityState" "device_activity_state" device_activity_state
          decode_device_activity_state,
    )
    ∷ (
      0x0138,
      entry "DeviceHardwareStatusV2" "device_hardware_status" device_hardware_status_v2
          decode_device_hardware_status_v2,
    )
    ∷ (0x0139, entry "AccelerometerV2" "accelerometer" accelerometer_v2 decode_accelerometer_v2)
    ∷ (0x013a, entry "GyroscopeV2" "gyroscope" gyroscope_v2 decode_gyroscope_v2)
    ∷ (0x013b, entry "MagnetometerV2" "magnetometer" magnetometer_v2 decode_magnetometer_v2)
    ∷ (0x013c, entry "PressureV2" "pressure" pressure_v2 decode_pressure_v2)
    ∷ (0x013d, entry "QuaternionV2" "quaternion" quaternion_v2 decode_quaternion_v2)
    ∷ (0x013e, entry "TemperatureV2" "temperature" temperature_v2 decode_temperature_v2)
    ∷ (0x013f, entry "DeviceNames" "device_names" device_names decode_device_names)
    ∷ (0x0140, entry "Synchronization" "synchronization" synchronization decode_synchronization)
    ∷ (0x0141, entry "RoleReport" "role_report" role_report decode_role_report)
    ∷ (0x0148, entry "UserDefinedV2" "user_defined" user_defined_v2 decode_user_defined_v2)
    ∷ (0x0149, entry "NetworkTime" "network_time" network_time decode_network_time)
    ∷ (0x014a, entry "AnchorHealthV5" "anchor_health" anchor_health_v5 decode_anchor_health_v5)
    ∷ (
      0x014c,
      entry "GlobalPingTimingReportV1" "global_ping_timing_report" global_ping_timing_report_v1
          decode_global_ping_timing_report_v1,
    )
    ∷ (
      0x015a,
      entry "NtRealTimeMappingV1" "nt_realtime_mapping" nt_real_time_mapping_v1
          decode_nt_real_time_mapping_v1,
    )
    ∷ (
      0x0160,
      entry "BootloadProgress" "bootload_progress" bootload_progress decode_bootload_progress,
    )
    ∷ (
      0x0161,
      entry "AnchorPositionStatusV4" "anchor_position_status" anchor_position_status_v4
          decode_anchor_position_status_v4,
    )
    ∷ (0x0163, entry "LinkMDStatus" "link_md_status" link_md_status decode_link_md_status)
    ∷ (
      0x0164,
      entry "PolarCoordinatesV1" "polar_coordinates" polar_coordinates_v1
          decode_polar_coordinates_v1,
    )
    ∷ (
      0x016a,
      entry "BoundingBoxReport" "bounding_box_report" bounding_box_report
          decode_bounding_box_report,
    )
    ∷ (
      0x016b,
      entry "BoundingCylinderReport" "bounding_cylinder_report" bounding_cylinder_report
          decode_bounding_cylinder_report,
    )
    ∷ (
      0x0171,
      entry "ImageDiscoveryV2" "image_discovery" image_discovery_v2 decode_image_discovery_v2,
    )
    ∷ (0x0178, entry "QuaternionV3" "quaternion" quaternion_v3 decode_quaternion_v3)
    ∷ (0x0179, entry "UserDefinedV3" "user_defined" user_defined_v3 decode_user_defined_v3)
    ∷ (0x017a, entry "AccelerometerV3" "accelerometer" accelerometer_v3 decode_accelerometer_v3)
    ∷ (0x017b, entry "GyroscopeV3" "gyroscope" gyroscope_v3 decode_gyroscope_v3)
    ∷ (0x017c, entry "MagnetometerV3" "magnetometer" magnetometer_v3 decode_magnetometer_v3)
    ∷ (
      0x8009,
      entry "ImageDiscoveryV1" "image_discovery" image_discovery_v1 decode_image_discovery_v1,
    )
    ∷ (0x802c, entry "TimedRxV5" "timed_rx" timed_rx_v5 decode_timed_rx_v5)
    ∷ (0x802d, entry "TickV4" "tick" tick_v4 decode_tick_v4)
    ∷ (0x802f, entry "PingV5" "ping" ping_v5 decode_ping_v5)
    ∷ (0x80b2, entry "TickV5" "tick" tick_v5 decode_tick_v5)
    ∷ (0x80b3, entry "TimedRxV6" "timed_rx" timed_rx_v6 decode_timed_rx_v6)
    ∷ (0x80c0, entry "DeviceColor" "device_color" device_color decode_device_color)
    ∷ (0x80d4, entry "DeviceStatusV3" "device_status" device_status_v3 decode_device_status_v3)
    ∷ (
      0x80da,
      entry "ClearDeviceColor" "clear_device_color" clear_device_color decode_clear_device_color,
    )
    ∷ (
      0x80db,
      entry "GeofencerZoneInfo" "geofencer_zone_info" geofencer_zone_info
          decode_geofencer_zone_info,
    )
    ∷ (0x80dc, entry "TagZoneInfo" "tag_zone_info" tag_zone_info decode_tag_zone_info)
    ∷ (0x80dd, entry "DrawPrism" "draw_prism" draw_prism decode_draw_prism)
    ∷ (0x80de, entry "ClearObject" "clear_object" clear_object decode_clear_object)
    ∷ []

-- `fmt.Sprintf("0x%04X", tid)`.
unfoldable pub hex_type : ℕ → Bytes
unfolding hex
hex_type tid = codes "0x" ++ hex upper 4 tid

-- The loop at the end of `init`.
unfoldable pub type_hexes : List (ℕ × Bytes)
unfolding registry hex_type
type_hexes = map (λ (p : ℕ × RegistryEntry). (p.0, hex_type p.0)) registry
