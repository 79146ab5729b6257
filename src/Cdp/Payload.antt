-- ===== src/Cdp/Payload.antt =====
-- `Item.Payload` of pkg/cdp/cdp.go: the Go interface value as a sum, a constructor for each
-- struct, and `Unknown` of pkg/cdp/unknown.go.
pub mod Wire
use cdp_go.Base.{Bytes, ℕ}
use cdp_go.Cdp.Items.Anchor.{
  AnchorHealthV5, AnchorPositionStatusV3, AnchorPositionStatusV4, GlobalPingTimingReportV1,
}
use cdp_go.Cdp.Items.Announce.{
  AppSettingsChunk, CdpStreamInformation, DeviceNames, HostnameAnnounce, ImageDiscoveryV1,
  ImageDiscoveryV2, InstanceAnnounce, UserDefinedV2, UserDefinedV3,
}
use cdp_go.Cdp.Items.Device.{
  ClearDeviceColor, DeviceActivityState, DeviceColor, DeviceHardwareStatusV2, DeviceStatusV3,
  PressureV2, TemperatureV2,
}
use cdp_go.Cdp.Items.Motion.{
  AccelerometerV2, AccelerometerV3, GyroscopeV2, GyroscopeV3, MagnetometerV2, MagnetometerV3,
  QuaternionV2, QuaternionV3,
}
use cdp_go.Cdp.Items.Node.{
  BootloadProgress, LinkMdStatus, NodeStatusChangeV2, RoleReport, Synchronization,
}
use cdp_go.Cdp.Items.Position.{
  BoundingBoxReport, BoundingCylinderReport, DistanceV2, NetworkTime, NtRealTimeMappingV1,
  PolarCoordinatesV1, PositionV3,
}
use cdp_go.Cdp.Items.Uwb.{PingV5, TickV4, TickV5, TimedRxV5, TimedRxV6}
use cdp_go.Cdp.Items.Zones.{ClearObject, DrawPrism, GeofencerZoneInfo, TagZoneInfo}

pub record Unknown : Type 0 where
  pub type_id : ℕ
  pub raw : Bytes

pub data Payload : Type 0 where
  node_status_change_v2 : NodeStatusChangeV2 → Payload
  cdp_stream_information : CdpStreamInformation → Payload
  hostname_announce : HostnameAnnounce → Payload
  instance_announce : InstanceAnnounce → Payload
  app_settings_chunk : AppSettingsChunk → Payload
  distance_v2 : DistanceV2 → Payload
  position_v3 : PositionV3 → Payload
  anchor_position_status_v3 : AnchorPositionStatusV3 → Payload
  device_activity_state : DeviceActivityState → Payload
  device_hardware_status_v2 : DeviceHardwareStatusV2 → Payload
  accelerometer_v2 : AccelerometerV2 → Payload
  gyroscope_v2 : GyroscopeV2 → Payload
  magnetometer_v2 : MagnetometerV2 → Payload
  pressure_v2 : PressureV2 → Payload
  quaternion_v2 : QuaternionV2 → Payload
  temperature_v2 : TemperatureV2 → Payload
  device_names : DeviceNames → Payload
  synchronization : Synchronization → Payload
  role_report : RoleReport → Payload
  user_defined_v2 : UserDefinedV2 → Payload
  network_time : NetworkTime → Payload
  anchor_health_v5 : AnchorHealthV5 → Payload
  global_ping_timing_report_v1 : GlobalPingTimingReportV1 → Payload
  nt_real_time_mapping_v1 : NtRealTimeMappingV1 → Payload
  bootload_progress : BootloadProgress → Payload
  anchor_position_status_v4 : AnchorPositionStatusV4 → Payload
  link_md_status : LinkMdStatus → Payload
  polar_coordinates_v1 : PolarCoordinatesV1 → Payload
  bounding_box_report : BoundingBoxReport → Payload
  bounding_cylinder_report : BoundingCylinderReport → Payload
  image_discovery_v2 : ImageDiscoveryV2 → Payload
  quaternion_v3 : QuaternionV3 → Payload
  user_defined_v3 : UserDefinedV3 → Payload
  accelerometer_v3 : AccelerometerV3 → Payload
  gyroscope_v3 : GyroscopeV3 → Payload
  magnetometer_v3 : MagnetometerV3 → Payload
  image_discovery_v1 : ImageDiscoveryV1 → Payload
  timed_rx_v5 : TimedRxV5 → Payload
  tick_v4 : TickV4 → Payload
  ping_v5 : PingV5 → Payload
  tick_v5 : TickV5 → Payload
  timed_rx_v6 : TimedRxV6 → Payload
  device_color : DeviceColor → Payload
  device_status_v3 : DeviceStatusV3 → Payload
  clear_device_color : ClearDeviceColor → Payload
  geofencer_zone_info : GeofencerZoneInfo → Payload
  tag_zone_info : TagZoneInfo → Payload
  draw_prism : DrawPrism → Payload
  clear_object : ClearObject → Payload
  unknown : Unknown → Payload
