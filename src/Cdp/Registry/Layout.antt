-- ===== src/Cdp/Registry/Layout.antt =====
-- The payload lengths of all registered items in one table, and every decoder held to it.
use cdp_go.Base.{All, Bytes, List, Option, [], length, none, some, ℕ, ◌∷◌, ◌≡◌}
use cdp_go.Base.Assoc.{lookup, lookup-All}
use cdp_go.Cdp.ItemError.{Decoded, Framed, short, trailing}
use cdp_go.Cdp.Items.Anchor.{
  decode_anchor_health_v5, decode_anchor_position_status_v3, decode_anchor_position_status_v4,
  decode_global_ping_timing_report_v1,
}
use cdp_go.Cdp.Items.Anchor.Framing.{
  decode_anchor_health_v5-Framed, decode_anchor_position_status_v3-Framed,
  decode_anchor_position_status_v4-Framed, decode_global_ping_timing_report_v1-Framed,
}
use cdp_go.Cdp.Items.Announce.{
  decode_app_settings_chunk, decode_cdp_stream_information, decode_device_names,
  decode_hostname_announce, decode_image_discovery_v1, decode_image_discovery_v2,
  decode_instance_announce, decode_user_defined_v2, decode_user_defined_v3,
}
use cdp_go.Cdp.Items.Announce.Framing.{
  decode_app_settings_chunk-Framed, decode_cdp_stream_information-Framed,
  decode_device_names-Framed, decode_hostname_announce-Framed, decode_image_discovery_v1-Framed,
  decode_image_discovery_v2-Framed, decode_instance_announce-Framed, decode_user_defined_v2-Framed,
  decode_user_defined_v3-Framed,
}
use cdp_go.Cdp.Items.Device.{
  decode_clear_device_color, decode_device_activity_state, decode_device_color,
  decode_device_hardware_status_v2, decode_device_status_v3, decode_pressure_v2,
  decode_temperature_v2,
}
use cdp_go.Cdp.Items.Device.Framing.{
  decode_clear_device_color-Framed, decode_device_activity_state-Framed, decode_device_color-Framed,
  decode_device_hardware_status_v2-Framed, decode_device_status_v3-Framed,
  decode_pressure_v2-Framed, decode_temperature_v2-Framed,
}
use cdp_go.Cdp.Items.Motion.{
  decode_accelerometer_v2, decode_accelerometer_v3, decode_gyroscope_v2, decode_gyroscope_v3,
  decode_magnetometer_v2, decode_magnetometer_v3, decode_quaternion_v2, decode_quaternion_v3,
}
use cdp_go.Cdp.Items.Motion.Framing.{
  decode_accelerometer_v2-Framed, decode_accelerometer_v3-Framed, decode_gyroscope_v2-Framed,
  decode_gyroscope_v3-Framed, decode_magnetometer_v2-Framed, decode_magnetometer_v3-Framed,
  decode_quaternion_v2-Framed, decode_quaternion_v3-Framed,
}
use cdp_go.Cdp.Items.Node.{
  decode_bootload_progress, decode_link_md_status, decode_node_status_change_v2, decode_role_report,
  decode_synchronization,
}
use cdp_go.Cdp.Items.Node.Framing.{
  decode_bootload_progress-Framed, decode_link_md_status-Framed,
  decode_node_status_change_v2-Framed, decode_role_report-Framed, decode_synchronization-Framed,
}
use cdp_go.Cdp.Items.Position.{
  decode_bounding_box_report, decode_bounding_cylinder_report, decode_distance_v2,
  decode_network_time, decode_nt_real_time_mapping_v1, decode_polar_coordinates_v1,
  decode_position_v3,
}
use cdp_go.Cdp.Items.Position.Framing.{
  decode_bounding_box_report-Framed, decode_bounding_cylinder_report-Framed,
  decode_distance_v2-Framed, decode_network_time-Framed, decode_nt_real_time_mapping_v1-Framed,
  decode_polar_coordinates_v1-Framed, decode_position_v3-Framed,
}
use cdp_go.Cdp.Items.Uwb.{
  decode_ping_v5, decode_tick_v4, decode_tick_v5, decode_timed_rx_v5, decode_timed_rx_v6,
}
use cdp_go.Cdp.Items.Uwb.Framing.{
  decode_ping_v5-Framed, decode_tick_v4-Framed, decode_tick_v5-Framed, decode_timed_rx_v5-Framed,
  decode_timed_rx_v6-Framed,
}
use cdp_go.Cdp.Items.Zones.{
  decode_clear_object, decode_draw_prism, decode_geofencer_zone_info, decode_tag_zone_info,
}
use cdp_go.Cdp.Items.Zones.Framing.{
  decode_clear_object-Framed, decode_draw_prism-Framed, decode_geofencer_zone_info-Framed,
  decode_tag_zone_info-Framed,
}
use cdp_go.Cdp.Packet.{decode_item}
use cdp_go.Cdp.Payload.{
  accelerometer_v2, accelerometer_v3, anchor_health_v5, anchor_position_status_v3,
  anchor_position_status_v4, app_settings_chunk, bootload_progress, bounding_box_report,
  bounding_cylinder_report, cdp_stream_information, clear_device_color, clear_object,
  device_activity_state, device_color, device_hardware_status_v2, device_names, device_status_v3,
  distance_v2, draw_prism, geofencer_zone_info, global_ping_timing_report_v1, gyroscope_v2,
  gyroscope_v3, hostname_announce, image_discovery_v1, image_discovery_v2, instance_announce,
  link_md_status, magnetometer_v2, magnetometer_v3, network_time, node_status_change_v2,
  nt_real_time_mapping_v1, ping_v5, polar_coordinates_v1, position_v3, pressure_v2, quaternion_v2,
  quaternion_v3, role_report, synchronization, tag_zone_info, temperature_v2, tick_v4, tick_v5,
  timed_rx_v5, timed_rx_v6, user_defined_v2, user_defined_v3,
}
use cdp_go.Cdp.Registry.{RegistryEntry, registry}
use cdp_go.Cdp.Result.{err, fault, ok, ◌>>=◌}

-- An item of this layout has `fixed` bytes and then entries of `stride` bytes each.
pub record PayloadLayout : Type 0 where
  pub fixed : ℕ
  pub stride : ℕ

abbrev layout : ℕ → ℕ → PayloadLayout
layout fixed stride = record { fixed = fixed; stride = stride }

unfoldable pub layouts : List (ℕ × PayloadLayout)
layouts =
    (0x010d, layout 6 1)
    ∷ (0x011a, layout 17 1)
    ∷ (0x011b, layout 0 1)
    ∷ (0x011c, layout 0 1)
    ∷ (0x0121, layout 260 1)
    ∷ (0x0127, layout 24 1)
    ∷ (0x0135, layout 30 1)
    ∷ (0x0136, layout 12 12)
    ∷ (0x0137, layout 20 1)
    ∷ (0x0138, layout 17 1)
    ∷ (0x0139, layout 25 1)
    ∷ (0x013a, layout 26 1)
    ∷ (0x013b, layout 26 1)
    ∷ (0x013c, layout 20 1)
    ∷ (0x013d, layout 29 1)
    ∷ (0x013e, layout 16 1)
    ∷ (0x013f, layout 4 1)
    ∷ (0x0140, layout 8 1)
    ∷ (0x0141, layout 6 1)
    ∷ (0x0148, layout 4 1)
    ∷ (0x0149, layout 13 1)
    ∷ (0x014a, layout 29 5)
    ∷ (0x014c, layout 8 4)
    ∷ (0x015a, layout 32 1)
    ∷ (0x0160, layout 36 1)
    ∷ (0x0161, layout 12 8)
    ∷ (0x0163, layout 6 1)
    ∷ (0x0164, layout 30 1)
    ∷ (0x016a, layout 24 1)
    ∷ (0x016b, layout 20 1)
    ∷ (0x0171, layout 3 1)
    ∷ (0x0178, layout 31 1)
    ∷ (0x0179, layout 12 1)
    ∷ (0x017a, layout 25 1)
    ∷ (0x017b, layout 26 1)
    ∷ (0x017c, layout 26 1)
    ∷ (0x8009, layout 97 53)
    ∷ (0x802c, layout 45 1)
    ∷ (0x802d, layout 18 1)
    ∷ (0x802f, layout 37 1)
    ∷ (0x80b2, layout 19 1)
    ∷ (0x80b3, layout 37 1)
    ∷ (0x80c0, layout 8 1)
    ∷ (0x80d4, layout 23 1)
    ∷ (0x80da, layout 5 1)
    ∷ (0x80db, layout 64 8)
    ∷ (0x80dc, layout 4 2)
    ∷ (0x80dd, layout 62 8)
    ∷ (0x80de, layout 50 1)
    ∷ []

-- The decoder accepts, refuses and reports as the layout says, and never faults.
abbrev pub Meets : Option PayloadLayout → RegistryEntry → Type 0
Meets none e = ⊥
Meets (some l) e = (b : Bytes) → Framed l.fixed l.stride (length b) (e.decode b)

Framed-map {ℓ κ} :
    {A : Type ℓ} {B : Type κ} (fixed stride n : ℕ) (f : A → B) (r : Decoded A)
    → Framed fixed stride n r
    → Framed fixed stride n (r >>= λ a. ok (f a))
Framed-map fixed stride n f (ok a) h = h
Framed-map fixed stride n f (err short) h = h
Framed-map fixed stride n f (err (trailing k)) h = h
Framed-map fixed stride n f fault h = h

-- A decoder in the registry only wraps the result of the item's own.
wrapped {ℓ κ} :
    {A : Type ℓ} {B : Type κ} (fixed stride : ℕ) (item : A → B) (decode_item : Bytes → Decoded A)
    → ((b : Bytes) → Framed fixed stride (length b) (decode_item b))
    → (b : Bytes) → Framed fixed stride (length b) (decode_item b >>= λ a. ok (item a))
wrapped fixed stride item decode_item h b =
    Framed-map fixed stride (length b) item (decode_item b) (h b)

infixr 5 ◌&◌
abbrev ◌&◌ : {A : Type 0} {B : Type 0} → A → B → A × B
a & b = (a, b)

registry-All : All (λ (p : ℕ × RegistryEntry). Meets (lookup p.0 layouts) p.1) registry
unfolding registry layouts lookup
registry-All =
    wrapped 6 1 node_status_change_v2 decode_node_status_change_v2
      decode_node_status_change_v2-Framed
    & wrapped 17 1 cdp_stream_information decode_cdp_stream_information
        decode_cdp_stream_information-Framed
    & wrapped 0 1 hostname_announce decode_hostname_announce decode_hostname_announce-Framed
    & wrapped 0 1 instance_announce decode_instance_announce decode_instance_announce-Framed
    & wrapped 260 1 app_settings_chunk decode_app_settings_chunk decode_app_settings_chunk-Framed
    & wrapped 24 1 distance_v2 decode_distance_v2 decode_distance_v2-Framed
    & wrapped 30 1 position_v3 decode_position_v3 decode_position_v3-Framed
    & wrapped 12 12 anchor_position_status_v3 decode_anchor_position_status_v3
        decode_anchor_position_status_v3-Framed
    & wrapped 20 1 device_activity_state decode_device_activity_state
        decode_device_activity_state-Framed
    & wrapped 17 1 device_hardware_status_v2 decode_device_hardware_status_v2
        decode_device_hardware_status_v2-Framed
    & wrapped 25 1 accelerometer_v2 decode_accelerometer_v2 decode_accelerometer_v2-Framed
    & wrapped 26 1 gyroscope_v2 decode_gyroscope_v2 decode_gyroscope_v2-Framed
    & wrapped 26 1 magnetometer_v2 decode_magnetometer_v2 decode_magnetometer_v2-Framed
    & wrapped 20 1 pressure_v2 decode_pressure_v2 decode_pressure_v2-Framed
    & wrapped 29 1 quaternion_v2 decode_quaternion_v2 decode_quaternion_v2-Framed
    & wrapped 16 1 temperature_v2 decode_temperature_v2 decode_temperature_v2-Framed
    & wrapped 4 1 device_names decode_device_names decode_device_names-Framed
    & wrapped 8 1 synchronization decode_synchronization decode_synchronization-Framed
    & wrapped 6 1 role_report decode_role_report decode_role_report-Framed
    & wrapped 4 1 user_defined_v2 decode_user_defined_v2 decode_user_defined_v2-Framed
    & wrapped 13 1 network_time decode_network_time decode_network_time-Framed
    & wrapped 29 5 anchor_health_v5 decode_anchor_health_v5 decode_anchor_health_v5-Framed
    & wrapped 8 4 global_ping_timing_report_v1 decode_global_ping_timing_report_v1
        decode_global_ping_timing_report_v1-Framed
    & wrapped 32 1 nt_real_time_mapping_v1 decode_nt_real_time_mapping_v1
        decode_nt_real_time_mapping_v1-Framed
    & wrapped 36 1 bootload_progress decode_bootload_progress decode_bootload_progress-Framed
    & wrapped 12 8 anchor_position_status_v4 decode_anchor_position_status_v4
        decode_anchor_position_status_v4-Framed
    & wrapped 6 1 link_md_status decode_link_md_status decode_link_md_status-Framed
    & wrapped 30 1 polar_coordinates_v1 decode_polar_coordinates_v1
        decode_polar_coordinates_v1-Framed
    & wrapped 24 1 bounding_box_report decode_bounding_box_report decode_bounding_box_report-Framed
    & wrapped 20 1 bounding_cylinder_report decode_bounding_cylinder_report
        decode_bounding_cylinder_report-Framed
    & wrapped 3 1 image_discovery_v2 decode_image_discovery_v2 decode_image_discovery_v2-Framed
    & wrapped 31 1 quaternion_v3 decode_quaternion_v3 decode_quaternion_v3-Framed
    & wrapped 12 1 user_defined_v3 decode_user_defined_v3 decode_user_defined_v3-Framed
    & wrapped 25 1 accelerometer_v3 decode_accelerometer_v3 decode_accelerometer_v3-Framed
    & wrapped 26 1 gyroscope_v3 decode_gyroscope_v3 decode_gyroscope_v3-Framed
    & wrapped 26 1 magnetometer_v3 decode_magnetometer_v3 decode_magnetometer_v3-Framed
    & wrapped 97 53 image_discovery_v1 decode_image_discovery_v1 decode_image_discovery_v1-Framed
    & wrapped 45 1 timed_rx_v5 decode_timed_rx_v5 decode_timed_rx_v5-Framed
    & wrapped 18 1 tick_v4 decode_tick_v4 decode_tick_v4-Framed
    & wrapped 37 1 ping_v5 decode_ping_v5 decode_ping_v5-Framed
    & wrapped 19 1 tick_v5 decode_tick_v5 decode_tick_v5-Framed
    & wrapped 37 1 timed_rx_v6 decode_timed_rx_v6 decode_timed_rx_v6-Framed
    & wrapped 8 1 device_color decode_device_color decode_device_color-Framed
    & wrapped 23 1 device_status_v3 decode_device_status_v3 decode_device_status_v3-Framed
    & wrapped 5 1 clear_device_color decode_clear_device_color decode_clear_device_color-Framed
    & wrapped 64 8 geofencer_zone_info decode_geofencer_zone_info decode_geofencer_zone_info-Framed
    & wrapped 4 2 tag_zone_info decode_tag_zone_info decode_tag_zone_info-Framed
    & wrapped 62 8 draw_prism decode_draw_prism decode_draw_prism-Framed
    & wrapped 50 1 clear_object decode_clear_object decode_clear_object-Framed
    & tt

-- The decoder registered for a type accepts the payloads whose length its layout allows and no
-- others, reports a payload shorter than the fixed part as short and the bytes after the last whole
-- entry as trailing, and never faults.
pub registry-Meets :
    (tid : ℕ) {e : RegistryEntry} → lookup tid registry ≡ some e → Meets (lookup tid layouts) e
registry-Meets tid e =
    lookup-All (λ k (e : RegistryEntry). Meets (lookup k layouts) e) registry registry-All tid e
