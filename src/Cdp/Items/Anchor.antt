-- ===== src/Cdp/Items/Anchor.antt =====
-- The anchor items of pkg/cdp/items.go, with their decoders.
pub mod Framing
use cdp_go.Base.{Bytes, List, if◌then◌else◌, length, ltb, ℕ}
use cdp_go.Base.Int.{ℤ}
use cdp_go.Cdp.ItemError.{Decoded, short}
use cdp_go.Cdp.Items.Tail.{entries, read_all}
use cdp_go.Cdp.Readers.{i16, slice_from, u16, u32, u64, u8}
use cdp_go.Cdp.Result.{err, ok, ◌>>=◌}
use cdp_go.Cdp.Serial.{Serial}

pub record PositionAnchorStatus : Type 0 where
  pub anchor_serial_number : Serial
  pub anchor_interface_id : ℕ
  pub status : ℕ
  pub first_path : ℤ
  pub total_path : ℤ
  pub quality : ℕ

unfoldable pub decode_position_anchor_status : Bytes → Decoded PositionAnchorStatus
decode_position_anchor_status rest = do
  anchor_serial_number ← u32 rest 0
  anchor_interface_id ← u8 rest 4
  status ← u8 rest 5
  first_path ← i16 rest 6
  total_path ← i16 rest 8
  quality ← u16 rest 10
  ok (record {
    anchor_serial_number = anchor_serial_number;
    anchor_interface_id = anchor_interface_id;
    status = status;
    first_path = first_path;
    total_path = total_path;
    quality = quality;
  })

pub record PositionAnchorStatusV4Entry : Type 0 where
  pub anchor_serial_number : Serial
  pub anchor_interface_id : ℕ
  pub status : ℕ
  pub quality : ℕ

unfoldable pub decode_position_anchor_status_v4_entry : Bytes → Decoded PositionAnchorStatusV4Entry
decode_position_anchor_status_v4_entry rest = do
  anchor_serial_number ← u32 rest 0
  anchor_interface_id ← u8 rest 4
  status ← u8 rest 5
  quality ← u16 rest 6
  ok (record {
    anchor_serial_number = anchor_serial_number;
    anchor_interface_id = anchor_interface_id;
    status = status;
    quality = quality;
  })

pub record FullDeviceId : Type 0 where
  pub serial_number : Serial
  pub interface_id : ℕ

unfoldable pub decode_full_device_id : Bytes → Decoded FullDeviceId
decode_full_device_id rest = do
  serial_number ← u32 rest 0
  interface_id ← u8 rest 4
  ok (record { serial_number = serial_number; interface_id = interface_id })

pub record AnchorPositionStatusV3 : Type 0 where
  pub tag_serial_number : Serial
  pub network_time : ℕ
  pub anchor_status_array : List PositionAnchorStatus

unfoldable pub decode_anchor_position_status_v3 : Bytes → Decoded AnchorPositionStatusV3
decode_anchor_position_status_v3 b = if ltb (length b) 12 then err short else do
  tag_serial_number ← u32 b 0
  network_time ← u64 b 4
  rest ← slice_from b 12
  anchor_status_array ← entries 12 decode_position_anchor_status rest
  ok (record {
    tag_serial_number = tag_serial_number;
    network_time = network_time;
    anchor_status_array = anchor_status_array;
  })

pub record AnchorPositionStatusV4 : Type 0 where
  pub tag_serial_number : Serial
  pub network_time : ℕ
  pub anchor_status_array : List PositionAnchorStatusV4Entry

unfoldable pub decode_anchor_position_status_v4 : Bytes → Decoded AnchorPositionStatusV4
decode_anchor_position_status_v4 b = if ltb (length b) 12 then err short else do
  tag_serial_number ← u32 b 0
  network_time ← u64 b 4
  rest ← slice_from b 12
  anchor_status_array ← entries 8 decode_position_anchor_status_v4_entry rest
  ok (record {
    tag_serial_number = tag_serial_number;
    network_time = network_time;
    anchor_status_array = anchor_status_array;
  })

pub record AnchorHealthV5 : Type 0 where
  pub serial_number : Serial
  pub interface_id : ℕ
  pub ticks_reported : ℕ
  pub timed_rxs_reported : ℕ
  pub beacons_reported : ℕ
  pub beacons_discarded : ℕ
  pub beacons_late : ℕ
  pub average_quality : ℕ
  pub report_period : ℕ
  pub interanchor_comms_error_code : ℕ
  pub bad_paired_anchors : List FullDeviceId

unfoldable pub decode_anchor_health_v5 : Bytes → Decoded AnchorHealthV5
decode_anchor_health_v5 b = if ltb (length b) 29 then err short else do
  serial_number ← u32 b 0
  interface_id ← u8 b 4
  ticks_reported ← u32 b 5
  timed_rxs_reported ← u32 b 9
  beacons_reported ← u32 b 13
  beacons_discarded ← u32 b 17
  beacons_late ← u32 b 21
  average_quality ← u16 b 25
  report_period ← u8 b 27
  interanchor_comms_error_code ← u8 b 28
  rest ← slice_from b 29
  bad_paired_anchors ← entries 5 decode_full_device_id rest
  ok (record {
    serial_number = serial_number;
    interface_id = interface_id;
    ticks_reported = ticks_reported;
    timed_rxs_reported = timed_rxs_reported;
    beacons_reported = beacons_reported;
    beacons_discarded = beacons_discarded;
    beacons_late = beacons_late;
    average_quality = average_quality;
    report_period = report_period;
    interanchor_comms_error_code = interanchor_comms_error_code;
    bad_paired_anchors = bad_paired_anchors;
  })

pub record GlobalPingTimingReportV1 : Type 0 where
  pub initial_ping_count : ℕ
  pub position_calculation_delay : ℕ
  pub arrival_time_counts : List ℕ

unfoldable pub decode_global_ping_timing_report_v1 : Bytes → Decoded GlobalPingTimingReportV1
decode_global_ping_timing_report_v1 b = if ltb (length b) 8 then err short else do
  rest ← slice_from b 8
  arrival_time_counts ← read_all u32 4 rest
  initial_ping_count ← u32 b 0
  position_calculation_delay ← u32 b 4
  ok (record {
    initial_ping_count = initial_ping_count;
    position_calculation_delay = position_calculation_delay;
    arrival_time_counts = arrival_time_counts;
  })
