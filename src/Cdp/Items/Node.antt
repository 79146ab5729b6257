-- ===== src/Cdp/Items/Node.antt =====
-- The node, link and role items of pkg/cdp/items.go, with their decoders.
pub mod Framing
pub mod Wire
use cdp_go.Base.{Bytes, if◌then◌else◌, length, ltb, ℕ}
use cdp_go.Cdp.ItemError.{Decoded, short}
use cdp_go.Cdp.Items.Tail.{null_strip}
use cdp_go.Cdp.Readers.{slice, slice_from, u16, u32, u8}
use cdp_go.Cdp.Result.{err, ok, ◌>>=◌}
use cdp_go.Cdp.Serial.{Serial}

pub record NodeStatusChangeV2 : Type 0 where
  pub serial_number : Serial
  pub interface_id : ℕ
  pub node_status : ℕ

unfoldable pub decode_node_status_change_v2 : Bytes → Decoded NodeStatusChangeV2
decode_node_status_change_v2 b = if ltb (length b) 6 then err short else do
  serial_number ← u32 b 0
  interface_id ← u8 b 4
  node_status ← u8 b 5
  ok (record {
    serial_number = serial_number;
    interface_id = interface_id;
    node_status = node_status;
  })

pub record LinkMdStatus : Type 0 where
  pub port_number : ℕ
  pub cable_condition : ℕ
  pub distance_to_fault : ℕ

unfoldable pub decode_link_md_status : Bytes → Decoded LinkMdStatus
decode_link_md_status b = if ltb (length b) 6 then err short else do
  port_number ← u8 b 0
  cable_condition ← u8 b 1
  distance_to_fault ← u32 b 2
  ok (record {
    port_number = port_number;
    cable_condition = cable_condition;
    distance_to_fault = distance_to_fault;
  })

pub record Synchronization : Type 0 where
  pub max_tx_sync_count : ℕ
  pub current_tx_sync_count : ℕ
  pub max_rx_sync_count : ℕ
  pub current_rx_sync_count : ℕ

unfoldable pub decode_synchronization : Bytes → Decoded Synchronization
decode_synchronization b = if ltb (length b) 8 then err short else do
  max_tx_sync_count ← u16 b 0
  current_tx_sync_count ← u16 b 2
  max_rx_sync_count ← u16 b 4
  current_rx_sync_count ← u16 b 6
  ok (record {
    max_tx_sync_count = max_tx_sync_count;
    current_tx_sync_count = current_tx_sync_count;
    max_rx_sync_count = max_rx_sync_count;
    current_rx_sync_count = current_rx_sync_count;
  })

pub record RoleReport : Type 0 where
  pub role_id : ℕ
  pub max_quantity : ℕ
  pub active_quantity : ℕ
  pub role_name : Bytes

unfoldable pub decode_role_report : Bytes → Decoded RoleReport
decode_role_report b = if ltb (length b) 6 then err short else do
  role_id ← u16 b 0
  max_quantity ← u16 b 2
  active_quantity ← u16 b 4
  role_name ← slice_from b 6
  ok (record {
    role_id = role_id;
    max_quantity = max_quantity;
    active_quantity = active_quantity;
    role_name = null_strip role_name;
  })

pub record BootloadProgress : Type 0 where
  pub serial_number : Serial
  pub last_received_total_path_rssi : ℕ
  pub last_heard_packet_time : ℕ
  pub flags : Bytes
  pub max_sectors_per_flag : ℕ
  pub last_max_sector_flag : ℕ
  pub percentage : ℕ

unfoldable pub decode_bootload_progress : Bytes → Decoded BootloadProgress
decode_bootload_progress b = if ltb (length b) 36 then err short else do
  serial_number ← u32 b 0
  last_received_total_path_rssi ← u8 b 4
  last_heard_packet_time ← u16 b 5
  max_sectors_per_flag ← u8 b 32
  last_max_sector_flag ← u8 b 33
  percentage ← u16 b 34
  flags ← slice b 7 32
  ok (record {
    serial_number = serial_number;
    last_received_total_path_rssi = last_received_total_path_rssi;
    last_heard_packet_time = last_heard_packet_time;
    flags = flags;
    max_sectors_per_flag = max_sectors_per_flag;
    last_max_sector_flag = last_max_sector_flag;
    percentage = percentage;
  })
