-- ===== src/Cdp/Items/Node/Wire.antt =====
-- The wire formats of these items, which their decoders in pkg/cdp/items.go read.
use cdp_go.Base.{Bytes, drop, take, ◌++◌, ◌<◌, ◌^◌, ◌≡◌}
use cdp_go.Cdp.Items.Node.{
  LinkMdStatus, NodeStatusChangeV2, Synchronization, decode_link_md_status,
  decode_node_status_change_v2, decode_synchronization,
}
use cdp_go.Cdp.Readers.{slice, u16, u32, u8}
use cdp_go.Cdp.Readers.Wire.{le, le_value-le}
use cdp_go.Cdp.Result.{ok}

pub record IsNodeStatusChangeV2 (a : NodeStatusChangeV2) : Type 0 where
  pub serial_number : a.serial_number < 2 ^ 32
  pub interface_id : a.interface_id < 2 ^ 8
  pub node_status : a.node_status < 2 ^ 8

unfoldable pub node_status_change_v2_wire : NodeStatusChangeV2 → Bytes
node_status_change_v2_wire a = le 4 a.serial_number ++ le 1 a.interface_id ++ le 1 a.node_status

pub decode_node_status_change_v2-wire :
    (a : NodeStatusChangeV2)
    → IsNodeStatusChangeV2 a
    → decode_node_status_change_v2 (node_status_change_v2_wire a) ≡ ok a
unfolding decode_node_status_change_v2 node_status_change_v2_wire u8 u32 slice le take drop
decode_node_status_change_v2-wire a h = λ i. ok (record {
  serial_number = le_value-le 4 a.serial_number h.serial_number i;
  interface_id = le_value-le 1 a.interface_id h.interface_id i;
  node_status = le_value-le 1 a.node_status h.node_status i;
})

pub record IsLinkMdStatus (a : LinkMdStatus) : Type 0 where
  pub port_number : a.port_number < 2 ^ 8
  pub cable_condition : a.cable_condition < 2 ^ 8
  pub distance_to_fault : a.distance_to_fault < 2 ^ 32

unfoldable pub link_md_status_wire : LinkMdStatus → Bytes
link_md_status_wire a = le 1 a.port_number ++ le 1 a.cable_condition ++ le 4 a.distance_to_fault

pub decode_link_md_status-wire :
    (a : LinkMdStatus) → IsLinkMdStatus a → decode_link_md_status (link_md_status_wire a) ≡ ok a
unfolding decode_link_md_status link_md_status_wire u8 u32 slice le take drop
decode_link_md_status-wire a h = λ i. ok (record {
  port_number = le_value-le 1 a.port_number h.port_number i;
  cable_condition = le_value-le 1 a.cable_condition h.cable_condition i;
  distance_to_fault = le_value-le 4 a.distance_to_fault h.distance_to_fault i;
})

pub record IsSynchronization (a : Synchronization) : Type 0 where
  pub max_tx_sync_count : a.max_tx_sync_count < 2 ^ 16
  pub current_tx_sync_count : a.current_tx_sync_count < 2 ^ 16
  pub max_rx_sync_count : a.max_rx_sync_count < 2 ^ 16
  pub current_rx_sync_count : a.current_rx_sync_count < 2 ^ 16

unfoldable pub synchronization_wire : Synchronization → Bytes
synchronization_wire a =
    le 2 a.max_tx_sync_count
    ++ le 2 a.current_tx_sync_count
    ++ le 2 a.max_rx_sync_count
    ++ le 2 a.current_rx_sync_count

pub decode_synchronization-wire :
    (a : Synchronization)
    → IsSynchronization a
    → decode_synchronization (synchronization_wire a) ≡ ok a
unfolding decode_synchronization synchronization_wire u16 slice le take drop
decode_synchronization-wire a h = λ i. ok (record {
  max_tx_sync_count = le_value-le 2 a.max_tx_sync_count h.max_tx_sync_count i;
  current_tx_sync_count = le_value-le 2 a.current_tx_sync_count h.current_tx_sync_count i;
  max_rx_sync_count = le_value-le 2 a.max_rx_sync_count h.max_rx_sync_count i;
  current_rx_sync_count = le_value-le 2 a.current_rx_sync_count h.current_rx_sync_count i;
})
