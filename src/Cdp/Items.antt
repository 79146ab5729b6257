-- ===== src/Cdp/Items.antt =====
-- pkg/cdp/items.go, a module for each family of data items.
pub mod Tail
pub mod Position
pub mod Motion
pub mod Device
pub mod Anchor
pub mod Node
pub mod Uwb
pub mod Announce
pub mod Zones
