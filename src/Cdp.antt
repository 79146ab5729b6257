-- ===== src/Cdp.antt =====
-- pkg/cdp: the parser of CDP packets.
pub mod Result
pub mod Readers
pub mod Serial
pub mod ItemError
pub mod Items
pub mod Payload
pub mod Registry
pub mod Packet
pub mod Unknowns
