-- ===== src/Packet.antt =====
-- src/packet.rs: the wire format.
pub mod Flags
pub mod Header
pub mod Message
pub mod Ids
pub mod Compress
pub mod Shared
pub mod Tests
