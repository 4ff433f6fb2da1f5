-- ===== src/Lockfree.antt =====
-- src/transport/lockfree.rs.
pub mod Map
pub mod Interface
pub mod Queue
pub mod Counter
mod Tests
