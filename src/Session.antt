-- ===== src/Session.antt =====
-- The per-connection bookkeeping: src/transport/request_manager.rs and
-- src/transport/connection_state.rs.
pub mod Requests
pub mod States
mod Tests
