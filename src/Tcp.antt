-- ===== src/Tcp.antt =====
-- src/adapters/tcp.rs: the read buffer and the event loop of a TCP connection.
pub mod Buffer
pub mod Loop
mod Tests
