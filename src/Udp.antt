-- ===== src/Udp.antt =====
-- pkg/udp.
pub mod Endpoint
pub mod Header
pub mod Text
pub mod Pcb
pub mod Datagram
pub mod Sockets
mod Tests
