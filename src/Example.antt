-- ===== src/Example.antt =====
-- example: the echo server over UDP.
pub mod UdpEcho
mod Tests
