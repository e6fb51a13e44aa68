-- ===== src/Icmp.antt =====
-- pkg/icmp.
pub mod Enum
pub mod Message
pub mod Text
pub mod Echo
pub mod Answer
pub mod Ping
mod Tests
