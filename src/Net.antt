-- ===== src/Net.antt =====
-- pkg/net.
mod Tests
pub mod Protocol
pub mod Text
pub mod Device
pub mod Registry
pub mod Families
