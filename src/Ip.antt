-- ===== src/Ip.antt =====
-- pkg/ip.
pub mod Address
pub mod ProtoType
pub mod Iface
pub mod Routing
pub mod Header
pub mod Text
pub mod Protocol
pub mod Delivery
pub mod Transfer
pub mod Resolution
pub mod Setup
mod Tests
