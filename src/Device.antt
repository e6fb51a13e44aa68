-- ===== src/Device.antt =====
-- pkg/device.
mod Tests
pub mod EtherAddr
pub mod Frame
pub mod Text
pub mod Kinds
pub mod Reception
pub mod Transmission
pub mod Raw
