-- ===== src/Arp.antt =====
-- pkg/arp.
pub mod Cache
pub mod Header
pub mod Text
pub mod Protocol
pub mod Table
pub mod Learning
pub mod Answers
pub mod View
mod Tests
pub mod Search
