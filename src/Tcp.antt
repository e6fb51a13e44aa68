-- ===== src/Tcp.antt =====
-- pkg/tcp.
pub mod ControlFlag
pub mod Header
pub mod Pcb
pub mod Text
pub mod Queue
pub mod Output
pub mod Segment
pub mod Handshake
pub mod Synchronized
pub mod Arrives
pub mod Calls
pub mod Timer
pub mod Registry
pub mod Frames
pub mod Peers
mod Tests
pub mod Flow
pub mod Invariant
pub mod Reachable
pub mod Diagram
