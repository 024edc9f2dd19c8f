-- ===== src/Http2/Connection.antt =====
-- src/http2/connection.cpp, include/coroute/http2/connection.hpp, and the sending half of
-- src/http2/stream.cpp.
pub mod State
pub mod Socket
pub mod Sending
pub mod Handlers
pub mod Headers
pub mod Control
pub mod Preface
pub mod Loop
pub mod Writes
pub mod Fragments
pub mod Keeps
pub mod Kept
pub mod Reachable
pub mod Terminates
pub mod Settings
pub mod Windows
mod Tests
pub mod Chunks
pub mod Upgrade
pub mod Delivery
pub mod Removed
pub mod Overflow
