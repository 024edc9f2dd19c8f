-- ===== src/Http2.antt =====
-- The HTTP/2 layer: src/http2 and include/coroute/http2.
pub mod Frame
pub mod Hpack
pub mod Stream
pub mod Connection
mod Tests
