-- ===== src/WebSocket.antt =====
-- include/coroute/net/websocket.hpp and src/net/websocket.cpp: WebSocket frames, the connection that
-- receives messages, and the handshake.
mod Frame
mod Masking
mod RoundTrip
mod Connection
mod Handshake
mod Opening
mod Ends
mod Clients
mod Messages
mod Overflow
mod Tests
