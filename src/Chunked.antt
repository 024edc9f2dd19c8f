-- ===== src/Chunked.antt =====
-- include/coroute/core/chunked.hpp and src/core/chunked.cpp: the chunked transfer coding, the response
-- that writes it and the reader of a body.
pub mod Codec
mod Reader
pub mod Hex
mod Lines
mod Reading
mod Chunks
mod Writer
mod Transfer
mod Ends
mod Sizes
mod Tests
