-- ===== src/Protocol.antt =====
-- The wire protocol: teensy-io-python/teensy_io/protocol.
pub mod Commands
pub mod Errors
pub mod Exec
pub mod Frames
pub mod Crc
pub mod Packet
pub mod Decoder
