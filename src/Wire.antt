-- ===== src/Wire.antt =====
-- The byte formats of core/: stream frames, HELLO, datagram frames and control messages.
pub mod Result
pub mod Bytes
pub mod Canonical
pub mod FrameType
pub mod Frame
pub mod Hello
pub mod Datagram
