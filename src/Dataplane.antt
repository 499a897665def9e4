-- ===== src/Dataplane.antt =====
-- src/dataplane: from a client's first bytes to the connection that is opened for it.
pub mod Hash
pub mod Bytes
pub mod Sni
pub mod Varint
pub mod Frames
pub mod Quic
pub mod Host
pub mod Forward
pub mod Tcp
pub mod Session
