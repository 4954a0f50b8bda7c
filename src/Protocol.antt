-- ===== src/Protocol.antt =====
-- protocol/: the wire format library of the repository.
pub mod Bytes
pub mod Errors
pub mod Header
pub mod Crc
mod Tests
