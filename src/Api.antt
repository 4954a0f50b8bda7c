-- ===== src/Api.antt =====
-- api/: the library of the host computer.
pub mod Types
pub mod Boost
pub mod Transport
pub mod Ownership
