-- ===== src/Scylla.antt =====
-- scylla/src/lib.rs: the mix format with fragmentation.
pub mod Primitives
pub mod Crypto
pub mod Aont
pub mod Onion
pub mod Api
mod Toy
mod Tests
