-- ===== src/Sphinx.antt =====
-- The Sphinx format of sphinx-benchmarks/src.
pub mod Constants
pub mod Externals
pub mod Payload
pub mod Delays
pub mod Keys
pub mod Filler
pub mod Routing
pub mod Header
pub mod Packet
pub mod Route
pub mod Surb
mod Toy
mod Tests
