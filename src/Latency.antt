-- ===== src/Latency.antt =====
-- The simulation of latency-sim/src/main.rs.
pub mod Sources
pub mod Message
pub mod Queue
pub mod Table
pub mod Node
pub mod User
pub mod Simulation
pub mod Invariant
pub mod Route
pub mod Drain
pub mod Fragments
pub mod Service
pub mod Journey
pub mod Toy
pub mod Tests
