-- ===== src/Tests.antt =====
-- The development's theorems at concrete inputs, by part.
pub mod Phone
pub mod World
pub mod Packets
pub mod Backends
pub mod Formats
pub mod Node
pub mod Ends
pub mod Gateways
