-- ===== src/Egress.antt =====
-- The egress node, ton-egress-node/src/egress_node.cpp.
pub mod State
pub mod Policy
pub mod Connect
pub mod Streams
pub mod Open
pub mod Relay
pub mod Run
pub mod Invariant
pub mod Frames
