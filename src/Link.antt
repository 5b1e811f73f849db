-- ===== src/Link.antt =====
-- The two ends together: what the egress node of ton-egress-node/ sends reaches the queues of the
-- client core of TON-Tunnel/, and what the core sends reaches the node's handlers.
pub mod Downstream
pub mod Upstream
pub mod Uplink
pub mod Address
pub mod Handshake
