-- ===== src/Desktop.antt =====
-- The Windows client, TON-Tunnel/: its codec, its core and its backend, its SOCKS server and its
-- packet bridge.
pub mod Codec
pub mod Core
pub mod Direct
pub mod Socks
pub mod Packets
