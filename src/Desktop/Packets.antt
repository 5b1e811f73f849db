-- ===== src/Desktop/Packets.antt =====
-- The IPv4 checksum and the choice of packets in TON-Tunnel/WintunLwipBridge.cpp; its DNS handler and
-- its TCP connections are in Dns and Connections.
pub mod Checksum
pub mod Bounds
pub mod Dns
pub mod Connections
use ton_tunnel.Base.{
  ℕ, ◌+◌, ◌-◌, ◌*◌, ◌/◌, ◌%◌, ◌^◌, List, [], ◌∷◌, Bool, true, false, ◌||◌, Bytes, length, get_or,
  drop, ltb, ◌==◌, if◌then◌else◌, bit_and, bit_or, u16,
}
use ton_tunnel.Wire.{read_u16}

-- The sum with its end-around carry.
unfoldable pub ones_add : ℕ → ℕ → ℕ
ones_add sum w = let s = sum + w in if ltb 0xFFFF s then s - 0xFFFF else s

-- A 16-bit word of two bytes.
unfoldable pub word : ℕ → ℕ → ℕ
word x y = bit_or (u16 (x * 2 ^ 8)) y

-- The loop over the words; an odd byte at the end counts as a word's upper half.
unfoldable pub sum_words : ℕ → Bytes → ℕ
sum_words sum [] = sum
sum_words sum (x ∷ []) = ones_add sum (u16 (x * 2 ^ 8))
sum_words sum (x ∷ y ∷ rest) = sum_words (ones_add sum (word x y)) rest

-- ~sum & 0xFFFF on 32 bits
unfoldable pub ip_csum : Bytes → ℕ
ip_csum bytes = bit_and (2 ^ 32 - 1 - sum_words 0 bytes) 0xFFFF

-- What handlePacket does with a packet: nothing, the lwIP stack with the packet's first bytes, or the
-- DNS handler.
pub data Route : Type 0 where
  dropped : Route
  to_lwip : (total : ℕ) → Route
  to_dns : (total : ℕ) → Route

unfoldable pub route_protocol : ℕ → ℕ → ℕ → Bytes → Route
route_protocol protocol ihl total bytes =
    if (protocol == 1) || (protocol == 6)
    then to_lwip total
    else if protocol == 17
    then if ltb total (ihl + 8)
      then dropped
      else if read_u16 (drop (ihl + 2) bytes) == 53
      then to_dns total
      else dropped
    else dropped

unfoldable pub handle_packet : Bytes → Route
handle_packet bytes =
    let ihl = bit_and (get_or bytes 0 0) 0x0F * 4 in
    let total = read_u16 (drop 2 bytes) in
    if ltb (length bytes) 20
    then dropped
    else if ltb ihl 20 || ltb total ihl || ltb (length bytes) total
    then dropped
    else route_protocol (get_or bytes 9 0) ihl total bytes
