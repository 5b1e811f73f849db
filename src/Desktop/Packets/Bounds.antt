-- ===== src/Desktop/Packets/Bounds.antt =====
-- The lengths that `handlePacket` of TON-Tunnel/WintunLwipBridge.cpp hands on.
use ton_tunnel.Base.{
  ℕ, ◌+◌, ◌*◌, ◌≤◌, ◌||◌, Bytes, length, get_or, drop, ltb, ◌==◌, bit_and, Bool-cases, inl, inr,
  arith,
}
use ton_tunnel.Wire.{read_u16}
use ton_tunnel.Desktop.Packets.{Route, dropped, to_lwip, to_dns, route_protocol, handle_packet}

-- What is handed on lies within the packet, and has room for its headers.
abbrev pub IsWithin : Bytes → Route → Type 0
IsWithin bytes dropped = Unit
IsWithin bytes (to_lwip total) = (20 ≤ total) × (total ≤ length bytes)
IsWithin bytes (to_dns total) = (28 ≤ total) × (total ≤ length bytes)

route_protocol-IsWithin :
    (protocol ihl total : ℕ) (bytes : Bytes)
    → 20 ≤ ihl
    → ihl ≤ total
    → total ≤ length bytes
    → IsWithin bytes (route_protocol protocol ihl total bytes)
unfolding route_protocol
route_protocol-IsWithin protocol ihl total bytes hi ht hl =
    elim (Bool-cases ((protocol == 1) || (protocol == 6))) [
      | inl direct ↦ rw (direct, route_protocol) (omega arith, hl)
      | inr other ↦ elim (Bool-cases (protocol == 17)) [
        | inr neither ↦ rw (other, route_protocol, neither) tt
        | inl udp ↦ elim (Bool-cases (ltb total (ihl + 8))) [
          | inl short ↦ rw (other, route_protocol, udp, short) tt
          | inr whole ↦
              let room : ihl + 8 ≤ total = ground (arith, whole) in
              elim (Bool-cases (read_u16 (drop (ihl + 2) bytes) == 53)) [
                | inl dns ↦ rw (other, route_protocol, udp, whole, dns) (omega arith, hl)
                | inr elsewhere ↦ rw (other, route_protocol, udp, whole, elsewhere) tt
              ]
        ]
      ]
    ]

-- Whatever packet comes, the length handed to lwIP or to the DNS handler lies within the packet
-- and has room for the IPv4 header, and for the DNS handler for the UDP header too.
pub handle_packet-IsWithin : (bytes : Bytes) → IsWithin bytes (handle_packet bytes)
unfolding handle_packet
handle_packet-IsWithin bytes =
    let ihl = bit_and (get_or bytes 0 0) 0x0F * 4 in
    let total = read_u16 (drop 2 bytes) in
    elim (Bool-cases (ltb (length bytes) 20)) [
      | inl short ↦ rw (short, handle_packet) tt
      | inr long ↦ elim (Bool-cases (ltb ihl 20 || ltb total ihl || ltb (length bytes) total)) [
        | inl wrong ↦ rw (long, handle_packet, wrong) tt
        | inr right ↦
            let low : 20 ≤ ihl = ground (arith, right) in
            let mid : ihl ≤ total = ground (arith, right) in
            let high : total ≤ length bytes = ground (arith, right) in
            rw (long, handle_packet, right)
              (route_protocol-IsWithin (get_or bytes 9 0) ihl total bytes low mid high)
      ]
    ]
