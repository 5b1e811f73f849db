-- ===== src/Desktop/Packets/Dns/Ends.antt =====
-- The loop of parseDnsName in TON-Tunnel/WintunLwipBridge.cpp comes to an end.
use ton_tunnel.Base.{ℕ, zero, suc, ◌+◌, ◌-◌, ◌*◌, ◌<◌, ◌≡◌, ◌≢◌, ap, Bytes, length, get_or, arith}
use ton_tunnel.Desktop.Packets.Dns.{
  exhausted, NameState, end_name, jump, read_label, pointer_at, name_loop, start_name,
  parse_dns_name,
}

-- The rounds that a state can still make: a label moves on within the packet, a jump counts.
abbrev rounds_left : Bytes → NameState → ℕ
rounds_left pkt s = (20 - s.jumps) * (length pkt + 1) + (length pkt - s.off)

jump_falls :
    (pkt : Bytes) (ptr : ℕ) (s : NameState)
    → s.jumps < 20
    → s.off < length pkt
    → rounds_left pkt (jump ptr s) < rounds_left pkt s
unfolding jump
jump_falls pkt ptr s h k =
    let less : 20 - s.jumps ≡ (20 - (s.jumps + 1)) + 1 = omega arith in
    omega (arith, ap (λ (t : ℕ). t * (length pkt + 1)) less)

label_falls :
    (l : ℕ) (pkt : Bytes) (s : NameState)
    → s.off < length pkt
    → rounds_left pkt (read_label l pkt s) < rounds_left pkt s
unfolding read_label
label_falls l pkt s h = omega arith

name_loop_ends :
    (fuel : ℕ) (pkt : Bytes) (s : NameState)
    → rounds_left pkt s < fuel
    → name_loop fuel pkt s ≢ exhausted
unfolding name_loop end_name
name_loop_ends zero pkt s h = absurd (omega arith)
name_loop_ends (suc fuel) pkt s h =
    let l = get_or pkt s.off 0 in
    let ptr = pointer_at pkt s.off in
    ground (
      arith,
      jump_falls pkt ptr s,
      label_falls l pkt s,
      name_loop_ends fuel pkt (jump ptr s),
      name_loop_ends fuel pkt (read_label l pkt s),
    )

-- Whatever the packet holds, the loop over a name's labels and pointers ends.
pub parse_dns_name_ends : (pkt : Bytes) (off : ℕ) → parse_dns_name pkt off ≢ exhausted
unfolding parse_dns_name
parse_dns_name_ends pkt off = name_loop_ends _ pkt (start_name off) (omega arith)
