-- ===== src/Desktop/Packets/Dns.antt =====
-- The DNS part of TON-Tunnel/WintunLwipBridge.cpp: names on the wire, queries, and the reply with
-- its headers. getaddrinfo and inet_addr are parameters; a write behind the end of a buffer, which is
-- undefined behaviour, is none.
pub mod Ends
pub mod Names
pub mod Replies
pub mod Pointers
use ton_tunnel.Base.{
  ℕ, zero, suc, ◌+◌, ◌-◌, ◌*◌, ◌/◌, ◌%◌, ◌^◌, min, List, [], ◌∷◌, ◌++◌, Bool, true, false, not,
  ◌||◌, Option, none, some, Bytes, length, get_or, take, drop, find, is_nil, ltb, leb, ◌==◌,
  if◌then◌else◌, bit_and, bit_or, u8, u16, ℤ, pos, negsuc,
}
use ton_tunnel.Wire.{read_u16, read_u32, digits_u16, digits_u32}
use ton_tunnel.Desktop.Packets.{ip_csum}

-- The int of a difference of two sizes.
unfoldable pub difference : ℕ → ℕ → ℤ
difference a b = if leb b a then pos (a - b) else negsuc (b - a - 1)

-- What parseDnsName returns, with the name that it leaves; `bad` is -1, and `exhausted` is none of its
-- results.
pub data NameResult : Type 0 where
  named : (size : ℤ) (name : Bytes) → NameResult
  bad exhausted : NameResult

-- The dot at the end goes.
unfoldable pub pop_dot : Bytes → Bytes
pop_dot [] = []
pop_dot (c ∷ []) = if c == b'.' then [] else c ∷ []
pop_dot (c ∷ d ∷ s) = c ∷ pop_dot (d ∷ s)

-- The loop's variables.
pub record NameState : Type 0 where
  pub off : ℕ
  pub out : Bytes
  pub jumped : Bool
  pub jumps : ℕ
  pub orig : ℕ

unfoldable pub end_name : NameState → NameResult
end_name s =
    let off = if s.jumped then s.off else s.off + 1 in named (difference off s.orig) (pop_dot s.out)

-- A compression pointer.
unfoldable pub jump : ℕ → NameState → NameState
jump ptr s = record s {
  off = ptr;
  jumped = true;
  jumps = s.jumps + 1;
  orig = if s.jumped then s.orig else s.off + 2;
}

-- A label of l bytes, or as many as there are.
unfoldable pub read_label : ℕ → Bytes → NameState → NameState
read_label l pkt s =
    let off = s.off + 1 in
    let n = min l (length pkt - off) in
    record s { off = off + n; out = s.out ++ take n (drop off pkt) ++ b'.' ∷ [] }

-- (l & 0x3F) << 8 | the byte behind it
unfoldable pub pointer_at : Bytes → ℕ → ℕ
pointer_at pkt off = u16 (bit_or (bit_and (get_or pkt off 0) 0x3F * 2 ^ 8) (get_or pkt (off + 1) 0))

unfoldable pub name_loop : ℕ → Bytes → NameState → NameResult
name_loop zero pkt s = exhausted
name_loop (suc fuel) pkt s =
    let l = get_or pkt s.off 0 in
    let ptr = pointer_at pkt s.off in
    let at_pointer = name_loop fuel pkt (jump ptr s) in
    let at_label = name_loop fuel pkt (read_label l pkt s) in
    if leb (length pkt) s.off || leb 20 s.jumps
    then bad
    else if l == 0
    then end_name s
    else if bit_and l 0xC0 == 0xC0
    then if leb (length pkt) (s.off + 1)
      then bad
      else if leb (length pkt) ptr
      then bad
      else at_pointer
    else at_label

abbrev pub start_name : ℕ → NameState
start_name off = record { off = off; out = []; jumped = false; jumps = 0; orig = off }

-- At most twenty jumps, and between two of them at most a label for each byte.
unfoldable pub parse_dns_name : Bytes → ℕ → NameResult
parse_dns_name pkt off = name_loop (21 * (length pkt + 1)) pkt (start_name off)

-- The loop of buildDnsName over the text from s on.
unfoldable pub build_labels : ℕ → Bytes → Bytes
build_labels zero name = []
build_labels (suc fuel) [] = []
build_labels (suc fuel) (c ∷ cs) =
    let n : ℕ = elim (find b'.' (c ∷ cs)) [ none ↦ length (c ∷ cs) | some i ↦ i ] in
    (u8 n ∷ take n (c ∷ cs)) ++ build_labels fuel (drop (n + 1) (c ∷ cs))

unfoldable pub build_dns_name : Bytes → Bytes
build_dns_name name = build_labels (length name) name ++ 0 ∷ []

-- The DNS part of a reply: the header, the query behind its header, and one A record with the
-- address's four bytes in memory order.
unfoldable pub dns_reply : ℕ → Bytes → Bytes → Bytes
dns_reply dns_id query address =
    (digits_u16 dns_id ++ digits_u16 0x8180 ++ digits_u16 1 ++ digits_u16 1 ++ 0 ∷ 0 ∷ 0 ∷ 0 ∷ [])
    ++ (drop 12 query ++ ((0xC0 ∷ 12 ∷ 0 ∷ 1 ∷ 0 ∷ 1 ∷ 0 ∷ 0 ∷ 0 ∷ 60 ∷ 0 ∷ 4 ∷ []) ++ address))

-- The IPv4 header up to the checksum, and behind it.
unfoldable pub ip_head : ℕ → Bytes
ip_head total =
    (0x45 ∷ 0 ∷ []) ++ digits_u16 total ++ digits_u16 12345 ++ digits_u16 0x4000 ++ 64 ∷ 17 ∷ []

unfoldable pub ip_tail : ℕ → ℕ → Bytes
ip_tail src dst = digits_u32 src ++ digits_u32 dst

unfoldable pub ip_header : ℕ → ℕ → ℕ → Bytes
ip_header total src dst =
    let sum = ip_csum (ip_head total ++ (0 ∷ 0 ∷ ip_tail src dst)) in
    ip_head total ++ (sum / 256 ∷ sum % 256 ∷ ip_tail src dst)

unfoldable pub udp_header : ℕ → ℕ → Bytes
udp_header port size = digits_u16 53 ++ digits_u16 port ++ digits_u16 size ++ 0 ∷ 0 ∷ []

-- sendDnsReply up to the packet that it writes; the buffer for the DNS part has 512 bytes.
unfoldable pub send_dns_reply : ℕ → ℕ → ℕ → ℕ → Bytes → Bytes → Option Bytes
send_dns_reply tun_ip src_ip src_port dns_id query address =
    let dns = dns_reply dns_id query address in
    let total = 20 + 8 + length dns in
    if ltb 512 (length query + 16)
    then none
    else some (ip_header total tun_ip src_ip ++ udp_header src_port (8 + length dns) ++ dns)

-- What handleDnsQuery does: nothing, or a reply, none for a write behind its buffer.
pub data DnsAction : Type 0 where
  ignored : DnsAction
  replied : (packet : Option Bytes) → DnsAction

-- The addresses of a host from getaddrinfo, each with inet_addr's bytes.
unfoldable pub answer_query : (Bytes → List Bytes) → ℕ → ℕ → ℕ → Bytes → NameResult → DnsAction
answer_query resolve tun_ip src_ip src_port dns bad = ignored
answer_query resolve tun_ip src_ip src_port dns exhausted = ignored
answer_query resolve tun_ip src_ip src_port dns (named (negsuc n) host) = ignored
answer_query resolve tun_ip src_ip src_port dns (named (pos n) host) =
    if is_nil host then ignored else elim (resolve host) [
      | [] ↦ ignored
      | address ∷ more ↦ replied (send_dns_reply tun_ip src_ip src_port (read_u16 dns) dns address)
    ]

-- handleDnsQuery over the first `total` bytes of a packet.
unfoldable pub handle_dns_query : (Bytes → List Bytes) → ℕ → Bytes → ℕ → DnsAction
handle_dns_query resolve tun_ip packet total =
    let ihl = bit_and (get_or packet 0 0) 0x0F * 4 in
    let dns = take (total - ihl - 8) (drop (ihl + 8) packet) in
    if ltb (length dns) 12
    then ignored
    else if not (read_u16 (drop 4 dns) == 1)
    then ignored
    else answer_query resolve tun_ip (read_u32 (drop 12 packet)) (read_u16 (drop ihl packet)) dns
        (parse_dns_name dns 12)
