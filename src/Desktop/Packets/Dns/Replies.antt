-- ===== src/Desktop/Packets/Dns/Replies.antt =====
-- The reply of `sendDnsReply` in TON-Tunnel/WintunLwipBridge.cpp, as its receiver reads it.
use ton_tunnel.Base.{
  ℕ, ◌+◌, ◌-◌, ◌^◌, ◌≤◌, ◌<◌, ◌≡◌, ◌⊎◌, refl, sym, ap, ◌∙◌, [], ◌∷◌, ◌++◌, none, some, Bytes,
  length, length-append, length-drop, take, drop, take-append, drop-drop, drop-past, ltb,
  Bool-cases, inl, inr, AreBytes, arith,
}
use ton_tunnel.Wire.{read_u16, read_u32, read_u16-digits, read_u32-digits, digits_u16, digits_u32}
use ton_tunnel.Desktop.Packets.{ip_csum}
use ton_tunnel.Desktop.Packets.Checksum.{ip_csum-sealed}
use ton_tunnel.Desktop.Packets.Dns.{
  dns_reply, ip_head, ip_tail, ip_header, udp_header, send_dns_reply,
}

-- The answer record up to its address.
abbrev record_head : Bytes
record_head = 0xC0 ∷ 12 ∷ 0 ∷ 1 ∷ 0 ∷ 1 ∷ 0 ∷ 0 ∷ 0 ∷ 60 ∷ 0 ∷ 4 ∷ []

length-dns_reply :
    (id : ℕ) (query address : Bytes)
    → 12 ≤ length query
    → length address ≡ 4
    → length (dns_reply id query address) ≡ length query + 16
unfolding dns_reply digits_u16
length-dns_reply id query address h a =
    omega (arith, a, length-append (drop 12 query) (record_head ++ address), length-drop 12 query)

ip_head-AreBytes : (total : ℕ) → AreBytes (ip_head total)
unfolding ip_head digits_u16
ip_head-AreBytes total = omega arith

ip_tail-AreBytes : (src dst : ℕ) → AreBytes (ip_tail src dst)
unfolding ip_tail digits_u32
ip_tail-AreBytes src dst = omega arith

-- What a receiver checks of a packet that answers a query.
pub record Answers (src_ip src_port dns_id : ℕ) (query address packet : Bytes) : Type 0 where
  pub checksum : ip_csum (take 20 packet) ≡ 0
  pub total_length : read_u16 (drop 2 packet) ≡ length packet
  pub destination : read_u32 (drop 16 packet) ≡ src_ip
  pub port : read_u16 (drop 22 packet) ≡ src_port
  pub udp_length : read_u16 (drop 24 packet) + 20 ≡ length packet
  pub id : read_u16 (drop 28 packet) ≡ dns_id
  pub question : take (length query - 12) (drop 40 packet) ≡ drop 12 query
  pub answer : drop (length packet - 4) packet ≡ address

ip_header-checksum : (total src dst : ℕ) → ip_csum (ip_header total src dst) ≡ 0
unfolding ip_header
ip_header-checksum total src dst =
    ip_csum-sealed (ip_head total) (ip_tail src dst) (unfold ip_head digits_u16 in refl)
      (ip_head-AreBytes total) (ip_tail-AreBytes src dst)

-- The packet of a reply.
packet : ℕ → ℕ → ℕ → ℕ → Bytes → Bytes → Bytes
packet tun_ip src_ip src_port dns_id query address =
    let dns = dns_reply dns_id query address in
    ip_header (20 + 8 + length dns) tun_ip src_ip ++ udp_header src_port (8 + length dns) ++ dns

packet-Answers :
    (tun_ip src_ip src_port dns_id : ℕ) (query address : Bytes)
    → src_ip < 2 ^ 32
    → src_port < 2 ^ 16
    → dns_id < 2 ^ 16
    → 12 ≤ length query
    → length address ≡ 4
    → length query ≤ 496
    → Answers src_ip src_port dns_id query address
        (packet tun_ip src_ip src_port dns_id query address)
unfolding packet ip_header ip_head ip_tail udp_header digits_u16 digits_u32
packet-Answers tun_ip src_ip src_port dns_id query address hi hp hd h a short =
    let dns = dns_reply dns_id query address in
    let size = length-dns_reply dns_id query address h a in
    let p = packet tun_ip src_ip src_port dns_id query address in
    let tail = drop 12 query ++ (record_head ++ address) in
    let whole : length p ≡ length query + 44 = omega (arith, size) in
    let behind : drop 40 p ≡ tail = unfold dns_reply in refl in
    record {
      checksum = ip_header-checksum (28 + length dns) tun_ip src_ip;
      total_length =
          read_u16-digits (28 + length dns) _ (omega (arith, size)) ∙ omega (arith, size, whole);
      destination = read_u32-digits src_ip _ hi;
      port = read_u16-digits src_port _ hp;
      udp_length = omega (
        arith,
        read_u16-digits (8 + length dns) (0 ∷ 0 ∷ dns) (omega (arith, size)),
        size,
        whole,
      );
      id = unfold dns_reply in read_u16-digits dns_id _ hd;
      question =
          ap (take (length query - 12)) behind
          ∙ take-append (drop 12 query) (record_head ++ address) _
              (omega (arith, length-drop 12 query));
      answer =
          sym (drop-drop 40 (length query) (length p - 4) p (omega (arith, whole)))
          ∙ ap (drop (length query)) behind
          ∙ drop-past (drop 12 query) (record_head ++ address) 12 (length query)
              (omega (arith, length-drop 12 query));
    }

-- With an address of four bytes, and an asker and an id that fit their fields, a query of 12 to
-- 496 bytes is answered by a packet whose header's checksum is right, whose lengths are those of
-- the packet, which goes to the asker's address and port, and holds the query's id and question
-- and the address; for a longer one the reply does not fit the buffer.
pub send_dns_reply-Answers :
    (tun_ip src_ip src_port dns_id : ℕ) (query address : Bytes)
    → src_ip < 2 ^ 32
    → src_port < 2 ^ 16
    → dns_id < 2 ^ 16
    → 12 ≤ length query
    → length address ≡ 4
    → ((length query ≤ 496)
        × ((packet : Bytes) × (send_dns_reply tun_ip src_ip src_port dns_id query address
              ≡ some packet)
            × Answers src_ip src_port dns_id query address packet))
      ⊎ ((496 < length query) × (send_dns_reply tun_ip src_ip src_port dns_id query address ≡ none))
unfolding send_dns_reply
send_dns_reply-Answers tun_ip src_ip src_port dns_id query address hi hp hd h a =
    elim (Bool-cases (ltb 496 (length query))) [
      | inr fits ↦
          let short : length query ≤ 496 = ground arith in
          inl (
            short,
            (
              packet tun_ip src_ip src_port dns_id query address,
              unfold packet in ground (arith, short),
              packet-Answers tun_ip src_ip src_port dns_id query address hi hp hd h a short,
            ),
          )
      | inl more ↦ let long : 496 < length query = ground arith in inr (long, ground (arith, long))
    ]
