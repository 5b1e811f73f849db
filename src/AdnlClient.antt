-- ===== src/AdnlClient.antt =====
-- `TonAdnlClientRuntime` of app/src/main/cpp/ton_adnl_client_backend.cpp, the client's end of the
-- ADNL link, which the Android bridge and the desktop application use through handles. The TON
-- library and `inet_pton` are parameters; the scheduler's thread is seen by its two calls, the
-- set-up and the shutdown of the ADNL actors. Log lines are not modelled.
pub mod Advertise
pub mod Sending
pub mod Handles
pub mod Owned
use ton_tunnel.Base.{
  ℕ, suc, ◌+◌, ◌*◌, ◌^◌, List, [], ◌∷◌, Bool, true, false, not, ◌&&◌, ◌||◌, Option, none, some,
  Bytes, codes, length, get_or, take, drop, map, find, is_nil, trim_back, trim_front, ltb, leb,
  ◌==◌, if◌then◌else◌, bytes_beq, bit_and, bit_or, u32,
}
use ton_tunnel.Egress.Policy.{to_lower}
use ton_tunnel.Adnl.{normalize_private_key}

-- What the TON library and the C library answer. `from_hex` is the number of bits that a key's text
-- has, `import_key` whether a private key is taken; a host is resolved to the text of its address,
-- and `inet_pton` gives an IPv4 address in host byte order.
pub record Network : Type 0 where
  pub from_hex : Bytes → ℕ
  pub pk_id : Bytes
  pub import_key : Bytes → Bool
  pub init_host_port : Bytes → Option Bytes
  pub init_ipv4_port : Bytes → Option Bytes
  pub inet_pton : Bytes → Option ℕ

-- trim_ascii_ws
unfoldable pub trim_ascii_ws : Bytes → Bytes
trim_ascii_ws s = trim_front (trim_back s)

unfoldable pub is_unusable_advertise_host : Bytes → Bool
is_unusable_advertise_host host =
    let h = map to_lower host in
    if is_nil host
    then false
    else bytes_beq h (codes "0.0.0.0")
      || bytes_beq h (codes "127.0.0.1")
      || bytes_beq h (codes "localhost")
      || bytes_beq h (codes "::1")

unfoldable pub is_private_ipv4 : ℕ → Bool
is_private_ipv4 v =
    let is10 = bit_and v 0xFF000000 == 0x0A000000 in
    let is172 = bit_and v 0xFFF00000 == 0xAC100000 in
    let is192 = bit_and v 0xFFFF0000 == 0xC0A80000 in is10 || is172 || is192

unfoldable pub same_subnet24 : ℕ → ℕ → Bool
same_subnet24 a b = bit_and a 0xFFFFFF00 == bit_and b 0xFFFFFF00

-- advertise_mode, with `unadvertised` for "none"
pub data Mode : Type 0 where
  unadvertised lan self public : Mode

-- The address that goes into the address list, if one does, and the mode that is logged. An address
-- that `inet_pton` does not take is 0 and no IPv4 address.
pub record Advertisement : Type 0 where
  pub address : Option Bytes
  pub mode : Mode

abbrev pub not_advertised : Advertisement
not_advertised = record { address = none; mode = unadvertised }

abbrev pub is_ipv4 : Option ℕ → Bool
is_ipv4 none = false
is_ipv4 (some v) = true

abbrev pub value_of : Option ℕ → ℕ
value_of none = 0
value_of (some v) = v

unfoldable pub announce : Option ℕ → Option ℕ → Bytes → Bytes → Advertisement
announce adv peer advertise_ip peer_ip =
    let adv_v = value_of adv in
    let peer_v = value_of peer in
    let adv_is_private = is_ipv4 adv && is_private_ipv4 adv_v in
    let peer_is_private = is_ipv4 peer && is_private_ipv4 peer_v in
    let same_private_subnet = adv_is_private && peer_is_private && same_subnet24 adv_v peer_v in
    let advertises_peer_endpoint = is_ipv4 adv && is_ipv4 peer && (adv_v == peer_v) in
    let allow_advertise = same_private_subnet && not advertises_peer_endpoint in
    if allow_advertise
    then record {
      address = some advertise_ip;
      mode =
          if adv_is_private && same_private_subnet
          then lan
          else if is_ipv4 peer && bytes_beq advertise_ip peer_ip
          then self
          else public;
    }
    else not_advertised

-- The part of init_adnl_udp about the advertised host; none is a set-up that fails.
unfoldable pub advertise : Network → Bytes → Bytes → Option Advertisement
advertise net host peer_ip =
    let trimmed = trim_ascii_ws host in
    if is_nil trimmed
    then some not_advertised
    else if is_unusable_advertise_host trimmed
    then none
    else elim (net.init_ipv4_port trimmed) [
      | none ↦ none
      | some ip ↦ some (announce (net.inet_pton ip) (net.inet_pton peer_ip) ip peer_ip)
    ]

-- parse_egress: the text before the '@' and the one behind it
unfoldable pub parse_egress : Network → Bytes → Option (Bytes × Bytes)
parse_egress net value = elim (find b'@' value) [
  | none ↦ none
  | some p ↦
      if (p == 0) || leb (length value) (p + 1)
      then none
      else if net.from_hex (take p value) == 256
      then some (take p value, drop (p + 1) value)
      else none
]

-- `attached` is whether adnl_ holds an actor, `has_callback` whether callback_ is set; `sent` are the
-- messages handed to the ADNL actor, newest first.
pub record Client : Type 0 where
  pub private_key : Bytes
  pub egress_adnl_address : Bytes
  pub local_advertise_host : Bytes
  pub running : Bool
  pub ready : Bool
  pub attached : Bool
  pub has_callback : Bool
  pub advertised : Advertisement
  pub sent : List Bytes

unfoldable pub new_client : Bytes → Bytes → Bytes → Client
new_client key egress host = record {
  private_key = key;
  egress_adnl_address = egress;
  local_advertise_host = trim_ascii_ws host;
  running = false;
  ready = false;
  attached = false;
  has_callback = false;
  advertised = not_advertised;
  sent = [];
}

-- start always reports success.
unfoldable pub start_client : Client → Client × Bool
start_client c = (record c { running = true }, true)

-- The steps of init_adnl_udp behind the egress address: an early failure leaves the actors there.
unfoldable pub attach : Network → Bytes → Client → Client
attach net host_port c =
    let actors = record c { attached = true } in
    let broken = record actors { ready = false } in
    if not (net.import_key (normalize_private_key net.pk_id c.private_key))
    then broken
    else elim (net.init_host_port host_port) [
      | none ↦ broken
      | some peer_ip ↦ elim (advertise net c.local_advertise_host peer_ip) [
        | none ↦ broken
        | some a ↦ record actors { ready = true; advertised = a }
      ]
    ]

unfoldable pub init_adnl_udp : Network → Client → Client
init_adnl_udp net c = elim (parse_egress net c.egress_adnl_address) [
  | none ↦ record c { ready = false }
  | some (key, host_port) ↦ attach net host_port c
]

unfoldable pub shutdown_adnl_udp : Client → Client
shutdown_adnl_udp c = record c { ready = false; attached = false }

-- stop joins the thread, which shuts the actors down at its end.
unfoldable pub stop_client : Client → Client
stop_client c = if c.running then shutdown_adnl_udp (record c { running = false }) else c

-- The four bytes of a DATA frame's length.
unfoldable pub payload_len : Bytes → ℕ
payload_len p =
    bit_or
      (bit_or (bit_or (u32 (get_or p 5 0 * 2 ^ 24)) (u32 (get_or p 6 0 * 2 ^ 16)))
        (u32 (get_or p 7 0 * 2 ^ 8)))
      (get_or p 8 0)

-- A DATA frame without a payload is dropped, and reported as sent.
unfoldable pub send_message : Bytes → Client → Client × Bool
send_message message c =
    if is_nil message || not c.ready || not c.attached
    then (c, false)
    else if leb 9 (length message) && (get_or message 0 0 == 2) && (payload_len message == 0)
    then (c, true)
    else (record c { sent = message ∷ c.sent }, true)

-- What the callback is given of an inbound message.
unfoldable pub emit_inbound : Bytes → Client → Option Bytes
emit_inbound message c = if not c.has_callback || is_nil message then none else some message

unfoldable pub set_callback : Bool → Client → Client
set_callback given c = record c { has_callback = given }
