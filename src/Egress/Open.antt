-- ===== src/Egress/Open.antt =====
-- `handleOpen` of ton-egress-node/src/egress_node.cpp. Exceptions, which only allocation and thread
-- creation raise, are not modelled; nor are setsockopt and the log lines.
pub mod Guards
pub mod Checks
pub mod Refusals
use ton_tunnel.Base.{
  ℕ, ◌+◌, ◌≡◌, List, [], ◌∷◌, ◌++◌, Bool, true, false, not, ◌&&◌, ◌||◌, Option, none, some, Bytes,
  codes, length, ltb, leb, if◌then◌else◌, lookup, insert, bytes_eq,
}
use ton_tunnel.Protocol.{encode_open, CloseMessage}
use ton_tunnel.Egress.State.{
  Node, Stream, Config, Counters, Effect, sent, emit, key_for, client_count, send_error,
}
use ton_tunnel.Egress.Policy.{is_empty, is_client_allowed, is_port_allowed, is_host_blocked}
use ton_tunnel.Egress.Connect.{Net, Attempt, try_addresses, no_attempt}

abbrev pub count_fail : Node → Node
count_fail n = record n { counters = record (n.counters) { open_fail = n.counters.open_fail + 1 } }

-- The refusals before any name is resolved.
pub data Refusal : Type 0 where
  egress_disabled invalid_host port_not_allowed host_blocked unauthorized : Refusal
  max_streams_reached : Refusal

unfoldable pub refusal_text : Refusal → Bytes
refusal_text egress_disabled = codes "egress disabled"
refusal_text invalid_host = codes "invalid host"
refusal_text port_not_allowed = codes "port is not allowed"
refusal_text host_blocked = codes "host is blocked"
refusal_text unauthorized = codes "unauthorized"
refusal_text max_streams_reached = codes "max streams reached"

-- The first check that fails.
unfoldable pub refusal : Node → Bytes → Bytes → ℕ → Bytes → Option Refusal
refusal n client_id host port token =
    let c = n.config in
    if not c.egress.enabled
    then some egress_disabled
    else if is_empty host || ltb 255 (length host)
    then some invalid_host
    else if not (is_port_allowed c port)
    then some port_not_allowed
    else if is_host_blocked host
    then some host_blocked
    else if c.auth_required && not (is_client_allowed c client_id token)
    then some unauthorized
    else if leb c.max_streams (client_count client_id n)
    then some max_streams_reached
    else none

-- The success path: a new object, the two tables, the acknowledgement, and the reader thread. An
-- entry that the key already has is overwritten, and its object stays with its thread.
unfoldable pub register_stream : ℕ → Bytes → ℕ → ℕ → Node → Node
register_stream now client_id stream_id fd n =
    let stream : Stream = record {
      client_id = client_id;
      stream_id = stream_id;
      fd = some fd;
      closed = false;
      last_activity_ms = now;
      joinable = true;
    } in
    let table = insert (key_for client_id stream_id) (length n.objects) n.streams in
    let ack = encode_open (record { stream_id = stream_id }) in
    let c = n.counters in
    emit (sent client_id ack) (record n {
      objects = n.objects ++ stream ∷ [];
      streams = table;
      streams_per_client = insert client_id (client_count client_id n + 1) n.streams_per_client;
      counters = record c {
        open_ok = c.open_ok + 1;
        active_streams = length table;
        tx_bytes = c.tx_bytes + length ack;
      };
    })

unfoldable pub connect_and_register : Net → ℕ → Bytes → ℕ → List (Option Bytes) → ℕ → Node → Node
connect_and_register net now client_id stream_id ips port n =
    let a = try_addresses net n.config.egress.block_private_ips port ips no_attempt in
    let m = record n { log = a.effects ++ n.log } in
    elim a.fd [
      | some fd ↦ register_stream now client_id stream_id fd m
      | none ↦
          if a.blocked_only
          then send_error client_id stream_id (codes "destination blocked") m
          else count_fail (send_error client_id stream_id (codes "tcp connect failed") m)
    ]

-- `streams_per_client_[client_id]` in the last check makes an entry for a new client.
unfoldable pub touch_client : Bytes → Node → Node
touch_client client_id n = record n {
  streams_per_client = insert client_id (client_count client_id n) n.streams_per_client;
}

-- A refused OPEN: an unauthorized one counts as failed, and one that comes to the check of the limit
-- has touched the table there.
unfoldable pub refuse : Bytes → ℕ → Refusal → Node → Node
refuse client_id stream_id r n = elim r [
  | egress_disabled ↦ send_error client_id stream_id (refusal_text egress_disabled) n
  | invalid_host ↦ send_error client_id stream_id (refusal_text invalid_host) n
  | port_not_allowed ↦ send_error client_id stream_id (refusal_text port_not_allowed) n
  | host_blocked ↦ send_error client_id stream_id (refusal_text host_blocked) n
  | unauthorized ↦ count_fail (send_error client_id stream_id (refusal_text unauthorized) n)
  | max_streams_reached ↦
      send_error client_id stream_id (refusal_text max_streams_reached) (touch_client client_id n)
]

unfoldable pub resolve_and_connect : Net → ℕ → Bytes → ℕ → Bytes → ℕ → Node → Node
resolve_and_connect net now client_id stream_id host port n = elim (net.getaddrinfo host) [
  | none ↦ send_error client_id stream_id (codes "DNS resolve failed") n
  | some ips ↦ connect_and_register net now client_id stream_id ips port n
]

unfoldable pub handle_open : Net → ℕ → Bytes → ℕ → Bytes → ℕ → Bytes → Node → Node
handle_open net now client_id stream_id host port token n =
    elim (refusal n client_id host port token) [
      | some r ↦ refuse client_id stream_id r n
      | none ↦ resolve_and_connect net now client_id stream_id host port (touch_client client_id n)
    ]
