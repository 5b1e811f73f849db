-- ===== src/Link/Handshake.antt =====
-- The opening of a stream, both ends: `openStream` of TON-Tunnel/TonClientCore.cpp and `handleOpen` of
-- ton-egress-node/src/egress_node.cpp.
use ton_tunnel.Base.{
  ℕ, ◌+◌, ◌^◌, ◌<◌, ◌≡◌, refl, ap, ◌∙◌, List, [], ◌∷◌, ◌++◌, true, false, Option, none, some, Bytes,
  length, ==_iff, if◌then◌else◌, leb, lookup, nat_eq, lookup-insert_self, bytes_eq,
  get_elem?-length, arith,
}
use ton_tunnel.Protocol.{encode_open}
use ton_tunnel.Hope.{open_request, open_ack, wire, batch, Fits}
use ton_tunnel.Hope.Client.{encode_open_frame-wire}
use ton_tunnel.Hope.Server.{encode_open-wire}
use ton_tunnel.Hope.Inbound.{inbound, inbounds}
use ton_tunnel.Egress.State.{Node, Effect, Counters, sent, key_for, client_count}
use ton_tunnel.Egress.Connect.{try_addresses, no_attempt}
use ton_tunnel.Egress.Open
use ton_tunnel.Egress.Open.{refusal, handle_open, touch_client}
use ton_tunnel.Egress.Open.Guards.{Admitted, refusal-Admitted, handle_open-registered}
use ton_tunnel.Egress.Run.{Env, on_adnl_message, count_rx, maybe_log_counters}
use ton_tunnel.Egress.Run.Dispatch.{handle_message, handle_messages, on_adnl_message-batch}
use ton_tunnel.Desktop.Codec.{InboundFrame, encode_open_frame}
use ton_tunnel.Desktop.Core
use ton_tunnel.Desktop.Core.{
  Core, Round, OpenResult, opened, judge, grace_over, finish_open, open_loop, open_stream,
  receive_packet, receive_packets, await_stream_frame, send_packet,
}
use ton_tunnel.Desktop.Core.Routing.{of_stream, receive_packet-batch}
use ton_tunnel.Link.Upstream.{Carries}

register_stream-Carries :
    (now : ℕ) (client : Bytes) (id fd : ℕ) (n : Node)
    → Carries client id fd (Open.register_stream now client id fd n)
unfolding Open.register_stream
register_stream-Carries now client id fd n = record {
  pointer = length n.objects;
  object = record {
    client_id = client;
    stream_id = id;
    fd = some fd;
    closed = false;
    last_activity_ms = now;
    joinable = true;
  };
  listed = lookup-insert_self (key_for client id) (length n.objects) n.streams;
  found = get_elem?-length n.objects _;
  connected = refl;
  still_open = refl;
}

-- The node after a client's OPEN: the acknowledgement on top of the log, and the stream.
pub record Accepted (client : Bytes) (id fd : ℕ) (log : List Effect) (m : Node) : Type 0 where
  pub acknowledged : m.log ≡ sent client (wire (open_ack id)) ∷ log
  pub carries : Carries client id fd m

register_stream-Accepted :
    (now : ℕ) (client : Bytes) (id fd : ℕ) (n : Node)
    → Accepted client id fd n.log (Open.register_stream now client id fd n)
unfolding Open.register_stream
register_stream-Accepted now client id fd n = record {
  acknowledged = ap (λ p. sent client p ∷ n.log) (encode_open-wire id);
  carries = register_stream-Carries now client id fd n;
}

recount :
    {client : Bytes} {id fd : ℕ} {log : List Effect}
    → (m : Node) (counters : Counters) → Accepted client id fd log m
    → Accepted client id fd log (record m { counters = counters })
recount m counters a = record {
  acknowledged = a.acknowledged;
  carries = record {
    pointer = a.carries.pointer;
    object = a.carries.object;
    listed = a.carries.listed;
    found = a.carries.found;
    connected = a.carries.connected;
    still_open = a.carries.still_open;
  };
}

module _ (env : Env) (client : Bytes) (id : ℕ) (host : Bytes) (port : ℕ) (token : Bytes)
    (n : Node) where
  -- A client's OPEN frame that passes the guards and finds its target is acknowledged by an
  -- OPEN_ACK, and the node then has the stream on the connected descriptor.
  pub on_adnl_message-Accepted :
      (ips : List (Option Bytes)) (fd : ℕ)
      → Fits (open_request id host port token)
      → Admitted n client host port token
      → env.net.getaddrinfo host ≡ some ips
      → (try_addresses env.net n.config.egress.block_private_ips port ips no_attempt).fd ≡ some fd
      → Accepted client id fd
          ((try_addresses env.net n.config.egress.block_private_ips port ips no_attempt).effects
            ++ n.log)
          (on_adnl_message env client (encode_open_frame id host port token) n)
  unfolding batch handle_messages handle_message
  on_adnl_message-Accepted ips fd fits a g t =
      let k = length (batch (open_request id host port token ∷ [])) in
      let counted = count_rx k n in
      let r =
        handle_open-registered env.net env.now client id host port token counted ips fd
          (refusal-Admitted counted client host port token (record {
            enabled = a.enabled;
            host_shown = a.host_shown;
            host_short = a.host_short;
            port_allowed = a.port_allowed;
            host_open = a.host_open;
            authorized = a.authorized;
            below_limit = unfold client_count in a.below_limit;
          }))
          g t in
      rw
        (
          encode_open_frame-wire id host port token fits.1 fits.3,
          on_adnl_message-batch env client (open_request id host port token ∷ []) n
              ((fits, tt), tt),
          r,
        )
        (recount _ (maybe_log_counters env.now _) (
          register_stream-Accepted env.now client id fd (record (touch_client client counted) {
            log =
                (try_addresses env.net n.config.egress.block_private_ips port ips
                  no_attempt).effects
                ++ n.log;
          })))

-- The core when the acknowledgement is all that has come for a registered stream.
ack_arrives :
    (id : ℕ) (c : Core)
    → id < 2 ^ 32
    → lookup id c.stream_queues ≡ some []
    → lookup id (receive_packets (wire (open_ack id) ∷ []) c).stream_queues
      ≡ some (inbound (open_ack id) ∷ [])
unfolding receive_packets inbounds of_stream batch inbound
ack_arrives id c hi e =
    receive_packet-batch (open_ack id ∷ []) id [] c (hi, tt) ((λ i x. refl), tt) e
    ∙ ap (λ t. some (if t then inbound (open_ack id) ∷ [] else [])) ((==_iff id id).1 refl)

awaited :
    (id : ℕ) (f : InboundFrame) (c : Core)
    → lookup id c.stream_queues ≡ some (f ∷ [])
    → (await_stream_frame id c).0 ≡ some f
unfolding await_stream_frame
awaited id f c e = rw (e, await_stream_frame) refl

registered_empty :
    (id : ℕ) (c : Core)
    → lookup id c.stream_queues ≡ none
    → lookup id (Core.register_stream id c).stream_queues ≡ some []
unfolding Core.register_stream
registered_empty id c e =
    ground (arith, e, lookup-insert_self {V = List InboundFrame} id [] c.stream_queues)

loop_opens :
    (r : Round) (rounds : List Round) (id deadline : ℕ) (c : Core)
    → id < 2 ^ 32
    → lookup id c.stream_queues ≡ some []
    → r.now < deadline
    → r.arrived ≡ wire (open_ack id) ∷ []
    → (open_loop (r ∷ rounds) id deadline none c).1 ≡ opened
unfolding open_loop judge grace_over finish_open inbound
loop_opens r rounds id deadline c hi e early came =
    let test : leb deadline r.now ≡ false = ground (arith, early) in
    let got =
      awaited id (inbound (open_ack id)) (receive_packets (wire (open_ack id) ∷ []) c)
        (ack_arrives id c hi e) in
    rw (test, open_loop, came, got) refl

-- openStream, once its OPEN was taken, returns 0 when the node's acknowledgement for a fresh
-- stream id comes in its first wait, before the deadline.
pub open_stream-opened :
    (pending_at start : ℕ) (r : Round) (rounds : List Round) (id : ℕ) (host : Bytes) (port : ℕ)
    (token : Bytes) (c : Core)
    → id < 2 ^ 32
    → lookup id c.stream_queues ≡ none
    → r.now < start + 20000
    → r.arrived ≡ encode_open (record { stream_id = id }) ∷ []
    → (open_stream true pending_at start (r ∷ rounds) id host port token c).1 ≡ opened
unfolding open_stream send_packet
open_stream-opened pending_at start r rounds id host port token c hi fresh early came =
    loop_opens r rounds id (start + 20000) _ hi (registered_empty id c fresh) early
      (came ∙ ap (λ p. p ∷ []) (encode_open-wire id))
