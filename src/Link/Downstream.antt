-- ===== src/Link/Downstream.antt =====
-- From a target's bytes to the client's queue: the reader of ton-egress-node/src/egress_node.cpp and
-- the receiver of TON-Tunnel/TonClientCore.cpp.
use ton_tunnel.Base.{
  ◌≢◌, inl, inr, ℕ, ◌^◌, ◌<◌, ◌≤◌, ◌≡◌, refl, sym, ap, ◌∙◌, List, [], ◌∷◌, ◌++◌, append-nil,
  append_assoc, Bool, true, false, some, Bytes, length, ==_iff, if◌then◌else◌, lookup, nat_eq, All,
  arith, join,
}
use ton_tunnel.Egress.State.{Node, Stream, Effect, sent}
use ton_tunnel.Egress.Relay.{reader_round}
use ton_tunnel.Egress.Relay.Chunks.{sent_all, reader_round-Relayed}
use ton_tunnel.Hope.{payload, wire, batch}
use ton_tunnel.Hope.Server.{encode_data-wire}
use ton_tunnel.Hope.Inbound.{inbound, inbounds}
use ton_tunnel.Desktop.Codec.{InboundFrame}
use ton_tunnel.Desktop.Core.{Core, receive_packet, receive_packets}
use ton_tunnel.Desktop.Core.Routing.{of_stream, receive_packet-batch}

-- Packets sent to a client, oldest first, on top of a log.
unfoldable pub sent_packets : Bytes → List Bytes → List Effect → List Effect
sent_packets client [] log = log
sent_packets client (p ∷ ps) log = sent_packets client ps (sent client p ∷ log)

data_packets : ℕ → List Bytes → List Bytes
data_packets id [] = []
data_packets id (c ∷ cs) = wire (payload id c) ∷ data_packets id cs

data_frames : ℕ → List Bytes → List InboundFrame
data_frames id [] = []
data_frames id (c ∷ cs) = inbound (payload id c) ∷ data_frames id cs

-- The payloads of frames, one after another.
unfoldable pub payloads : List InboundFrame → Bytes
payloads [] = []
payloads (f ∷ fs) = f.payload ++ payloads fs

payloads-data_frames : (id : ℕ) (cs : List Bytes) → payloads (data_frames id cs) ≡ join cs
unfolding payloads data_frames join inbound
payloads-data_frames id [] = refl
payloads-data_frames id (c ∷ cs) = ap (λ t. c ++ t) (payloads-data_frames id cs)

sent_all-packets :
    (client : Bytes) (id : ℕ) (cs : List Bytes) (log : List Effect)
    → All (λ c. (1 ≤ length c) × (length c ≤ 1200)) cs
    → sent_all client id cs log ≡ sent_packets client (data_packets id cs) log
unfolding sent_all sent_packets data_packets
sent_all-packets client id [] log h = refl
sent_all-packets client id (c ∷ cs) log h =
    rw (encode_data-wire id c (omega (arith, h.0.1)))
      (sent_all-packets client id cs (sent client (wire (payload id c)) ∷ log) h.1)

one_packet :
    (id : ℕ) (c : Bytes) (q : List InboundFrame) (core : Core)
    → id < 2 ^ 32
    → length c ≤ 1200
    → lookup id core.stream_queues ≡ some q
    → lookup id (receive_packet (wire (payload id c)) core).stream_queues
      ≡ some (q ++ inbound (payload id c) ∷ [])
unfolding inbounds of_stream batch inbound
one_packet id c q core hi hc e =
    receive_packet-batch (payload id c ∷ []) id q core ((hi, omega arith), tt) ((λ i x. refl), tt) e
    ∙ ap (λ t. some (q ++ (if t then inbound (payload id c) ∷ [] else []))) ((==_iff id id).1 refl)

queued :
    (id : ℕ) (cs : List Bytes) (q : List InboundFrame) (core : Core)
    → id < 2 ^ 32
    → All (λ c. (1 ≤ length c) × (length c ≤ 1200)) cs
    → lookup id core.stream_queues ≡ some q
    → lookup id (receive_packets (data_packets id cs) core).stream_queues
      ≡ some (q ++ data_frames id cs)
unfolding receive_packets data_packets data_frames
queued id [] q core hi h e = rw (append-nil q) e
queued id (c ∷ cs) q core hi h e =
    queued id cs (q ++ inbound (payload id c) ∷ []) (receive_packet (wire (payload id c)) core) hi
      h.1 (one_packet id c q core hi h.0.1 e)
    ∙ ap some (append_assoc q (inbound (payload id c) ∷ []) (data_frames id cs))

true_not : false ≢ true
true_not e = cc

-- What the node sent for a target's bytes, and what a client core that takes the packets then has in
-- the stream's queue, behind q.
pub record Delivered (client : Bytes) (id : ℕ) (bytes : Bytes) (log log' : List Effect)
    (q : List InboundFrame) (core : Core) : Type 0 where
  pub packets : List Bytes
  pub logged : log' ≡ sent_packets client packets log
  pub frames : List InboundFrame
  pub bytes_kept : payloads frames ≡ bytes
  pub queued_up : lookup id (receive_packets packets core).stream_queues ≡ some (q ++ frames)

-- The bytes that a reader took from an open stream's target come out of the client's queue for
-- that stream, in order and without loss, if every push goes through, the client takes the packets
-- one after another, and it has the stream.
pub reader_round-Delivered :
    (now : ℕ) (accepts : ℕ → Bool) (buf : Bytes) (p : ℕ) (s : Stream) (n : Node)
    (q : List InboundFrame) (core : Core)
    → s.closed ≡ false
    → s.stream_id < 2 ^ 32
    → ((i : ℕ) → accepts i ≡ true)
    → lookup s.stream_id core.stream_queues ≡ some q
    → Delivered s.client_id s.stream_id buf n.log
        (reader_round now accepts (some buf) p s n).log
        q
        core
reader_round-Delivered now accepts buf p s n q core o hi a e =
    let r = reader_round-Relayed now accepts buf p s n o a in
    let whole : r.rest ≡ [] = elim r.complete [ inl f ↦ absurd (true_not (sym f)) | inr f ↦ f ] in
    record {
      packets = data_packets s.stream_id r.chunks;
      logged = r.logged ∙ sent_all-packets s.client_id s.stream_id r.chunks n.log r.sizes;
      frames = data_frames s.stream_id r.chunks;
      bytes_kept =
          payloads-data_frames s.stream_id r.chunks
          ∙ sym (append-nil (join r.chunks))
          ∙ ap (λ t. join r.chunks ++ t) (sym whole)
          ∙ r.split;
      queued_up = queued s.stream_id r.chunks q core hi r.sizes e;
    }
