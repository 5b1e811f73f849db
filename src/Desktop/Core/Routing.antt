-- ===== src/Desktop/Core/Routing.antt =====
-- The receiver of TON-Tunnel/TonClientCore.cpp: which frames reach which queue.
use ton_tunnel.Base.{
  ℕ, ◌≡◌, refl, ap, ◌∙◌, List, [], ◌∷◌, ◌++◌, append-nil, append_assoc, some, ◌==◌, ==_iff,
  if◌then◌else◌, lookup, lookup-insert, nat_eq, All, arith, Bool-cases, Option-cases, inl, inr,
}
use ton_tunnel.Hope.{Message, Fits, batch}
use ton_tunnel.Hope.Inbound.{inbounds, decode_inbound_frames-batch, AckLast}
use ton_tunnel.Desktop.Codec.{InboundFrame}
use ton_tunnel.Desktop.Core.{Core, route_frame, route_frames, receive_packet}

-- The frames of a stream, in order.
unfoldable pub of_stream : ℕ → List InboundFrame → List InboundFrame
of_stream id [] = []
of_stream id (f ∷ fs) = let rest = of_stream id fs in if f.stream_id == id then f ∷ rest else rest

route_frame-lookup :
    (f : InboundFrame) (id : ℕ) (q : List InboundFrame) (queues : List (ℕ × List InboundFrame))
    → lookup id queues ≡ some q
    → lookup id (route_frame f queues) ≡ some (if f.stream_id == id then q ++ f ∷ [] else q)
unfolding route_frame
route_frame-lookup f id q queues e = elim (Bool-cases (f.stream_id == id)) [
  | inl same ↦
      let at : f.stream_id ≡ id = (==_iff f.stream_id id).0 same in
      let here : lookup f.stream_id queues ≡ some q = ap (λ i. lookup i queues) at ∙ e in
      rw (here, route_frame, same)
        (ground (arith, same, lookup-insert f.stream_id id (q ++ f ∷ []) queues))
  | inr other ↦ elim (Option-cases (lookup f.stream_id queues)) [
    | inl n ↦
        rw (n, route_frame, other)
          (ground (arith, e, other, lookup-insert f.stream_id id (f ∷ []) queues))
    | inr (p, s) ↦
        rw (s, route_frame, other)
          (ground (arith, e, other, lookup-insert f.stream_id id (p ++ f ∷ []) queues))
  ]
]

-- A registered stream's queue grows by its own frames, in order, and by no others.
pub route_frames-lookup :
    (fs : List InboundFrame) (id : ℕ) (q : List InboundFrame)
    (queues : List (ℕ × List InboundFrame))
    → lookup id queues ≡ some q
    → lookup id (route_frames fs queues) ≡ some (q ++ of_stream id fs)
unfolding route_frames of_stream
route_frames-lookup [] id q queues e = rw (append-nil q) e
route_frames-lookup (f ∷ fs) id q queues e = elim (Bool-cases (f.stream_id == id)) [
  | inl same ↦
      let one : lookup id (route_frame f queues) ≡ some (q ++ f ∷ []) =
        ground (arith, same, route_frame-lookup f id q queues e) in
      rw
        (
          route_frames-lookup fs id (q ++ f ∷ []) (route_frame f queues) one,
          same,
          append_assoc q (f ∷ []) (of_stream id fs),
        )
        refl
  | inr other ↦
      let one : lookup id (route_frame f queues) ≡ some q =
        ground (arith, other, route_frame-lookup f id q queues e) in
      rw (route_frames-lookup fs id q (route_frame f queues) one, other) refl
]

-- A packet of whole frames adds to a registered stream's queue the frames of that stream, in
-- order, and no others.
pub receive_packet-batch :
    (ms : List Message) (id : ℕ) (q : List InboundFrame) (c : Core)
    → All Fits ms
    → AckLast ms
    → lookup id c.stream_queues ≡ some q
    → lookup id (receive_packet (batch ms) c).stream_queues ≡ some (q ++ of_stream id (inbounds ms))
unfolding receive_packet
receive_packet-batch ms id q c fits last e =
    rw (decode_inbound_frames-batch ms fits last)
      (route_frames-lookup (inbounds ms) id q c.stream_queues e)
