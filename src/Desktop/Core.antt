-- ===== src/Desktop/Core.antt =====
-- TON-Tunnel/TonClientCore.hpp and TonClientCore.cpp: the loopback backend and the client's core.
-- Whether the backend takes a packet is a parameter; packets given to it are a log, newest first.
-- Exceptions, which only allocation raises, are not modelled.
pub mod Routing
pub mod Opening
pub mod Sending
use ton_tunnel.Base.{
  ℕ, zero, suc, ◌+◌, ◌-◌, ◌≡◌, List, [], ◌∷◌, ◌++◌, Bool, true, false, ◌||◌, Option, none, some,
  Bytes, codes, length, take, drop, min, ltb, leb, if◌then◌else◌, lookup, insert, erase, nat_eq,
  chunk_at,
}
use ton_tunnel.Desktop.Codec.{
  FrameType, unknown, open_type, data_type, close_type, error_type, unnamed, InboundFrame,
  encode_open_frame, encode_open_ack_frame, encode_data_frame, encode_close_frame,
  encode_error_frame, decode_inbound_frames,
}

-- LoopbackBackend::sendPacket: the answer to a frame; `none` is the return of -2.
unfoldable pub loopback_response : InboundFrame → Option Bytes
loopback_response f = elim f.type [
  | open_type ↦ some (encode_open_ack_frame f.stream_id)
  | data_type ↦ some (encode_data_frame f.stream_id f.payload)
  | close_type ↦ some (encode_close_frame f.stream_id)
  | error_type ↦ elim f.error_message [
    | [] ↦ some (encode_error_frame f.stream_id (codes "loopback"))
    | b ∷ bs ↦ some (encode_error_frame f.stream_id (b ∷ bs))
  ]
  | unknown ↦ none
  | unnamed b ↦ none
]

pub data LoopbackAnswer : Type 0 where
  accepted undecodable unanswerable : LoopbackAnswer

-- The queue and 0, -1 or -2.
unfoldable pub loopback_send : Bytes → List Bytes → List Bytes × LoopbackAnswer
loopback_send packet queue = elim (decode_inbound_frames packet) [
  | [] ↦ (queue, undecodable)
  | f ∷ fs ↦ elim (loopback_response f) [
    | none ↦ (queue, unanswerable)
    | some response ↦ (queue ++ response ∷ [], accepted)
  ]
]

-- LoopbackBackend::receivePacket; the wait for an empty queue ends in a timeout.
unfoldable pub loopback_receive : List Bytes → Option (Bytes × List Bytes)
loopback_receive [] = none
loopback_receive (packet ∷ queue) = some (packet, queue)

pub record Core : Type 0 where
  pub running : Bool
  pub stream_queues : List (ℕ × List InboundFrame)
  pub pending_open_ms : List (ℕ × ℕ)
  pub open_ok : ℕ
  pub open_fail : ℕ
  pub open_timeout : ℕ
  pub tx_bytes : ℕ
  pub rx_bytes : ℕ
  pub packets : List Bytes

unfoldable pub register_stream : ℕ → Core → Core
register_stream id c = elim (lookup id c.stream_queues) [
  | none ↦ record c { stream_queues = insert id [] c.stream_queues }
  | some q ↦ c
]

unfoldable pub unregister_stream : ℕ → Core → Core
unregister_stream id c = record c {
  stream_queues = erase id c.stream_queues;
  pending_open_ms = erase id c.pending_open_ms;
}

-- txBytes_ grows by the frame, and the backend is called with it.
unfoldable pub send_packet : Bytes → Core → Core
send_packet frame c = record c { tx_bytes = c.tx_bytes + length frame; packets = frame ∷ c.packets }

abbrev pub makes_queue : FrameType → Bool
makes_queue open_type = true
makes_queue close_type = true
makes_queue error_type = true
makes_queue data_type = false
makes_queue unknown = false
makes_queue (unnamed b) = false

-- One frame of receiverLoop.
unfoldable pub route_frame :
    InboundFrame → List (ℕ × List InboundFrame) → List (ℕ × List InboundFrame)
route_frame f queues = elim (lookup f.stream_id queues) [
  | some q ↦ insert f.stream_id (q ++ f ∷ []) queues
  | none ↦ if makes_queue f.type then insert f.stream_id (f ∷ []) queues else queues
]

unfoldable pub route_frames :
    List InboundFrame → List (ℕ × List InboundFrame) → List (ℕ × List InboundFrame)
route_frames [] queues = queues
route_frames (f ∷ fs) queues = route_frames fs (route_frame f queues)

-- One round of receiverLoop that received a packet.
unfoldable pub receive_packet : Bytes → Core → Core
receive_packet packet c = record c {
  rx_bytes = c.rx_bytes + length packet;
  stream_queues = route_frames (decode_inbound_frames packet) c.stream_queues;
}

unfoldable pub receive_packets : List Bytes → Core → Core
receive_packets [] c = c
receive_packets (packet ∷ packets) c = receive_packets packets (receive_packet packet c)

-- awaitStreamFrame, when its wait has ended: the front of the queue, if there is one.
unfoldable pub await_stream_frame : ℕ → Core → Option InboundFrame × Core
await_stream_frame id c = elim (lookup id c.stream_queues) [
  | none ↦ (none, c)
  | some [] ↦ (none, c)
  | some (f ∷ q) ↦ (some f, record c { stream_queues = insert id q c.stream_queues })
]

-- 0, -1, -2, -3 and -4, and no answer yet.
pub data OpenResult : Type 0 where
  opened send_failed timed_out refused closed_early waiting : OpenResult

-- A round of openStream's loop: the clock at its test, at the grace test and where a CLOSE is noted,
-- and the packets that the receiver took during its wait.
pub record Round : Type 0 where
  pub now : ℕ
  pub grace_now : ℕ
  pub close_now : ℕ
  pub arrived : List Bytes

abbrev pub fail_open : OpenResult → Core → Core × OpenResult
fail_open result c = (record c { open_fail = c.open_fail + 1 }, result)

-- What a round makes of the frame that it waited for: an answer, or the time of the first CLOSE.
pub data Verdict : Type 0 where
  decided : (result : OpenResult) → Verdict
  go_on : (close_seen_at : Option ℕ) → Verdict

unfoldable pub judge : ℕ → Option ℕ → Option InboundFrame → Verdict
judge now close_seen_at none = go_on close_seen_at
judge now close_seen_at (some f) = elim f.type [
  | open_type ↦ decided opened
  | error_type ↦ decided refused
  | close_type ↦ elim close_seen_at [ none ↦ go_on (some now) | some t ↦ go_on (some t) ]
  | data_type ↦ go_on close_seen_at
  | unknown ↦ go_on close_seen_at
  | unnamed b ↦ go_on close_seen_at
]

abbrev pub open_timeout_ms : ℕ
open_timeout_ms = 20000

abbrev pub open_close_grace_ms : ℕ
open_close_grace_ms = 250

-- remainingClose <= 0
unfoldable pub grace_over : ℕ → Option ℕ → Bool
grace_over now none = false
grace_over now (some t) = leb (t + open_close_grace_ms) now

unfoldable pub finish_open : ℕ → OpenResult → Core → Core × OpenResult
finish_open id opened c =
    (record c { pending_open_ms = erase id c.pending_open_ms; open_ok = c.open_ok + 1 }, opened)
finish_open id timed_out c = (
  record c { pending_open_ms = erase id c.pending_open_ms; open_timeout = c.open_timeout + 1 },
  timed_out,
)
finish_open id send_failed c = fail_open send_failed c
finish_open id refused c = fail_open refused c
finish_open id closed_early c = fail_open closed_early c
finish_open id waiting c = (c, waiting)

-- The loop, on the rounds that the clock and the network give it.
unfoldable pub open_loop : List Round → ℕ → ℕ → Option ℕ → Core → Core × OpenResult
open_loop [] id deadline close_seen_at c = (c, waiting)
open_loop (r ∷ rounds) id deadline close_seen_at c =
    let (frame, after) = await_stream_frame id (receive_packets r.arrived c) in
    if leb deadline r.now
    then finish_open id timed_out c
    else if grace_over r.grace_now close_seen_at
    then finish_open id closed_early c
    else elim (judge r.close_now close_seen_at frame) [
      | decided result ↦ finish_open id result after
      | go_on seen ↦ open_loop rounds id deadline seen after
    ]

-- `pending_at` and `start` are the clock's readings before and after the OPEN is sent.
unfoldable pub open_stream :
    Bool → ℕ → ℕ → List Round → ℕ → Bytes → ℕ → Bytes → Core → Core × OpenResult
open_stream taken pending_at start rounds id host port token c =
    let registered = register_stream id c in
    let pending = record registered {
      pending_open_ms = insert id pending_at registered.pending_open_ms;
    } in
    let sent = send_packet (encode_open_frame id host port token) pending in
    if taken
    then open_loop rounds id (start + open_timeout_ms) none sent
    else finish_open id send_failed sent

abbrev pub data_segment_size : ℕ
data_segment_size = 1200

-- The loop of sendStreamData on the rounds that may be left; `takes i` is whether the backend takes
-- the packet of the chunk at offset i. The answer is whether 0 is returned.
unfoldable pub send_segments : (ℕ → Bool) → ℕ → ℕ → Bytes → ℕ → Core → Core × Bool
send_segments takes zero id payload offset c = (c, true)
send_segments takes (suc rounds) id payload offset c =
    let len = min data_segment_size (length payload - offset) in
    let chunk = take len (drop offset payload) in
    let sent = send_packet (encode_data_frame id chunk) c in
    let rest = send_segments takes rounds id payload (offset + len) sent in
    if ltb offset (length payload) then if takes offset then rest else (sent, false) else (c, true)

unfoldable pub send_stream_data : (ℕ → Bool) → ℕ → Bytes → Core → Core × Bool
send_stream_data takes id payload c = send_segments takes (suc (length payload)) id payload 0 c

unfoldable pub close_stream : ℕ → Core → Core
close_stream id c =
    send_packet (encode_close_frame id) (record c { pending_open_ms = erase id c.pending_open_ms })

-- start and stop, without the receiver thread; the answer is start's.
unfoldable pub start : Bool → Core → Core × Bool
start has_backend c = if has_backend then (record c { running = true }, true) else (c, false)

unfoldable pub stop : Core → Core
stop c = record c { running = false }

pub record CoreCounters : Type 0 where
  pub open_ok : ℕ
  pub open_fail : ℕ
  pub open_timeout : ℕ
  pub tx_bytes : ℕ
  pub rx_bytes : ℕ

unfoldable pub snapshot_counters : Core → CoreCounters
snapshot_counters c = record {
  open_ok = c.open_ok;
  open_fail = c.open_fail;
  open_timeout = c.open_timeout;
  tx_bytes = c.tx_bytes;
  rx_bytes = c.rx_bytes;
}
