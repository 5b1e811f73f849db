-- ===== src/Egress/Relay.antt =====
-- `handleData` and the reader thread's rounds in ton-egress-node/src/egress_node.cpp.
pub mod Chunks
pub mod Late
use ton_tunnel.Base.{
  ℕ, zero, suc, ◌+◌, ◌-◌, ◌≡◌, List, [], ◌∷◌, ◌++◌, Bool, true, false, not, ◌&&◌, ◌||◌, Option,
  none, some, Bytes, codes, length, take, drop, min, ltb, leb, if◌then◌else◌, lookup, bytes_eq,
  get_elem?, set,
}
use ton_tunnel.Protocol.{encode_data, DataMessage}
use ton_tunnel.Egress.State.{
  Node, Stream, Counters, Effect, sent, written, emit, store, key_for, send_error,
}
use ton_tunnel.Egress.Streams.{close_stream, remote_closed, push_failed, tcp_write_failed}

abbrev pub recently_closed_grace_ms : ℕ
recently_closed_grace_ms = 2000

abbrev pub max_data_chunk_bytes : ℕ
max_data_chunk_bytes = 1200

-- A stream that is not in the table: late data is dropped for a while after a close.
unfoldable pub data_without_stream : ℕ → Bytes → ℕ → Node → Node
data_without_stream now client_id stream_id n =
    let missing = send_error client_id stream_id (codes "stream not found") n in
    elim (lookup (key_for client_id stream_id) n.recently_closed) [
      | none ↦ missing
      | some closed_at ↦ if leb (now - closed_at) recently_closed_grace_ms then n else missing
    ]

-- `accepted` is what send answers: none for an error or 0, else the count of bytes it took.
unfoldable pub write_to_target : ℕ → Bytes → ℕ → Bytes → Option ℕ → ℕ → ℕ → Stream → Node → Node
write_to_target now client_id stream_id payload accepted fd p s n = elim accepted [
  | none ↦ (close_stream now client_id stream_id tcp_write_failed n).0
  | some k ↦ emit (written fd (take k payload)) (store p (record s { last_activity_ms = now }) n)
]

unfoldable pub data_on_stream : ℕ → Bytes → ℕ → Bytes → Option ℕ → ℕ → Stream → Node → Node
data_on_stream now client_id stream_id payload accepted p s n =
    let refused = send_error client_id stream_id (codes "stream closed") n in
    elim s.fd [
      | none ↦ refused
      | some fd ↦ if s.closed then refused else elim payload [
        | [] ↦ n
        | b ∷ bs ↦ write_to_target now client_id stream_id (b ∷ bs) accepted fd p s n
      ]
    ]

unfoldable pub handle_data : ℕ → Bytes → ℕ → Bytes → Option ℕ → Node → Node
handle_data now client_id stream_id payload accepted n =
    if ltb n.config.egress.max_payload_bytes (length payload)
    then send_error client_id stream_id (codes "payload exceeds max_payload_bytes") n
    else elim (lookup (key_for client_id stream_id) n.streams) [
      | none ↦ data_without_stream now client_id stream_id n
      | some p ↦ elim (get_elem? n.objects p) [
        | none ↦ n
        | some s ↦ data_on_stream now client_id stream_id payload accepted p s n
      ]
    ]

-- One chunk of the buffer, from an offset on, is framed, sent and counted.
unfoldable pub push_chunk : Bytes → ℕ → Stream → Node → Node
push_chunk buf offset s n =
    let len = min max_data_chunk_bytes (length buf - offset) in
    let out =
      encode_data (record { stream_id = s.stream_id; payload = take len (drop offset buf) }) in
    let c = n.counters in
    emit (sent s.client_id out)
      (record n { counters = record c { tx_bytes = c.tx_bytes + length out } })

-- for (offset = 0; offset < total; offset += kMaxDataChunkBytes), on the rounds that may be left;
-- `accepts i` is what sendToClient answers for the chunk at offset i. The answer is `ok`.
unfoldable pub push_chunks : (ℕ → Bool) → ℕ → Bytes → ℕ → Stream → Node → Node × Bool
push_chunks accepts zero buf offset s n = (n, true)
push_chunks accepts (suc rounds) buf offset s n =
    let pushed = push_chunk buf offset s n in
    let rest = push_chunks accepts rounds buf (offset + max_data_chunk_bytes) s pushed in
    if ltb offset (length buf)
    then elim (accepts offset) [ true ↦ rest | false ↦ (pushed, false) ]
    else (n, true)

-- One round of the thread that holds the object p; none is recv's answer 0 or -1. The buffer has
-- 16 KiB, so a round sends at most 14 chunks.
unfoldable pub reader_round : ℕ → (ℕ → Bool) → Option Bytes → ℕ → Stream → Node → Node
reader_round now accepts received p s n = if s.closed then n else elim received [
  | none ↦ (close_stream now s.client_id s.stream_id remote_closed n).0
  | some buf ↦
      let s' = record s { last_activity_ms = now } in
      let (m, all_sent) = push_chunks accepts (suc (length buf)) buf 0 s' (store p s' n) in
      if all_sent then m else (close_stream now s.client_id s.stream_id push_failed m).0
]
