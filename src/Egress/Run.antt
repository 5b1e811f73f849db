-- ===== src/Egress/Run.antt =====
-- `onAdnlMessage`, the idle monitor, `start`, `stop` and the counters' report in
-- ton-egress-node/src/egress_node.cpp.
pub mod Dispatch
use ton_tunnel.Base.{
  ℕ, zero, suc, ◌+◌, ◌-◌, ◌*◌, ◌≡◌, List, [], ◌∷◌, ◌++◌, Bool, true, false, not, ◌&&◌, ◌||◌, Option,
  none, some, Bytes, length, take, drop, ltb, ◌==◌, if◌then◌else◌, get_elem?, set,
}
use ton_tunnel.Protocol.{
  DecodedMessage, MessageType, open_type, data_type, close_type, error_type, unnamed,
  decode_message,
}
use ton_tunnel.Egress.State.{
  Node, Stream, Counters, Effect, emit, store, no_counts, transport_stopped,
}
use ton_tunnel.Egress.Connect.{Net}
use ton_tunnel.Egress.Streams.{close_stream, handle_close, release_fd, idle_timeout}
use ton_tunnel.Egress.Open.{handle_open}
use ton_tunnel.Egress.Relay.{handle_data, recently_closed_grace_ms}
use ton_tunnel.Egress.Frames.{try_get_frame_length}

-- The environment of one message: the system, the time, and what send answers for each payload.
pub record Env : Type 0 where
  pub net : Net
  pub now : ℕ
  pub send : Bytes → Option ℕ

-- The three branches on the decoded frame; anything else is passed over.
unfoldable pub dispatch : Env → Bytes → DecodedMessage → Node → Node
dispatch env client_id msg n = elim msg.type [
  | open_type ↦ elim msg.open_part [
    | none ↦ n
    | some m ↦ handle_open env.net env.now client_id m.stream_id m.host m.port m.token n
  ]
  | data_type ↦ elim msg.data_part [
    | none ↦ n
    | some m ↦ handle_data env.now client_id m.stream_id m.payload (env.send m.payload) n
  ]
  | close_type ↦ elim msg.close_part [
    | none ↦ n
    | some m ↦ handle_close env.now client_id m.stream_id n
  ]
  | error_type ↦ n
  | unnamed b ↦ n
]

-- The two checks at an offset: the frame's length, and the frame decoded.
pub data NextFrame : Type 0 where
  no_length no_message : NextFrame
  found : (length : ℕ) (msg : DecodedMessage) → NextFrame

unfoldable pub next_frame : Bytes → ℕ → NextFrame
next_frame payload offset = elim (try_get_frame_length payload offset) [
  | none ↦ no_length
  | some zero ↦ no_length
  | some (suc k) ↦ elim (decode_message (take (suc k) (drop offset payload))) [
    | none ↦ no_message
    | some msg ↦ found (suc k) msg
  ]
]

-- How the loop over the frames of a payload ended.
pub data LoopEnd : Type 0 where
  exhausted bad_format bad_frame no_fuel : LoopEnd

unfoldable pub dispatch_loop : ℕ → Env → Bytes → Bytes → ℕ → Node → Node × LoopEnd
dispatch_loop zero env client_id payload offset n = (n, no_fuel)
dispatch_loop (suc fuel) env client_id payload offset n = elim (ltb offset (length payload)) [
  | false ↦ (n, exhausted)
  | true ↦ elim (next_frame payload offset) [
    | no_length ↦ (n, bad_format)
    | no_message ↦ (n, bad_frame)
    | found k msg ↦
        dispatch_loop fuel env client_id payload (offset + k) (dispatch env client_id msg n)
  ]
]

-- maybeLogCounters: every five seconds the counters but `active_streams` start again from 0.
unfoldable pub maybe_log_counters : ℕ → Counters → Counters
maybe_log_counters now c =
    let last = if c.last_counters_ms == 0 then now else c.last_counters_ms in
    if ltb (now - last) 5000
    then record c { last_counters_ms = last }
    else record no_counts { active_streams = c.active_streams; last_counters_ms = now }

abbrev pub count_rx : ℕ → Node → Node
count_rx k n = let c = n.counters in record n { counters = record c { rx_bytes = c.rx_bytes + k } }

-- Behind the loop; a malformed frame has returned from the call at once.
unfoldable pub after_loop : ℕ → Node × LoopEnd → Node
after_loop now (m, exhausted) = record m { counters = maybe_log_counters now m.counters }
after_loop now (m, bad_format) = m
after_loop now (m, bad_frame) = m
after_loop now (m, no_fuel) = m

-- Each frame has five bytes at least, so the payload's length is fuel enough.
unfoldable pub on_adnl_message : Env → Bytes → Bytes → Node → Node
on_adnl_message env client_id payload n =
    after_loop env.now
      (dispatch_loop (suc (length payload)) env client_id payload 0 (count_rx (length payload) n))

-- The streams of the table that have been idle for longer than the limit.
unfoldable pub stale_streams : ℕ → ℕ → List Stream → List (Bytes × ℕ) → List (Bytes × ℕ)
stale_streams now limit_ms objects [] = []
stale_streams now limit_ms objects ((key, p) ∷ table) =
    let rest = stale_streams now limit_ms objects table in
    elim (get_elem? objects p) [
      | none ↦ rest
      | some s ↦
          if ltb limit_ms (now - s.last_activity_ms)
          then (s.client_id, s.stream_id) ∷ rest
          else rest
    ]

unfoldable pub keep_recent : ℕ → List (Bytes × ℕ) → List (Bytes × ℕ)
keep_recent now [] = []
keep_recent now ((key, closed_at) ∷ table) =
    let rest = keep_recent now table in
    if ltb recently_closed_grace_ms (now - closed_at) then rest else (key, closed_at) ∷ rest

unfoldable pub close_all : ℕ → List (Bytes × ℕ) → Node → Node
close_all now [] n = n
close_all now ((client, stream_id) ∷ stale) n =
    close_all now stale (close_stream now client stream_id idle_timeout n).0

-- One round of monitorIdleTimeoutLoop.
unfoldable pub idle_round : ℕ → Node → Node
idle_round now n =
    let stale = stale_streams now (n.config.idle_timeout_sec * 1000) n.objects n.streams in
    close_all now stale (record n { recently_closed = keep_recent now n.recently_closed })

-- EgressNode::start, on what the transport's start answers.
unfoldable pub start : Bool → Node → Node × Bool
start transport_started n =
    if transport_started then (record n { running = true }, true) else (n, false)

-- The last loop of EgressNode::stop, on the snapshot of the table.
unfoldable pub shut_all : List (Bytes × ℕ) → Node → Node
shut_all [] n = n
shut_all ((key, p) ∷ table) n = elim (get_elem? n.objects p) [
  | none ↦ shut_all table n
  | some s ↦
      shut_all table
        (release_fd s.fd (store p (record s { closed = true; fd = none; joinable = false }) n))
]

unfoldable pub stop : Node → Node
stop n =
    let cleared = record n {
      running = false;
      streams = [];
      streams_per_client = [];
      log = transport_stopped ∷ n.log;
    } in
    if n.running then shut_all n.streams cleared else n
