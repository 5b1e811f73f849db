-- ===== src/Adnl.antt =====
-- `AdnlBackendRuntime` of ton-egress-node/src/ton_adnl_backend.cpp: the queries that wait for an
-- answer, the known clients and the counters. The ADNL actors are calls of the TON library: what is
-- sent or settled is a log, newest first, and a promise is a number. The handler that the egress node
-- sets is given by the packets that it sends while it handles a payload.
pub mod Promises
pub mod Uses
pub mod Keys
pub mod Runtime
use ton_tunnel.Base.{
  ℕ, ◌+◌, ◌-◌, ◌*◌, ◌^◌, List, [], ◌∷◌, ◌++◌, Bool, true, false, not, ◌&&◌, ◌||◌, Option, none,
  some, Bytes, codes, length, get_or, drop, ltb, leb, ◌==◌, if◌then◌else◌, lookup, insert, erase,
  bytes_eq, to_decimal, u8, bit_or,
}
use ton_tunnel.Wire.{read_u32}

pub data Event : Type 0 where
  answered : (promise : ℕ) (payload : Bytes) → Event
  failed : (promise : ℕ) (text : Bytes) → Event
  messaged : (destination : ℕ) (payload : Bytes) → Event

pub record Traffic : Type 0 where
  pub tx_bytes : ℕ
  pub rx_bytes : ℕ
  pub opens : ℕ
  pub closes : ℕ
  pub errors : ℕ
  pub data_frames : ℕ
  pub last_ms : ℕ

-- `ready` is whether adnl_ holds an actor.
pub record Backend : Type 0 where
  pub running : Bool
  pub ready : Bool
  pub known_clients : List (Bytes × ℕ)
  pub pending : List (Bytes × ℕ)
  pub traffic : Traffic
  pub events : List Event

-- maybe_log_counters
unfoldable pub log_traffic : ℕ → Traffic → Traffic
log_traffic now t =
    let last = if t.last_ms == 0 then now else t.last_ms in
    if ltb (now - last) 5000 then record t { last_ms = last } else record {
      tx_bytes = 0;
      rx_bytes = 0;
      opens = 0;
      closes = 0;
      errors = 0;
      data_frames = 0;
      last_ms = now;
    }

-- extract_stream_key: the empty string for a payload without a header
unfoldable pub extract_stream_key : Bytes → Bytes → Bytes
extract_stream_key client_id payload =
    if ltb (length payload) 5
    then []
    else client_id ++ codes "#" ++ to_decimal (read_u32 (drop 1 payload))

unfoldable pub settle : Event → Bytes → Backend → Backend
settle event key b = record b { pending = erase key b.pending; events = event ∷ b.events }

-- A packet answers the query of its stream that is waiting, if there is one.
unfoldable pub answer_pending : Bytes → Bytes → Backend → Backend
answer_pending key payload b = elim key [
  | [] ↦ b
  | k ∷ ks ↦ elim (lookup (k ∷ ks) b.pending) [
    | none ↦ b
    | some promise ↦ settle (answered promise payload) (k ∷ ks) b
  ]
]

unfoldable pub count_sent : Bytes → Traffic → Traffic
count_sent payload t =
    let frame_type = get_or payload 0 0 in
    record t {
      tx_bytes = t.tx_bytes + length payload;
      opens = if frame_type == 1 then t.opens + 1 else t.opens;
      closes = if frame_type == 3 then t.closes + 1 else t.closes;
      errors = if frame_type == 4 then t.errors + 1 else t.errors;
      data_frames = if frame_type == 2 then t.data_frames + 1 else t.data_frames;
    }

-- To a known client the packet goes as a message too, whether or not it answered a query.
unfoldable pub message_client : ℕ → Bytes → Bytes → Backend → Backend × Bool
message_client now client_id payload b = elim (lookup client_id b.known_clients) [
  | none ↦ (b, false)
  | some destination ↦ (
    record b {
      events = messaged destination payload ∷ b.events;
      traffic = count_sent payload (log_traffic now b.traffic);
    },
    true,
  )
]

unfoldable pub send_to_client : ℕ → Bytes → Bytes → Backend → Backend × Bool
send_to_client now client_id payload b = elim payload [
  | [] ↦ (b, false)
  | p ∷ ps ↦
      if not b.running || not b.ready
      then (b, false)
      else message_client now client_id (p ∷ ps)
          (answer_pending (extract_stream_key client_id (p ∷ ps)) (p ∷ ps) b)
]

-- The packets of a handler, each with its client.
unfoldable pub send_all : ℕ → List (Bytes × Bytes) → Backend → Backend
send_all now [] b = b
send_all now ((client_id, payload) ∷ rest) b =
    send_all now rest (send_to_client now client_id payload b).0

abbrev pub Handler : Type 0
Handler = Option (Bytes → Bytes → List (Bytes × Bytes))

-- The promise that waited under the key gives way to the new one.
unfoldable pub add_pending : Bytes → ℕ → Backend → Backend
add_pending key promise b = elim (lookup key b.pending) [
  | none ↦ record b { pending = insert key promise b.pending }
  | some old ↦
      let cleared = settle (failed old (codes "query superseded by new request")) key b in
      record cleared { pending = insert key promise cleared.pending }
]

unfoldable pub fail_pending : Bytes → Bytes → Backend → Backend
fail_pending key text b = elim (lookup key b.pending) [
  | none ↦ b
  | some promise ↦ settle (failed promise text) key b
]

unfoldable pub handle_query : ℕ → Handler → Bytes → Bytes → Bytes → Backend → Backend
handle_query now none key client_id payload b =
    fail_pending key (codes "egress handler is not set") b
handle_query now (some handler) key client_id payload b = send_all now (handler client_id payload) b

-- on_adnl_query: the source's node id, its serialised form, and the query with its promise.
unfoldable pub on_adnl_query : ℕ → Handler → ℕ → Bytes → Bytes → ℕ → Backend → Backend
on_adnl_query now handler source client_id payload promise b =
    let key = extract_stream_key client_id payload in
    elim key [
      | [] ↦ record b { events = failed promise (codes "invalid query frame") ∷ b.events }
      | k ∷ ks ↦
          let known = record b { known_clients = insert client_id source b.known_clients } in
          handle_query now handler (k ∷ ks) client_id payload (add_pending (k ∷ ks) promise known)
    ]

unfoldable pub on_adnl_message : ℕ → Handler → ℕ → Bytes → Bytes → Backend → Backend
on_adnl_message now handler source client_id payload b =
    let t = b.traffic in
    let known = record b {
      known_clients = insert client_id source b.known_clients;
      traffic = record t { rx_bytes = t.rx_bytes + length payload };
    } in
    let handled : Backend = elim handler [
      | none ↦ known
      | some h ↦ send_all now (h client_id payload) known
    ] in
    record handled { traffic = log_traffic now handled.traffic }

-- The digits of maybe_decode_hex; none is -1.
unfoldable pub hex_to_int : ℕ → Option ℕ
hex_to_int c =
    if leb b'0' c && leb c b'9'
    then some (c - b'0')
    else if leb b'a' c && leb c b'f'
    then some (10 + (c - b'a'))
    else if leb b'A' c && leb c b'F'
    then some (10 + (c - b'A'))
    else none

unfoldable pub hex_byte : ℕ → ℕ → Option ℕ
hex_byte x y = elim (hex_to_int x) [
  | none ↦ none
  | some hi ↦ elim (hex_to_int y) [ none ↦ none | some lo ↦ some (u8 (bit_or (hi * 2 ^ 4) lo)) ]
]

-- The loop over pairs of digits: none is the cleared result of a bad digit or an odd length.
unfoldable pub decode_pairs : Bytes → Option Bytes
decode_pairs [] = some []
decode_pairs (x ∷ []) = none
decode_pairs (x ∷ y ∷ value) =
    let rest = decode_pairs value in
    elim (hex_byte x y) [
      | none ↦ none
      | some b ↦ elim rest [ none ↦ none | some out ↦ some (b ∷ out) ]
    ]

unfoldable pub maybe_decode_hex : Bytes → Bytes
maybe_decode_hex value = elim (decode_pairs value) [ none ↦ [] | some out ↦ out ]

-- The TL id of a private key, the bytes of an int32 of the TON library, is a parameter.
unfoldable pub normalize_private_key : Bytes → Bytes → Bytes
normalize_private_key tl_id value =
    let raw = maybe_decode_hex value in
    elim raw [
      | [] ↦ value
      | r ∷ rs ↦
          if length (r ∷ rs) == 36
          then r ∷ rs
          else if length (r ∷ rs) == 32
          then tl_id ++ r ∷ rs
          else r ∷ rs
    ]
