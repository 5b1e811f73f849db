-- ===== src/Egress/Invariant/Reach.antt =====
-- The steps of a node (ton-egress-node/src/egress_node.cpp) in any order: messages of the transport,
-- rounds of the readers and of the idle monitor, start and stop.
use ton_tunnel.Base.{
  ℕ, suc, zero, ◌+◌, ◌≡◌, refl, List, [], ◌∷◌, Bool, true, false, Option, none, some, Bytes, length,
  ltb, get_elem?, lookup, bytes_eq, arith, Bool-cases, inl, inr, Option-cases,
}
use ton_tunnel.Protocol.{
  DecodedMessage, MessageType, open_type, data_type, close_type, error_type, unnamed,
}
use ton_tunnel.Egress.State.{Node, Config, new_node, Stream, transport_stopped, store}
use ton_tunnel.Egress.Streams.{release_fd}
use ton_tunnel.Egress.Relay.{reader_round}
use ton_tunnel.Egress.Run.{
  Env, dispatch, LoopEnd, dispatch_loop, after_loop, exhausted, bad_format, bad_frame, no_fuel,
  on_adnl_message, count_rx, idle_round, start, stop, shut_all,
}
use ton_tunnel.Egress.Run.Dispatch.{next_frame-Cut}
use ton_tunnel.Egress.Streams.Keys.{entries}
use ton_tunnel.Egress.Invariant.{IsSound, count_of}
use ton_tunnel.Egress.Invariant.Handlers.{IsSound-handle_close, IsSound-handle_open}
use ton_tunnel.Egress.Invariant.Steps.{
  IsSound-new_node, IsSound-handle_data, IsSound-reader_round, IsSound-idle_round,
}

IsSound-dispatch :
    (env : Env) (c : Bytes) (msg : DecodedMessage) (n : Node)
    → IsSound n
    → IsSound (dispatch env c msg n)
unfolding dispatch
IsSound-dispatch env c msg n v = go msg.type refl
  where
    go : (t : MessageType) → msg.type ≡ t → IsSound (dispatch env c msg n)
    go open_type et = elim (Option-cases msg.open_part) [
      | inl e ↦ rw (et, dispatch, e) v
      | inr (m, e) ↦
          rw (et, dispatch, e)
            (IsSound-handle_open env.net env.now c m.stream_id m.host m.port m.token n v)
    ]
    go data_type et = elim (Option-cases msg.data_part) [
      | inl e ↦ rw (et, dispatch, e) v
      | inr (m, e) ↦
          rw (et, dispatch, e)
            (IsSound-handle_data env.now c m.stream_id m.payload (env.send m.payload) n v)
    ]
    go close_type et = elim (Option-cases msg.close_part) [
      | inl e ↦ rw (et, dispatch, e) v
      | inr (m, e) ↦ rw (et, dispatch, e) (IsSound-handle_close env.now c m.stream_id n v)
    ]
    go error_type et = rw (et, dispatch) v
    go (unnamed b) et = rw (et, dispatch) v

IsSound-after_loop :
    (now : ℕ) (m : Node) (e : LoopEnd) → IsSound m → IsSound (after_loop now (m, e))
unfolding after_loop
IsSound-after_loop now m exhausted v = v
IsSound-after_loop now m bad_format v = v
IsSound-after_loop now m bad_frame v = v
IsSound-after_loop now m no_fuel v = v

IsSound-dispatch_loop :
    (fuel : ℕ) (env : Env) (c payload : Bytes) (offset : ℕ) (n : Node)
    → IsSound n
    → IsSound (dispatch_loop fuel env c payload offset n).0
unfolding dispatch_loop
IsSound-dispatch_loop zero env c payload offset n v = v
IsSound-dispatch_loop (suc fuel) env c payload offset n v =
    elim (Bool-cases (ltb offset (length payload))) [
      | inr over ↦ rw (over, dispatch_loop) v
      | inl more ↦ elim (next_frame-Cut payload offset) [
        | inl e ↦ rw (more, dispatch_loop, e) v
        | inr (k, msg, e, pos, fits) ↦
            rw (more, dispatch_loop, e)
              (IsSound-dispatch_loop fuel env c payload (offset + k) (dispatch env c msg n)
                (IsSound-dispatch env c msg n v))
      ]
    ]

IsSound-on_adnl_message :
    (env : Env) (c payload : Bytes) (n : Node)
    → IsSound n
    → IsSound (on_adnl_message env c payload n)
unfolding on_adnl_message
IsSound-on_adnl_message env c payload n v =
    let r = dispatch_loop (suc (length payload)) env c payload 0 (count_rx (length payload) n) in
    IsSound-after_loop env.now r.0 r.1
      (IsSound-dispatch_loop (suc (length payload)) env c payload 0 (count_rx (length payload) n) v)

shut_all-keeps :
    (table : List (Bytes × ℕ)) (n : Node)
    → ((shut_all table n).config ≡ n.config)
      × ((shut_all table n).streams ≡ n.streams)
      × ((shut_all table n).streams_per_client ≡ n.streams_per_client)
unfolding shut_all release_fd
shut_all-keeps [] n = (refl, refl, refl)
shut_all-keeps ((key, p) ∷ table) n = elim (Option-cases (get_elem? n.objects p)) [
  | inl e ↦ ground (arith, e, shut_all-keeps table n)
  | inr (s, e) ↦ ground (
    arith,
    e,
    shut_all-keeps table
        (release_fd s.fd (store p (record s { closed = true; fd = none; joinable = false }) n)),
  )
]

-- No entries need no objects.
IsSound-cleared : (n : Node) → n.streams ≡ [] → n.streams_per_client ≡ [] → IsSound n
unfolding entries count_of lookup
IsSound-cleared n es ep = record {
  single = ground (arith, es);
  linked = λ k p e. ground (arith, e, es);
  counted = λ c. ground (arith, es, ep);
  limited = λ c. ground (arith, ep);
}

IsSound-stop : (n : Node) → IsSound n → IsSound (stop n)
unfolding stop
IsSound-stop n v = elim (Bool-cases n.running) [
  | inr e ↦ ground (arith, e, v)
  | inl e ↦
      let cleared = record n {
        running = false;
        streams = [];
        streams_per_client = [];
        log = transport_stopped ∷ n.log;
      } in
      let (c, t, p) = shut_all-keeps n.streams cleared in
      rw (e, stop) (IsSound-cleared (shut_all n.streams cleared) t p)
]

IsSound-start : (ok : Bool) (n : Node) → IsSound n → IsSound (start ok n).0
unfolding start
IsSound-start true n v = v
IsSound-start false n v = v

-- What happens to a node at once. A reader holds its object whether or not the table still does.
pub data Step : Node → Node → Type 0 where
  message :
      (env : Env) (client_id payload : Bytes) (n : Node)
      → Step n (on_adnl_message env client_id payload n)
  reading :
      (now : ℕ) (accepts : ℕ → Bool) (received : Option Bytes) (p : ℕ) (s : Stream) (n : Node)
      → get_elem? n.objects p ≡ some s
      → Step n (reader_round now accepts received p s n)
  idling : (now : ℕ) (n : Node) → Step n (idle_round now n)
  starting : (ok : Bool) (n : Node) → Step n (start ok n).0
  stopping : (n : Node) → Step n (stop n)

pub data Reachable (config : Config) : Node → Type 0 where
  fresh : Reachable config (new_node config)
  next : (n m : Node) → Reachable config n → Step n m → Reachable config m

pub IsSound-Step : (n m : Node) → Step n m → IsSound n → IsSound m
IsSound-Step n _ (message env c payload _) v = IsSound-on_adnl_message env c payload n v
IsSound-Step n _ (reading now accepts received p s _ o) v =
    IsSound-reader_round now accepts received p s n v o
IsSound-Step n _ (idling now _) v = IsSound-idle_round now n v
IsSound-Step n _ (starting ok _) v = IsSound-start ok n v
IsSound-Step n _ (stopping _) v = IsSound-stop n v

-- In every node reached from a fresh one by messages, reader rounds, idle rounds, starts and stops
-- in any order, the table has no key twice, each entry points to an open object of that key, and a
-- client's entries are at most its count, which is at most max_streams.
pub Reachable-IsSound : (config : Config) (n : Node) → Reachable config n → IsSound n
Reachable-IsSound config _ fresh = IsSound-new_node config
Reachable-IsSound config _ (next n m r s) = IsSound-Step n m s (Reachable-IsSound config n r)
