-- ===== src/Egress/Invariant/Steps.antt =====
-- The invariant under `handleData`, a reader's round and the idle monitor's round of
-- ton-egress-node/src/egress_node.cpp.
use ton_tunnel.Base.{
  ℕ, suc, zero, ◌+◌, ◌*◌, ◌≡◌, refl, ap, List, [], ◌∷◌, Bool, Option, none, some, Bytes, length,
  get_elem?, lookup, bytes_eq, arith, inl, inr, Option-cases,
}
use ton_tunnel.Egress.State.{Node, Config, new_node, Stream, key_for, store, send_error}
use ton_tunnel.Egress.Streams.{
  close_stream, remote_closed, push_failed, tcp_write_failed, idle_timeout,
}
use ton_tunnel.Egress.Relay.{
  data_without_stream, write_to_target, data_on_stream, handle_data, push_chunk, push_chunks,
  reader_round,
}
use ton_tunnel.Egress.Run.{idle_round, close_all, stale_streams, keep_recent}
use ton_tunnel.Egress.Streams.Keys.{entries}
use ton_tunnel.Egress.Invariant.{IsSound, count_of}
use ton_tunnel.Egress.Invariant.Tables.{Inv-store}
use ton_tunnel.Egress.Invariant.Handlers.{IsSound-fields, IsSound-close_stream}

pub IsSound-new_node : (config : Config) → IsSound (new_node config)
unfolding new_node count_of lookup entries
IsSound-new_node config = record {
  single = tt;
  linked = λ k p e. cc;
  counted = λ c. omega arith;
  limited = λ c. omega arith;
}

-- A pointer that a reader or a handler holds.
IsSound-touch :
    (now p : ℕ) (s : Stream) (n : Node)
    → IsSound n
    → get_elem? n.objects p ≡ some s
    → IsSound (store p (record s { last_activity_ms = now }) n)
IsSound-touch now p s n v o =
    Inv-store n.config.max_streams n.objects n.streams n.streams_per_client p s
      (record s { last_activity_ms = now }) v o refl refl refl

IsSound-data_without_stream :
    (now : ℕ) (c : Bytes) (id : ℕ) (n : Node) → IsSound n → IsSound (data_without_stream now c id n)
unfolding data_without_stream send_error
IsSound-data_without_stream now c id n v = ground (arith, v)

IsSound-write_to_target :
    (now : ℕ) (c : Bytes) (id : ℕ) (payload : Bytes) (accepted : Option ℕ) (fd p : ℕ) (s : Stream)
    (n : Node)
    → IsSound n
    → get_elem? n.objects p ≡ some s
    → IsSound (write_to_target now c id payload accepted fd p s n)
unfolding write_to_target
IsSound-write_to_target now c id payload none fd p s n v o =
    IsSound-close_stream now c id tcp_write_failed n v
IsSound-write_to_target now c id payload (some k) fd p s n v o = IsSound-touch now p s n v o

IsSound-data_on_stream :
    (now : ℕ) (c : Bytes) (id : ℕ) (payload : Bytes) (accepted : Option ℕ) (p : ℕ) (s : Stream)
    (n : Node)
    → IsSound n
    → get_elem? n.objects p ≡ some s
    → IsSound (data_on_stream now c id payload accepted p s n)
unfolding data_on_stream send_error
IsSound-data_on_stream now c id [] accepted p s n v o = ground (arith, v)
IsSound-data_on_stream now c id (b ∷ bs) accepted p s n v o = elim (Option-cases s.fd) [
  | inl e ↦ ground (arith, v, e)
  | inr (fd, e) ↦
      ground (arith, v, e, IsSound-write_to_target now c id (b ∷ bs) accepted fd p s n v o)
]

pub IsSound-handle_data :
    (now : ℕ) (c : Bytes) (id : ℕ) (payload : Bytes) (accepted : Option ℕ) (n : Node)
    → IsSound n
    → IsSound (handle_data now c id payload accepted n)
unfolding handle_data send_error
IsSound-handle_data now c id payload accepted n v =
    elim (Option-cases (lookup (key_for c id) n.streams)) [
      | inl e ↦ ground (arith, v, e, IsSound-data_without_stream now c id n v)
      | inr (p, e) ↦
          let at_p = v.linked (key_for c id) p e in
          ground (
            arith,
            v,
            e,
            at_p.found,
            IsSound-data_on_stream now c id payload accepted p at_p.object n v at_p.found,
          )
    ]

push_chunk-keeps :
    (buf : Bytes) (offset : ℕ) (s : Stream) (n : Node)
    → let m = push_chunk buf offset s n in
      (m.config ≡ n.config)
      × (m.objects ≡ n.objects)
      × (m.streams ≡ n.streams)
      × (m.streams_per_client ≡ n.streams_per_client)
unfolding push_chunk
push_chunk-keeps buf offset s n = (refl, refl, refl, refl)

push_chunks-keeps :
    (accepts : ℕ → Bool) (rounds : ℕ) (buf : Bytes) (offset : ℕ) (s : Stream) (n : Node)
    → let m = (push_chunks accepts rounds buf offset s n).0 in
      (m.config ≡ n.config)
      × (m.objects ≡ n.objects)
      × (m.streams ≡ n.streams)
      × (m.streams_per_client ≡ n.streams_per_client)
unfolding push_chunks
push_chunks-keeps accepts zero buf offset s n = (refl, refl, refl, refl)
push_chunks-keeps accepts (suc rounds) buf offset s n = ground (
  arith,
  push_chunk-keeps buf offset s n,
  push_chunks-keeps accepts rounds buf (offset + 1200) s (push_chunk buf offset s n),
)

IsSound-push_chunks :
    (accepts : ℕ → Bool) (rounds : ℕ) (buf : Bytes) (offset : ℕ) (s : Stream) (n : Node)
    → IsSound n
    → IsSound (push_chunks accepts rounds buf offset s n).0
IsSound-push_chunks accepts rounds buf offset s n v =
    let (c, o, t, p) = push_chunks-keeps accepts rounds buf offset s n in
    IsSound-fields (push_chunks accepts rounds buf offset s n).0 n.config.max_streams n.objects
      n.streams n.streams_per_client v (ap (λ x. x.max_streams) c) o t p

pub IsSound-reader_round :
    (now : ℕ) (accepts : ℕ → Bool) (received : Option Bytes) (p : ℕ) (s : Stream) (n : Node)
    → IsSound n
    → get_elem? n.objects p ≡ some s
    → IsSound (reader_round now accepts received p s n)
unfolding reader_round
IsSound-reader_round now accepts none p s n v o =
    ground (arith, v, IsSound-close_stream now s.client_id s.stream_id remote_closed n v)
IsSound-reader_round now accepts (some buf) p s n v o =
    let s' = record s { last_activity_ms = now } in
    let w =
      IsSound-push_chunks accepts (suc (length buf)) buf 0 s' (store p s' n)
        (IsSound-touch now p s n v o) in
    ground (
      arith,
      v,
      w,
      IsSound-close_stream now s.client_id s.stream_id push_failed
          (push_chunks accepts (suc (length buf)) buf 0 s' (store p s' n)).0 w,
    )

IsSound-close_all :
    (now : ℕ) (stale : List (Bytes × ℕ)) (n : Node) → IsSound n → IsSound (close_all now stale n)
unfolding close_all
IsSound-close_all now [] n v = v
IsSound-close_all now ((c, id) ∷ stale) n v =
    IsSound-close_all now stale (close_stream now c id idle_timeout n).0
      (IsSound-close_stream now c id idle_timeout n v)

pub IsSound-idle_round : (now : ℕ) (n : Node) → IsSound n → IsSound (idle_round now n)
unfolding idle_round
IsSound-idle_round now n v =
    IsSound-close_all now (stale_streams now (n.config.idle_timeout_sec * 1000) n.objects n.streams)
      (record n { recently_closed = keep_recent now n.recently_closed }) v
