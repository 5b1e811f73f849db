-- ===== src/Egress/Streams.antt =====
-- `closeStream` and `handleClose` of ton-egress-node/src/egress_node.cpp.
pub mod Close
pub mod Keys
use ton_tunnel.Base.{
  ℕ, ◌+◌, ◌-◌, ◌≡◌, List, [], ◌∷◌, ◌++◌, Bool, true, false, Option, none, some, Bytes, ltb,
  if◌then◌else◌, get_elem?, lookup, insert, erase, bytes_eq, set,
}
use ton_tunnel.Protocol.{encode_close, CloseMessage}
use ton_tunnel.Egress.State.{
  Node, Stream, Counters, Effect, sent, shut, released, emit, store, key_for, client_count,
}

-- The texts "remote closed", "idle timeout", "client close", "tcp write failed" and "push failed"
-- that the callers pass. (The two of the exception handlers are not modelled.)
pub data Reason : Type 0 where
  remote_closed idle_timeout client_close tcp_write_failed push_failed : Reason

unfoldable pub count_close : Reason → Counters → Counters
count_close remote_closed c = record c { close_remote_closed = c.close_remote_closed + 1 }
count_close idle_timeout c = record c { close_idle_timeout = c.close_idle_timeout + 1 }
count_close client_close c = record c { close_client_close = c.close_client_close + 1 }
count_close tcp_write_failed c = record c { close_tcp_write_failed = c.close_tcp_write_failed + 1 }
count_close push_failed c = record c { close_push_failed = c.close_push_failed + 1 }

-- recently_closed_streams_ms_[key] = nowMs()
unfoldable pub note_closed : Bytes → ℕ → Node → Node
note_closed key now n = record n { recently_closed = insert key now n.recently_closed }

-- The count goes down only from above zero.
unfoldable pub drop_count : Bytes → Node → Node
drop_count client_id n = elim (lookup client_id n.streams_per_client) [
  | none ↦ n
  | some k ↦
      if ltb 0 k
      then record n { streams_per_client = insert client_id (k - 1) n.streams_per_client }
      else n
]

-- Shut down and close the descriptor, if there is one.
unfoldable pub release_fd : Option ℕ → Node → Node
release_fd none n = n
release_fd (some fd) n = emit (released fd) (emit (shut fd) n)

-- What happens to the object after it left the table: the first closer releases the descriptor and
-- tells the client; the thread is joined or detached.
unfoldable pub finish_stream : Bytes → ℕ → ℕ → Stream → Node → Node
unfolding release_fd
finish_stream client_id stream_id p s n =
    if s.closed
    then store p (record s { joinable = false }) n
    else emit (sent client_id (encode_close (record { stream_id = stream_id })))
        (release_fd s.fd (store p (record s { closed = true; fd = none; joinable = false }) n))

-- The locked part for a stream that is in the table.
unfoldable pub remove_entry : ℕ → Bytes → ℕ → Node → Node
unfolding drop_count note_closed
remove_entry now client_id stream_id n =
    let key = key_for client_id stream_id in
    drop_count client_id (note_closed key now (record n { streams = erase key n.streams }))

unfoldable pub close_stream : ℕ → Bytes → ℕ → Reason → Node → Node × Bool
close_stream now client_id stream_id reason n =
    let key = key_for client_id stream_id in
    let counted = record n { counters = count_close reason n.counters } in
    let removed = remove_entry now client_id stream_id counted in
    elim (lookup key n.streams) [
      | none ↦ (note_closed key now counted, false)
      | some p ↦ elim (get_elem? n.objects p) [
        | none ↦ (removed, true)
        | some s ↦ (finish_stream client_id stream_id p s removed, true)
      ]
    ]

unfoldable pub handle_close : ℕ → Bytes → ℕ → Node → Node
handle_close now client_id stream_id n =
    let (m, had_stream) = close_stream now client_id stream_id client_close n in
    if had_stream
    then m
    else emit (sent client_id (encode_close (record { stream_id = stream_id }))) m
