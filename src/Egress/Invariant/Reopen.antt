-- ===== src/Egress/Invariant/Reopen.antt =====
-- An OPEN for a stream id that is in use: `handleOpen` and `closeStream` of
-- ton-egress-node/src/egress_node.cpp.
use ton_tunnel.Base.{
  ℕ, ◌<◌, ◌≡◌, none, some, Bytes, length, lookup, lookup-insert_self, bytes_eq, bytes_beq_iff,
  arith,
}
use ton_tunnel.Egress.State.{Node, key_for, client_count}
use ton_tunnel.Egress.Streams.{Reason, close_stream}
use ton_tunnel.Egress.Streams.Close.{close_stream-table}
use ton_tunnel.Egress.Open.{register_stream}
use ton_tunnel.Egress.Invariant.{IsSound, count_of}
use ton_tunnel.Egress.Invariant.Handlers.{
  IsSound-register_stream, register_stream-count_of, close_stream-count_of,
}

pub register_stream-lookup :
    (now : ℕ) (c : Bytes) (id fd : ℕ) (n : Node)
    → lookup (key_for c id) (register_stream now c id fd n).streams ≡ some (length n.objects)
unfolding register_stream
register_stream-lookup now c id fd n =
    lookup-insert_self (key_for c id) (length n.objects) n.streams

-- A stream id in use is registered again, and then closed.
abbrev pub reopened : ℕ → Bytes → ℕ → ℕ → Reason → Node → Node
reopened now c id fd reason n = (close_stream now c id reason (register_stream now c id fd n)).0

-- If a client that is below the limit opens a stream id that it has in use, and the id is then
-- closed, the key is gone from the table and the client's count is what it was: the old stream's
-- slot is not given back.
pub reopened-count :
    (now : ℕ) (c : Bytes) (id fd p : ℕ) (reason : Reason) (n : Node)
    → IsSound n
    → lookup (key_for c id) n.streams ≡ some p
    → client_count c n < n.config.max_streams
    → (lookup (key_for c id) (reopened now c id fd reason n).streams ≡ none)
      × (count_of c (reopened now c id fd reason n).streams_per_client
          ≡ count_of c n.streams_per_client)
reopened-count now c id fd p reason n v e h = ground (
  arith,
  close_stream-table now c id reason (register_stream now c id fd n) (key_for c id),
  bytes_beq_iff (key_for c id) (key_for c id),
  register_stream-count_of now c id fd c n,
  close_stream-count_of now c id reason (register_stream now c id fd n) c (length n.objects)
      (IsSound-register_stream now c id fd n v h) (register_stream-lookup now c id fd n),
  bytes_beq_iff c c,
)
