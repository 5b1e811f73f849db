-- ===== src/Egress/Relay/Late.antt =====
-- DATA for a stream that has just been closed: `closeStream` and `handleData` of
-- ton-egress-node/src/egress_node.cpp.
use ton_tunnel.Base.{
  ℕ, ◌+◌, ◌≤◌, ◌<◌, ◌≡◌, Option, none, Bytes, codes, length, lookup, bytes_eq, bytes_beq_iff, arith,
}
use ton_tunnel.Egress.State.{Node, key_for, send_error}
use ton_tunnel.Egress.Streams.{Reason, close_stream}
use ton_tunnel.Egress.Streams.Close.{close_stream-table, close_stream-recent, close_stream-config}
use ton_tunnel.Egress.Relay.{handle_data, data_without_stream}

module _ (t : ℕ) (c : Bytes) (id : ℕ) (reason : Reason) (n : Node) where
  abbrev closed : Node
  closed = (close_stream t c id reason n).0

  closed-absent : lookup (key_for c id) closed.streams ≡ none
  closed-absent = ground (
    arith,
    close_stream-table t c id reason n (key_for c id),
    bytes_beq_iff (key_for c id) (key_for c id),
  )

  -- Within two seconds of the close, DATA for a closed stream that keeps to the payload limit
  -- changes nothing, and nothing is answered.
  pub handle_data-late :
      (now : ℕ) (payload : Bytes) (accepted : Option ℕ)
      → length payload ≤ n.config.egress.max_payload_bytes
      → now ≤ t + 2000
      → handle_data now c id payload accepted closed ≡ closed
  unfolding handle_data data_without_stream
  handle_data-late now payload accepted fits soon = ground (
    arith,
    fits,
    soon,
    closed-absent,
    close_stream-recent t c id reason n,
    close_stream-config t c id reason n,
  )

  -- More than two seconds after the close, DATA that keeps to the payload limit is answered by the
  -- error that there is no such stream.
  pub handle_data-later :
      (now : ℕ) (payload : Bytes) (accepted : Option ℕ)
      → length payload ≤ n.config.egress.max_payload_bytes
      → t + 2000 < now
      → handle_data now c id payload accepted closed
        ≡ send_error c id (codes "stream not found") closed
  unfolding handle_data data_without_stream
  handle_data-later now payload accepted fits late = ground (
    arith,
    fits,
    late,
    closed-absent,
    close_stream-recent t c id reason n,
    close_stream-config t c id reason n,
  )
