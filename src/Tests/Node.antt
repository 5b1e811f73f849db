-- ===== src/Tests/Node.antt =====
-- The egress node's theorems in a small world.
use ton_tunnel.Base.{
  suc, ◌*◌, ◌≡◌, ◌↔◌, ◌⊎◌, refl, List, [], ◌∷◌, true, none, some, Bytes, codes, length, arith,
  lookup, insert, bytes_eq, bytes_beq, if◌then◌else◌,
}
use ton_tunnel.Hope.{Message, open_request, payload, close, batch}
use ton_tunnel.Egress.State.{Node, released, key_for, client_count, default_config, new_node}
use ton_tunnel.Egress.Policy.{is_blocked_value}
use ton_tunnel.Egress.Policy.Addresses.{address, InBlockedRange, is_blocked_value_iff}
use ton_tunnel.Egress.Connect.{connect_ipv4_with_timeout, connect_keeps_or_releases}
use ton_tunnel.Egress.Streams.{client_close, close_stream}
use ton_tunnel.Egress.Invariant.Handlers.{IsSound-register_stream}
use ton_tunnel.Egress.Open.{
  register_stream, Refusal, touch_client, resolve_and_connect, handle_open,
}
use ton_tunnel.Egress.Open.Guards.{Unchanged, Opened, handle_open-guarded}
use ton_tunnel.Egress.Open.Checks.{FailsFirst, PassesAll}
use ton_tunnel.Egress.Open.Refusals.{Answered, handle_open-refused}
use ton_tunnel.Egress.Run.{on_adnl_message, count_rx, maybe_log_counters, dispatch_loop, idle_round}
use ton_tunnel.Egress.Run.Dispatch.{
  handle_messages, on_adnl_message-batch, on_adnl_message_ends, Ended,
}
use ton_tunnel.Egress.Invariant.{IsSound, count_of}
use ton_tunnel.Egress.Invariant.Reach.{Reachable, fresh, next, message, idling, Reachable-IsSound}
use ton_tunnel.Egress.Invariant.Idle.{idle_round-table, is_idle}
use ton_tunnel.Egress.Invariant.Reopen.{reopened, reopened-count, register_stream-lookup}
use ton_tunnel.Tests.World.{net, env, client, host, good_calls, node}

is_blocked_value_iff_example :
    (is_blocked_value (address 192 168 1 1) ≡ true) ↔ InBlockedRange 192 168
is_blocked_value_iff_example =
    is_blocked_value_iff 192 168 1 1 (omega arith) (omega arith) (omega arith) (omega arith)

connect_keeps_or_releases_example :
    (connect_ipv4_with_timeout good_calls ≡ (some 7, []))
    ⊎ (connect_ipv4_with_timeout good_calls ≡ (none, released 7 ∷ []))
connect_keeps_or_releases_example = connect_keeps_or_releases good_calls 7 refl

abbrev closed_node : Node
closed_node = (close_stream 2000 client 5 client_close node).0

abbrev ping : Bytes
ping = codes "ping"

handle_open-refused_example :
    let m = handle_open net 2000 client 6 host 22 [] node in
    ((r : Refusal) × FailsFirst client host 22 [] node r × Answered client 6 r node m)
    ⊎ (PassesAll client host 22 [] node
        × (m ≡ resolve_and_connect net 2000 client 6 host 22 (touch_client client node)))
handle_open-refused_example = handle_open-refused net 2000 client 6 host 22 [] node

handle_open-guarded_example :
    Unchanged node (handle_open net 2000 client 6 host 443 [] node)
    ⊎ Opened net 2000 client 6 host 443 [] node (handle_open net 2000 client 6 host 443 [] node)
handle_open-guarded_example = handle_open-guarded net 2000 client 6 host 443 [] node

abbrev requests : List Message
requests = open_request 6 host 443 [] ∷ payload 6 ping ∷ close 6 ∷ []

on_adnl_message-batch_example : on_adnl_message env client (batch requests) node ≡ (
    let m = handle_messages env client requests (count_rx (length (batch requests)) node) in
    record m { counters = maybe_log_counters 1000 m.counters })
on_adnl_message-batch_example = on_adnl_message-batch env client requests node (
  ((omega arith, omega arith, omega arith, omega arith), tt),
  (((omega arith, omega arith), tt), ((omega arith, tt), tt)),
)

on_adnl_message_ends_example : Ended (dispatch_loop (suc (length ping)) env client ping 0 node)
on_adnl_message_ends_example = on_adnl_message_ends env client ping node

abbrev after_message : Node
after_message = on_adnl_message env client (batch requests) (new_node default_config)

after_message-Reachable : Reachable default_config after_message
after_message-Reachable =
    next (new_node default_config) after_message fresh
      (message env client (batch requests) (new_node default_config))

Reachable-IsSound_example : IsSound (idle_round 9000 after_message)
Reachable-IsSound_example = Reachable-IsSound default_config (idle_round 9000 after_message) (
    next after_message (idle_round 9000 after_message) after_message-Reachable
      (idling 9000 after_message))

-- A node with one stream, of the client's number 6.
abbrev one_stream : Node
one_stream = register_stream 1000 client 6 7 (new_node default_config)

one_stream-IsSound : IsSound one_stream
unfolding client_count lookup new_node
one_stream-IsSound =
    IsSound-register_stream 1000 client 6 7 (new_node default_config)
      (Reachable-IsSound default_config (new_node default_config) fresh) (omega arith)

idle_round-table_example :
    lookup (key_for client 6) (idle_round 90000 one_stream).streams
    ≡ elim (lookup (key_for client 6) one_stream.streams) [
      | none ↦ none
      | some p ↦
          if is_idle 90000 (one_stream.config.idle_timeout_sec * 1000) one_stream.objects p
          then none
          else some p
    ]
idle_round-table_example = idle_round-table 90000 one_stream (key_for client 6) one_stream-IsSound

reopened-count_example :
    (lookup (key_for client 6) (reopened 2000 client 6 8 client_close one_stream).streams ≡ none)
    × (count_of client (reopened 2000 client 6 8 client_close one_stream).streams_per_client
        ≡ count_of client one_stream.streams_per_client)
unfolding register_stream client_count lookup insert new_node bytes_beq
reopened-count_example =
    reopened-count 2000 client 6 8 0 client_close one_stream one_stream-IsSound
      (register_stream-lookup 1000 client 6 7 (new_node default_config)) (omega arith)
