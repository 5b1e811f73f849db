-- ===== src/Tests/Ends.antt =====
-- The theorems on the client core and on both ends together, in a small world.
use ton_tunnel.Base.{
  inl, ◌≡◌, ◌≢◌, refl, [], ◌∷◌, ◌++◌, true, some, Bytes, codes, arith, lookup, nat_eq, bytes_eq,
  bytes_beq, to_decimal,
}
use ton_tunnel.Protocol.{encode_open}
use ton_tunnel.Desktop.Codec.{encode_open_frame}
use ton_tunnel.Desktop.Core.{
  Core, Round, opened, waiting, open_stream, send_stream_data, send_segments,
}
use ton_tunnel.Desktop.Core.Opening.{Counted, open_stream-ended, open_stream-ends}
use ton_tunnel.Egress.State.{key_for, default_config, new_node, client_count}
use ton_tunnel.Egress.Policy.{
  is_port_allowed, contains_port, is_host_blocked, to_lower, is_address_blocked, is_blocked_value,
}
use ton_tunnel.Egress.Connect.{try_addresses, no_attempt, connect_ipv4_with_timeout, connect_on}
use ton_tunnel.Egress.Open.Guards.{Admitted}
use ton_tunnel.Egress.Relay.{reader_round}
use ton_tunnel.Egress.Run.{on_adnl_message}
use ton_tunnel.Link.Upstream.{Carries, Written, send_stream_data-Written}
use ton_tunnel.Link.Downstream.{Delivered, reader_round-Delivered}
use ton_tunnel.Link.Handshake.{Accepted, on_adnl_message-Accepted, open_stream-opened}
use ton_tunnel.Tests.World.{net, env, client, host, web_ip, stream, node, core}

abbrev ping : Bytes
ping = codes "ping"

-- The core with an empty queue for stream 5.
abbrev listening : Core
listening = record core { stream_queues = (5, []) ∷ [] }

abbrev acknowledged : Round
acknowledged = record {
  now = 1100;
  grace_now = 1100;
  close_now = 1200;
  arrived = encode_open (record { stream_id = 5 }) ∷ [];
}

abbrev too_late : Round
too_late = record { now = 30000; grace_now = 30000; close_now = 30000; arrived = [] }

carries : Carries client 5 7 node
unfolding lookup bytes_beq key_for to_decimal
carries = record {
  pointer = 0;
  object = stream;
  listed = refl;
  found = refl;
  connected = refl;
  still_open = refl;
}

send_stream_data-Written_example :
    Written env client 7 ping [] (send_stream_data (λ i. true) 5 ping core).0.packets node
unfolding send_stream_data send_segments
send_stream_data-Written_example =
    send_stream_data-Written (λ i. true) env client 5 7 ping core node refl (omega arith)
      (λ b h. refl) carries (omega arith)

reader_round-Delivered_example :
    Delivered client 5 ping []
      (reader_round 1500 (λ i. true) (some ping) 0 stream node).log
      []
      listening
unfolding lookup
reader_round-Delivered_example =
    reader_round-Delivered 1500 (λ i. true) ping 0 stream node [] listening refl (omega arith)
      (λ i. refl) refl

admitted : Admitted (new_node default_config) client host 443 []
unfolding is_port_allowed contains_port is_host_blocked to_lower client_count lookup new_node
    bytes_beq
admitted = record {
  enabled = refl;
  host_shown = λ e. cc;
  host_short = omega arith;
  port_allowed = refl;
  host_open = refl;
  authorized = inl refl;
  below_limit = omega arith;
}

on_adnl_message-Accepted_example :
    Accepted client 5 7
      ((try_addresses net true 443 (some web_ip ∷ []) no_attempt).effects ++ [])
      (on_adnl_message env client (encode_open_frame 5 host 443 []) (new_node default_config))
unfolding try_addresses is_address_blocked is_blocked_value connect_ipv4_with_timeout connect_on
    bytes_beq new_node
on_adnl_message-Accepted_example =
    on_adnl_message-Accepted env client 5 host 443 [] (new_node default_config) (some web_ip ∷ []) 7
      (omega arith, omega arith, omega arith, omega arith) admitted refl refl

open_stream-opened_example :
    (open_stream true 999 1000 (acknowledged ∷ []) 5 host 443 [] core).1 ≡ opened
unfolding lookup
open_stream-opened_example =
    open_stream-opened 999 1000 acknowledged [] 5 host 443 [] core (omega arith) refl (omega arith)
      refl

open_stream-ended_example :
    let r = open_stream true 999 1000 (acknowledged ∷ []) 5 host 443 [] core in Counted r.1 core r.0
open_stream-ended_example = open_stream-ended true 999 1000 (acknowledged ∷ []) 5 host 443 [] core

open_stream-ends_example :
    (open_stream true 999 1000 ([] ++ too_late ∷ []) 5 host 443 [] core).1 ≢ waiting
open_stream-ends_example =
    open_stream-ends true 999 1000 [] too_late [] 5 host 443 [] core (omega arith)
