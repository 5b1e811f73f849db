-- ===== src/Tests/Backends.antt =====
-- The theorems on the transports, the desktop's sessions and the configuration, at small inputs.
use ton_tunnel.Base.{
  ◌+◌, to_nat, inl, ◌*◌, ◌≢◌, ◌++◌, to_decimal, ◌≡◌, ◌≤◌, refl, List, [], ◌∷◌, true, false, none,
  some, Bytes, codes, length, All, map, join, arith,
}
use ton_tunnel.Adnl.Keys.{hex_encode, hex_digit}
use ton_tunnel.Adnl.Runtime.{KeyLibrary, new_runtime, public_key_hex, runtime_start}
use ton_tunnel.AdnlClient.{Client, new_client, Network, parse_egress}
use ton_tunnel.Link.Address.{local_address-parse_egress}
use ton_tunnel.Desktop.Codec.{encode_data_frame}
use ton_tunnel.Desktop.Core.{send_stream_data}
use ton_tunnel.Desktop.Core.Sending.{sent_segments}
use ton_tunnel.Desktop.Direct.{new_direct, restart}
use ton_tunnel.Desktop.Direct.Session.{IsFresh, restart-IsFresh}
use ton_tunnel.Egress.State.{Config, default_config}
use ton_tunnel.Link.Uplink.{send_each, linked, send_stream_data-sent}
use ton_tunnel.Settings.{load_config}
use ton_tunnel.Settings.Loading.{print_config, default_lists, IsPrintable, load_config-print_config}
use ton_tunnel.Tests.World.{core}
use ton_tunnel.Transport.{
  load_symbols, create_handle, transport_start, transport_stop, transport_send, set_on_message,
  Library, new_transport, transport_destroy,
}
use ton_tunnel.Transport.Order.{IsOrdered, opens, use_all-released}
use ton_tunnel.Transport.Handles.{
  use_transport, Use, start, send, handle_with, stop, use_all, made, released,
}

abbrev good : Library
good = record { opens = true; has_symbols = true; creates = true; starts = true }

-- The library's start fails, the node stops and starts anew, sends, and stops.
abbrev uses : List Use
uses =
    handle_with true
    ∷ start (record good { starts = false })
    ∷ stop
    ∷ start good
    ∷ send true (codes "c") (codes "x")
    ∷ stop
    ∷ []

use_all-released_example :
    let last = use_all uses new_transport in
    let end = transport_destroy last in
    IsOrdered end.calls
    × (made end.calls ≡ released end.calls)
    × (end.handle ≡ none)
    × (end.has_so ≡ false)
    × (end.references + to_nat last.has_so ≡ opens end.calls)
use_all-released_example = use_all-released uses new_transport (refl, tt) refl (refl, inl refl)

-- The library was opened twice and closed once.
references_left : (transport_destroy (use_all uses new_transport)).references ≡ 1
unfolding transport_destroy use_all use_transport transport_start load_symbols create_handle
    transport_stop transport_send set_on_message
references_left = refl

abbrev key : Bytes
key = codes "key"

abbrev egress : Bytes
egress = codes "pk@10.0.0.1:1"

restart-IsFresh_example :
    (IsFresh key egress [] (restart true key egress [] (codes "late" ∷ []) new_direct).0
      × ((restart true key egress [] (codes "late" ∷ []) new_direct).1 ≡ true))
    × (((restart false key egress [] (codes "late" ∷ []) new_direct).0.clients.table ≡ [])
        × ((restart false key egress [] (codes "late" ∷ []) new_direct).0.handle ≡ none)
        × ((restart false key egress [] (codes "late" ∷ []) new_direct).1 ≡ false))
restart-IsFresh_example = restart-IsFresh key egress [] (codes "late" ∷ []) new_direct refl

abbrev set_up : Client
set_up = record (new_client key egress []) { ready = true; attached = true }

send_stream_data-sent_example :
    ((send_stream_data (λ o. true) 5 (codes "hello") core).1 ≡ true)
    × ((chunks : List Bytes) × (join chunks ≡ codes "hello")
        × All (λ t. (1 ≤ length t) × (length t ≤ 1200)) chunks
        × ((send_stream_data (λ o. true) 5 (codes "hello") core).0.packets
            ≡ sent_segments 5 chunks core.packets)
        × (send_each (map (encode_data_frame 5) chunks) (linked 0 set_up new_direct) ≡ (
          linked 0 (record set_up { sent = sent_segments 5 chunks set_up.sent }) new_direct,
          true,
        )))
send_stream_data-sent_example =
    send_stream_data-sent 5 0 (codes "hello") core set_up new_direct (omega arith) refl refl

abbrev custom : Config
custom = record default_config {
  private_key = codes "00ff";
  listen_port = 4040;
  auth_token = codes "s,:}[e";
  auth_required = true;
}

custom-IsPrintable : IsPrintable custom
unfolding IsPrintable
custom-IsPrintable = ground arith

load_config-print_config_example : load_config (print_config custom) ≡ some (default_lists custom)
load_config-print_config_example = load_config-print_config custom custom-IsPrintable

abbrev client_network : Network
client_network = record {
  from_hex = λ key. 4 * length key;
  pk_id = 1 ∷ [];
  import_key = λ key. true;
  init_host_port = λ host. some host;
  init_ipv4_port = λ host. some host;
  inet_pton = λ host. none;
}

-- A public key of 32 bytes behind its TL id.
abbrev public_key : Bytes
public_key = 198 ∷ 180 ∷ 19 ∷ 72 ∷ codes "0123456789abcdef0123456789abcdef"

abbrev key_library : KeyLibrary
key_library = record {
  import_key = λ private. some public_key;
  hex_encode = hex_encode;
  init_host_port = λ host port. some host;
  pk_id = 1 ∷ [];
}

public_key_NoAt : All (λ x. x ≢ b'@') (public_key_hex key_library public_key)
unfolding public_key_hex hex_encode hex_digit
public_key_NoAt = ground arith

public_key_size : length (public_key_hex key_library public_key) ≡ 64
unfolding public_key_hex hex_encode
public_key_size = refl

local_address-parse_egress_example :
    parse_egress client_network
      (runtime_start key_library
        (new_runtime (codes "seed") (codes "10.0.0.1") 30303)).local_address
    ≡ some (public_key_hex key_library public_key, codes "10.0.0.1" ++ b':' ∷ to_decimal 30303)
local_address-parse_egress_example =
    local_address-parse_egress key_library client_network (codes "seed") public_key
      (codes "0.0.0.1") b'1' 30303 refl public_key_NoAt (omega (arith, public_key_size))
      (omega (arith, public_key_size))
