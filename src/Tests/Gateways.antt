-- ===== src/Tests/Gateways.antt =====
-- The theorems on the ADNL backend and on the SOCKS server in a small world.
use ton_tunnel.Base.{
  AreBytes, lookup, nat_eq, ◌+◌, ◌≡◌, refl, List, [], ◌∷◌, ◌++◌, true, none, some, Bytes, codes,
  length, ◌==◌, if◌then◌else◌, arith,
}
use ton_tunnel.Adnl.{Backend, Handler, normalize_private_key}
use ton_tunnel.Adnl.Uses.{Input, query, outgoing, accept_all, promised, uses, accept_all-uses}
use ton_tunnel.Adnl.Keys.{hex_encode, normalize_private_key-hex}
use ton_tunnel.Desktop.Socks.{System, bridged, handle_client, method_reply, socks5_ok, socks4_ok}
use ton_tunnel.Desktop.Socks.Requests.{
  socks5_bytes, socks4a_bytes, handle_client-socks5, handle_client-socks4a,
}
use ton_tunnel.Desktop.Codec.{InboundFrame, data_type, close_type}
use ton_tunnel.Desktop.Core.{Core}
use ton_tunnel.Desktop.Packets.{ip_csum, handle_packet}
use ton_tunnel.Desktop.Packets.Checksum.{sealed, ip_csum-sealed}
use ton_tunnel.Desktop.Packets.Bounds.{IsWithin, handle_packet-IsWithin}
use ton_tunnel.Desktop.Socks.Bridge.{down_loop}
use ton_tunnel.Desktop.Socks.Bridge.Writes.{IsDone, quiet_rounds, payloads, down_loop-IsDone}
use ton_tunnel.Tests.World.{client, host, core}

abbrev close_frame : Bytes
close_frame = 3 ∷ 0 ∷ 0 ∷ 0 ∷ 5 ∷ []

abbrev backend : Backend
backend = record {
  running = true;
  ready = true;
  known_clients = [];
  pending = [];
  traffic = record {
    tx_bytes = 0;
    rx_bytes = 0;
    opens = 0;
    closes = 0;
    errors = 0;
    data_frames = 0;
    last_ms = 0;
  };
  events = [];
}

-- The first query is superseded by the second, which the packet answers.
abbrev inputs : List Input
inputs =
    query 1000 9 client close_frame 1
    ∷ query 1100 9 client close_frame 2
    ∷ outgoing 1200 client close_frame
    ∷ []

abbrev silent : Handler
silent = some (λ c payload. [])

accept_all-uses_example :
    uses 2 (accept_all silent inputs backend) ≡ promised 2 inputs + uses 2 backend
accept_all-uses_example = accept_all-uses 2 silent inputs backend tt

abbrev tl_id : Bytes
tl_id = 1 ∷ 2 ∷ 3 ∷ 4 ∷ []

abbrev raw_key : Bytes
raw_key = 0xDE ∷ 0xAD ∷ []

normalize_private_key-hex_example :
    normalize_private_key tl_id (hex_encode raw_key)
    ≡ (if length raw_key == 32 then tl_id ++ raw_key else raw_key)
normalize_private_key-hex_example =
    normalize_private_key-hex tl_id raw_key (omega arith, (omega arith, tt)) (omega arith)

abbrev system : System
system = record {
  inet_ntop4 = λ ip. codes "1.2.3.4";
  inet_ntop6 = λ ip. none;
  takes_reply = λ reply. true;
}

handle_client-socks5_example :
    handle_client system (socks5_bytes (0 ∷ []) host 443 (codes "GET"))
    ≡ bridged host 443 (method_reply ∷ socks5_ok ∷ []) (codes "GET")
handle_client-socks5_example =
    handle_client-socks5 system (0 ∷ []) host 443 (codes "GET") (omega arith) refl refl

handle_client-socks4a_example :
    handle_client system (socks4a_bytes 1 (codes "u") (codes "a.b") 80 (codes "GET"))
    ≡ bridged (codes "a.b") 80 (socks4_ok ∷ []) (codes "GET")
handle_client-socks4a_example =
    handle_client-socks4a system 1 (codes "u") b'a' (codes ".b") 80 (codes "GET") (λ e. cc)
      ((λ e. cc), tt) ((λ e. cc), ((λ e. cc), ((λ e. cc), tt))) (omega arith) (omega arith)
      (omega arith) refl

-- A header of ten bytes and a checksum field.
abbrev header : Bytes
header = 0x45 ∷ 0 ∷ 0 ∷ 40 ∷ 0x30 ∷ 0x39 ∷ 0x40 ∷ 0 ∷ 64 ∷ 17 ∷ []

abbrev addresses : Bytes
addresses = 10 ∷ 0 ∷ 0 ∷ 1 ∷ 10 ∷ 0 ∷ 0 ∷ 2 ∷ []

header-AreBytes : AreBytes header
header-AreBytes = ground arith

addresses-AreBytes : AreBytes addresses
addresses-AreBytes = ground arith

ip_csum-sealed_example : ip_csum (sealed header addresses) ≡ 0
ip_csum-sealed_example = ip_csum-sealed header addresses refl header-AreBytes addresses-AreBytes

handle_packet-IsWithin_example : IsWithin header (handle_packet header)
handle_packet-IsWithin_example = handle_packet-IsWithin header

abbrev data_frame : InboundFrame
data_frame = record {
  type = data_type;
  stream_id = 5;
  payload = codes "pong";
  error_message = [];
  raw_frame = [];
}

abbrev last_frame : InboundFrame
last_frame = record {
  type = close_type;
  stream_id = 5;
  payload = [];
  error_message = [];
  raw_frame = [];
}

abbrev serving : Core
serving = record core { stream_queues = (5, data_frame ∷ last_frame ∷ []) ∷ [] }

down_loop-IsDone_example :
    IsDone (down_loop (quiet_rounds 2) 5 serving []) ([] ++ payloads (data_frame ∷ []))
unfolding lookup
down_loop-IsDone_example =
    down_loop-IsDone 5 (data_frame ∷ []) last_frame [] serving [] (refl, tt) refl refl
