-- ===== src/Tests/World.antt =====
-- A small world for the tests: a network with one web server, a client, and a node with one stream.
use ton_tunnel.Base.{[], ◌∷◌, true, false, some, Bytes, codes, length}
use ton_tunnel.Egress.State.{Node, Stream, default_config, new_node, key_for}
use ton_tunnel.Egress.Connect.{Net, SocketCalls, connected}
use ton_tunnel.Egress.Run.{Env}
use ton_tunnel.Desktop.Core.{Core}

abbrev pub web_ip : Bytes
web_ip = codes "93.184.216.34"

abbrev pub host : Bytes
host = codes "example.org"

abbrev pub client : Bytes
client = codes "c1"

abbrev pub good_calls : SocketCalls
good_calls = record {
  socket = some 7;
  getfl_ok = true;
  setfl_ok = true;
  parses = true;
  connect = connected;
  writable = true;
  getsockopt_ok = true;
  so_error = 0;
}

abbrev pub net : Net
net = record {
  getaddrinfo = λ name. some (some web_ip ∷ []);
  inet_pton = λ ip. some 0x5DB8D822;
  calls = λ ip port. good_calls;
}

abbrev pub env : Env
env = record { net = net; now = 1000; send = λ bytes. some (length bytes) }

abbrev pub stream : Stream
stream = record {
  client_id = client;
  stream_id = 5;
  fd = some 7;
  closed = false;
  last_activity_ms = 1000;
  joinable = true;
}

abbrev pub node : Node
node = record {
  config = default_config;
  running = true;
  objects = stream ∷ [];
  streams = (key_for client 5, 0) ∷ [];
  streams_per_client = (client, 1) ∷ [];
  recently_closed = [];
  counters = (new_node default_config).counters;
  log = [];
}

abbrev pub core : Core
core = record {
  running = true;
  stream_queues = [];
  pending_open_ms = [];
  open_ok = 0;
  open_fail = 0;
  open_timeout = 0;
  tx_bytes = 0;
  rx_bytes = 0;
  packets = [];
}
