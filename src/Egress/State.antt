-- ===== src/Egress/State.antt =====
-- ton-egress-node/include/config.hpp and include/egress_node.hpp: the configuration, a stream and
-- the node. Streams are shared objects: a heap of them, with a pointer as the index. Calls of the
-- transport and of the sockets are a log, newest first. Times and counters do not wrap; a time
-- difference that would be negative counts as 0, which every comparison treats alike.
use ton_tunnel.Base.{
  ℕ, List, [], ◌∷◌, ◌++◌, Bool, true, false, Option, none, some, Bytes, codes, set, lookup,
  to_decimal, bytes_eq,
}
use ton_tunnel.Protocol.{encode_error}

pub record EgressConfig : Type 0 where
  pub enabled : Bool
  pub max_payload_bytes : ℕ
  pub allowed_ports : List ℕ
  pub block_private_ips : Bool

pub record Config : Type 0 where
  pub transport_backend : Bytes
  pub adnl_library_path : Bytes
  pub adnl_listen_address : Bytes
  pub private_key : Bytes
  pub listen_port : ℕ
  pub max_streams : ℕ
  pub idle_timeout_sec : ℕ
  pub allowed_clients : List Bytes
  pub auth_token : Bytes
  pub auth_required : Bool
  pub egress : EgressConfig

-- The member initialisers of the two structs.
abbrev pub default_config : Config
default_config = record {
  transport_backend = codes "adnl";
  adnl_library_path = codes "./libton_adnl_backend.so";
  adnl_listen_address = codes "0.0.0.0";
  private_key = [];
  listen_port = 30303;
  max_streams = 100;
  idle_timeout_sec = 60;
  allowed_clients = [];
  auth_token = [];
  auth_required = false;
  egress = record {
    enabled = true;
    max_payload_bytes = 65536;
    allowed_ports = 80 ∷ 443 ∷ 8080 ∷ 8443 ∷ 853 ∷ [];
    block_private_ips = true;
  };
}

-- `fd` is none where the code has -1; `joinable` is the state of `rx_thread`.
pub record Stream : Type 0 where
  pub client_id : Bytes
  pub stream_id : ℕ
  pub fd : Option ℕ
  pub closed : Bool
  pub last_activity_ms : ℕ
  pub joinable : Bool

pub data Effect : Type 0 where
  sent : (client : Bytes) (frame : Bytes) → Effect
  shut : (fd : ℕ) → Effect
  released : (fd : ℕ) → Effect
  written : (fd : ℕ) (bytes : Bytes) → Effect
  transport_stopped : Effect

-- The global counters of egress_node.cpp.
pub record Counters : Type 0 where
  pub open_ok : ℕ
  pub open_fail : ℕ
  pub tx_bytes : ℕ
  pub rx_bytes : ℕ
  pub active_streams : ℕ
  pub close_remote_closed : ℕ
  pub close_idle_timeout : ℕ
  pub close_client_close : ℕ
  pub close_tcp_write_failed : ℕ
  pub close_push_failed : ℕ
  pub last_counters_ms : ℕ

abbrev pub no_counts : Counters
no_counts = record {
  open_ok = 0;
  open_fail = 0;
  tx_bytes = 0;
  rx_bytes = 0;
  active_streams = 0;
  close_remote_closed = 0;
  close_idle_timeout = 0;
  close_client_close = 0;
  close_tcp_write_failed = 0;
  close_push_failed = 0;
  last_counters_ms = 0;
}

pub record Node : Type 0 where
  pub config : Config
  pub running : Bool
  pub objects : List Stream
  pub streams : List (Bytes × ℕ)
  pub streams_per_client : List (Bytes × ℕ)
  pub recently_closed : List (Bytes × ℕ)
  pub counters : Counters
  pub log : List Effect

-- EgressNode::EgressNode
unfoldable pub new_node : Config → Node
new_node config = record {
  config = config;
  running = false;
  objects = [];
  streams = [];
  streams_per_client = [];
  recently_closed = [];
  counters = no_counts;
  log = [];
}

-- EgressNode::keyFor
unfoldable pub key_for : Bytes → ℕ → Bytes
key_for client_id stream_id = client_id ++ (codes "#" ++ to_decimal stream_id)

abbrev pub emit : Effect → Node → Node
emit e n = record n { log = e ∷ n.log }

-- transport_->sendToClient(client_id, encodeError({stream_id, text}))
unfoldable pub send_error : Bytes → ℕ → Bytes → Node → Node
send_error client_id stream_id text n =
    emit (sent client_id (encode_error (record { stream_id = stream_id; message = text }))) n

-- streams_per_client_[client_id]
unfoldable pub client_count : Bytes → Node → ℕ
client_count client_id n = elim (lookup client_id n.streams_per_client) [ none ↦ 0 | some k ↦ k ]

-- A write through a pointer.
abbrev pub store : ℕ → Stream → Node → Node
store p s n = record n { objects = set n.objects p s }
