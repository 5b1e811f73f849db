-- ===== src/Adnl/Runtime.antt =====
-- The life of an `AdnlBackendRuntime` of ton-egress-node/src/ton_adnl_backend.cpp: start, the set-up in
-- its thread, stop, and the C interface at the end of the file, over handles. What the TON library
-- answers is a parameter. A call through a pointer to no runtime changes nothing here.
use ton_tunnel.Base.{
  ℕ, ◌+◌, List, [], ◌∷◌, ◌++◌, Bool, true, false, Option, none, some, Bytes, codes, length, drop,
  leb, ℤ, pos, negsuc, if◌then◌else◌, lookup, insert, erase, nat_eq, to_decimal,
}
use ton_tunnel.Adnl.{Backend, Traffic, send_to_client, normalize_private_key}

-- The import of a private key with the export of its public one, the hexadecimal text of bytes, the
-- resolver of a listening address, and the TL id of private keys.
pub record KeyLibrary : Type 0 where
  pub import_key : Bytes → Option Bytes
  pub hex_encode : Bytes → Bytes
  pub init_host_port : Bytes → ℕ → Option Bytes
  pub pk_id : Bytes

-- `udp_address` is the address registered for the node's id, once it is subscribed.
pub record Runtime : Type 0 where
  pub private_key : Bytes
  pub listen_address : Bytes
  pub listen_port : ℕ
  pub backend : Backend
  pub has_handler : Bool
  pub udp_address : Option Bytes
  pub local_address : Bytes

abbrev pub no_traffic : Traffic
no_traffic = record {
  tx_bytes = 0;
  rx_bytes = 0;
  opens = 0;
  closes = 0;
  errors = 0;
  data_frames = 0;
  last_ms = 0;
}

unfoldable pub new_runtime : Bytes → Bytes → ℕ → Runtime
new_runtime key address port = record {
  private_key = key;
  listen_address = address;
  listen_port = port;
  backend = record {
    running = false;
    ready = false;
    known_clients = [];
    pending = [];
    traffic = no_traffic;
    events = [];
  };
  has_handler = false;
  udp_address = none;
  local_address = [];
}

unfoldable pub public_key_hex : KeyLibrary → Bytes → Bytes
public_key_hex lib key_bin =
    lib.hex_encode (if leb 36 (length key_bin) then drop 4 key_bin else key_bin)

-- The key was imported: the node's address is registered and its id subscribed.
unfoldable pub announce_runtime : KeyLibrary → Bytes → Runtime → Runtime
announce_runtime lib key_bin r = record r {
  udp_address = some (elim (lib.init_host_port r.listen_address r.listen_port) [
    | none ↦ codes "0.0.0.0"
    | some ip ↦ ip
  ]);
  local_address =
      public_key_hex lib key_bin ++ b'@' ∷ (r.listen_address ++ b':' ∷ to_decimal r.listen_port);
}

-- init_adnl_runtime: adnl_ is created first, and stays when the key is not taken.
unfoldable pub init_adnl_runtime : KeyLibrary → Runtime → Runtime
init_adnl_runtime lib r =
    let created = record r { backend = record r.backend { ready = true } } in
    elim (lib.import_key (normalize_private_key lib.pk_id r.private_key)) [
      | none ↦ created
      | some key_bin ↦ announce_runtime lib key_bin created
    ]

unfoldable pub shutdown_adnl_runtime : Runtime → Runtime
shutdown_adnl_runtime r = record r {
  backend = record r.backend { ready = false };
  udp_address = none;
}

-- start, and what its thread does at first, unless it runs already
unfoldable pub runtime_start : KeyLibrary → Runtime → Runtime
runtime_start lib r =
    if r.backend.running
    then r
    else init_adnl_runtime lib (record r { backend = record r.backend { running = true } })

-- stop joins the thread, which shuts the actors down at its end.
unfoldable pub runtime_stop : Runtime → Runtime
runtime_stop r =
    if r.backend.running
    then shutdown_adnl_runtime (record r { backend = record r.backend { running = false } })
    else r

-- The runtimes that exist; `next` is the address of the next one.
pub record Runtimes : Type 0 where
  pub next : ℕ
  pub table : List (ℕ × Runtime)

unfoldable pub on_runtime : Option ℕ → (Runtime → Runtime) → Runtimes → Runtimes
on_runtime none f h = h
on_runtime (some p) f h = elim (lookup p h.table) [
  | none ↦ h
  | some r ↦ record h { table = insert p (f r) h.table }
]

unfoldable pub ton_adnl_create :
    Bool → Option Bytes → Option Bytes → ℕ → Runtimes → Runtimes × Option ℕ
ton_adnl_create allocates none address port h = (h, none)
ton_adnl_create allocates (some key) none port h = (h, none)
ton_adnl_create allocates (some key) (some address) port h =
    if allocates
    then (
      record { next = h.next + 1; table = insert h.next (new_runtime key address port) h.table },
      some h.next,
    )
    else (h, none)

unfoldable pub ton_adnl_start : KeyLibrary → Option ℕ → Runtimes → Runtimes × ℤ
ton_adnl_start lib none h = (h, negsuc 0)
ton_adnl_start lib (some p) h = (on_runtime (some p) (runtime_start lib) h, pos 0)

unfoldable pub ton_adnl_stop : Option ℕ → Runtimes → Runtimes
ton_adnl_stop p h = on_runtime p runtime_stop h

unfoldable pub ton_adnl_destroy : Option ℕ → Runtimes → Runtimes
ton_adnl_destroy none h = h
ton_adnl_destroy (some p) h =
    let stopped = on_runtime (some p) runtime_stop h in
    record stopped { table = erase p stopped.table }

unfoldable pub ton_adnl_local_address : Option ℕ → Runtimes → Option Bytes
ton_adnl_local_address none h = none
ton_adnl_local_address (some p) h = elim (lookup p h.table) [
  | none ↦ none
  | some r ↦ some r.local_address
]

-- Null pointers are none.
unfoldable pub ton_adnl_send : ℕ → Option ℕ → Option Bytes → Option Bytes → Runtimes → Runtimes × ℤ
ton_adnl_send now none client_id payload h = (h, negsuc 0)
ton_adnl_send now (some p) none payload h = (h, negsuc 0)
ton_adnl_send now (some p) (some client_id) none h = (h, negsuc 0)
ton_adnl_send now (some p) (some client_id) (some payload) h = elim (lookup p h.table) [
  | none ↦ (h, negsuc 1)
  | some r ↦
      let (b, ok) = send_to_client now client_id payload r.backend in
      (
        record h { table = insert p (record r { backend = b }) h.table },
        if ok then pos 0 else negsuc 1,
      )
]

unfoldable pub ton_adnl_set_on_message : Option ℕ → Runtimes → Runtimes
ton_adnl_set_on_message p h = on_runtime p (λ r. record r { has_handler = true }) h
