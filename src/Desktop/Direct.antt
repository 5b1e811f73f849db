-- ===== src/Desktop/Direct.antt =====
-- `DirectAdnlBackend` of TON-Tunnel/TON-Tunnel.cpp, the desktop core's backend over the ADNL client
-- library, with the globals that it shares as one record.
pub mod Session
use ton_tunnel.Base.{
  ℕ, List, [], ◌∷◌, ◌++◌, Bool, true, false, not, ◌||◌, Option, none, some, Bytes, ◌==◌,
  if◌then◌else◌, ℤ, pos, negsuc,
}
use ton_tunnel.AdnlClient.Handles.{
  Clients, no_clients, ton_adnl_client_create, ton_adnl_client_start, ton_adnl_client_stop,
  ton_adnl_client_destroy, ton_adnl_client_send, ton_adnl_client_set_on_message,
}

-- g_adnlHandle, g_adnlStarted, g_adnlInboundQueue, and the clients of the library.
pub record Direct : Type 0 where
  pub handle : Option ℕ
  pub started : Bool
  pub inbound_queue : List Bytes
  pub clients : Clients

abbrev pub new_direct : Direct
new_direct = record { handle = none; started = false; inbound_queue = []; clients = no_clients }

-- The callback of the library; a null pointer is none.
unfoldable pub direct_inbound : Option Bytes → Direct → Direct
direct_inbound none d = d
direct_inbound (some []) d = d
direct_inbound (some (x ∷ xs)) d = record d { inbound_queue = d.inbound_queue ++ (x ∷ xs) ∷ [] }

-- The client was created: its callback is set and it is started.
unfoldable pub direct_launch : ℕ → Direct → Direct × Bool
direct_launch p d =
    let (clients, code) =
      ton_adnl_client_start (some p) (ton_adnl_client_set_on_message (some p) true d.clients) in
    let failed = record d { handle = none; clients = ton_adnl_client_destroy (some p) clients } in
    elim code [
      | pos n ↦
          if n == 0
          then (record d { handle = some p; started = true; clients = clients }, true)
          else (failed, false)
      | negsuc n ↦ (failed, false)
    ]

-- start, with whether the library's allocations succeed
unfoldable pub direct_start : Bool → Bytes → Bytes → Bytes → Direct → Direct × Bool
direct_start allocates key egress advertise d =
    let (clients, created) =
      ton_adnl_client_create allocates (some key) (some egress) (some advertise) d.clients in
    elim created [
      | none ↦ (record d { handle = none; clients = clients }, false)
      | some p ↦ direct_launch p (record d { handle = some p; clients = clients })
    ]

unfoldable pub direct_inbound_all : List Bytes → Direct → Direct
direct_inbound_all [] d = d
direct_inbound_all (m ∷ ms) d = direct_inbound_all ms (direct_inbound (some m) d)

-- stop, which stopCore repeats: `late` are the messages that come between the clearing of the queue
-- and the end of the client.
unfoldable pub direct_stop : List Bytes → Direct → Direct
direct_stop late d =
    let cleared = record d { started = false; inbound_queue = [] } in
    let reached = direct_inbound_all late cleared in
    record reached {
      handle = none;
      clients = ton_adnl_client_destroy d.handle (ton_adnl_client_stop d.handle d.clients);
    }

abbrev is_null : Option ℕ → Bool
is_null none = true
is_null (some p) = false

unfoldable pub direct_send : Bytes → Direct → Direct × ℤ
direct_send packet d =
    if not d.started || is_null d.handle
    then (d, negsuc 0)
    else let (clients, code) = ton_adnl_client_send d.handle (some packet) d.clients in
      (record d { clients = clients }, code)

-- receivePacket; `arrived` is the message that ends its wait, if one does, while the queue is empty.
unfoldable pub direct_receive : Option Bytes → Direct → Direct × Option Bytes
direct_receive arrived d = elim d.inbound_queue [
  | packet ∷ rest ↦ (record d { inbound_queue = rest }, some packet)
  | [] ↦
      if not d.started
      then (d, none)
      else let woken = direct_inbound arrived d in
        elim woken.inbound_queue [
          | packet ∷ rest ↦ (record woken { inbound_queue = rest }, some packet)
          | [] ↦ (woken, none)
        ]
]

-- stopCore: the backend's stop, in its destructor, and the same again, when no client is left.
unfoldable pub stop_core : List Bytes → Direct → Direct
stop_core late d = direct_stop [] (direct_stop late d)

-- startTunnel stops what runs and starts anew.
unfoldable pub restart : Bool → Bytes → Bytes → Bytes → List Bytes → Direct → Direct × Bool
restart allocates key egress advertise late d =
    direct_start allocates key egress advertise (stop_core late d)
