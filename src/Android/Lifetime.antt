-- ===== src/Android/Lifetime.antt =====
-- The clients that the Android bridge (app/src/main/cpp/ton_transport.cpp) makes and destroys.
use ton_tunnel.Base.{
  ℕ, ◌≡◌, refl, sym, subst, ap, ◌||◌, List, [], ◌∷◌, Bool, true, false, Option, none, some, Bytes,
  take, Bool-cases, inl, inr, is_nil, nat_eq, ℤ, negsuc, arith,
}
use ton_tunnel.AdnlClient.{Client, Network, init_adnl_udp}
use ton_tunnel.AdnlClient.Handles.{Clients, ton_adnl_client_create}
use ton_tunnel.AdnlClient.Owned.{
  Holds, Holds-on_client, table-destroy, Serves-init, Holds-send, started, created_table,
}
use ton_tunnel.Android.{
  Bridge, new_bridge, on_inbound, launch, release_context, init_adnl_context, fail_init,
  configure_adnl_peer, send_counted, count_empty, jni_send_packet, jni_send_packet_direct,
  jni_receive_packet, hand_over, client_thread, client_message, has_context, to_size,
}

pub record IsOwned (b : Bridge) : Type 0 where
  pub holds : Holds b.context b.clients.table
  pub ready_holds : b.native_ready ≡ true → has_context b.context ≡ true

-- A call of the Java side, or what the thread of a client does.
pub data Call : Type 0 where
  init : (allocates : Bool) → Call
  configure : (address key token host : Option Bytes) → Call
  send : (packet : Option Bytes) (mapped : Bool) → Call
  send_direct : (buffer : Option (Option Bytes)) (len : ℤ) → Call
  receive : (allocates : Bool) → Call
  thread : (net : Network) (handle : ℕ) → Call
  message : (handle : ℕ) (bytes : Bytes) → Call

unfoldable pub perform : Call → Bridge → Bridge
perform (init allocates) b = (init_adnl_context allocates b).0
perform (configure address key token host) b = (configure_adnl_peer address key token host b).0
perform (send packet mapped) b = (jni_send_packet packet mapped b).0
perform (send_direct buffer len) b = (jni_send_packet_direct buffer len b).0
perform (receive allocates) b = (jni_receive_packet allocates b).0
perform (thread net handle) b = client_thread net handle b
perform (message handle bytes) b = client_message handle bytes b

unfoldable pub perform_all : List Call → Bridge → Bridge
perform_all [] b = b
perform_all (c ∷ cs) b = perform_all cs (perform c b)

IsOwned-launch :
    (p : ℕ) (c : Client) (b : Bridge) → b.clients.table ≡ (p, c) ∷ [] → IsOwned (launch p b).0
unfolding launch
IsOwned-launch p c b e =
    rw (started p c b.clients e, launch)
      (record {
        holds = (
          record c { has_callback = true; running = true },
          ap (λ r. r.0.table) (started p c b.clients e),
          (refl, refl),
        );
        ready_holds = λ h. refl;
      })

IsOwned-idle :
    (error : Bytes) (b : Bridge)
    → b.clients.table ≡ []
    → b.context ≡ none
    → IsOwned (fail_init error b).0
unfolding fail_init
IsOwned-idle error b e n = record {
  holds = subst (λ t. Holds t b.clients.table) (sym n) e;
  ready_holds = λ h. cc;
}

released_table : (b : Bridge) → IsOwned b → (release_context b).clients.table ≡ []
unfolding release_context
released_table b v = table-destroy b.context b.clients v.holds

released_context : (b : Bridge) → (release_context b).context ≡ none
unfolding release_context
released_context b = refl

IsOwned-init :
    (allocates : Bool) (b : Bridge) → IsOwned b → IsOwned (init_adnl_context allocates b).0
unfolding init_adnl_context ton_adnl_client_create
IsOwned-init true b v =
    let released = release_context b in
    elim (Bool-cases (is_nil b.pending_address || is_nil b.pending_private_key)) [
      | inl incomplete ↦
          rw (incomplete, init_adnl_context)
            (IsOwned-idle _ released (released_table b v) (released_context b))
      | inr complete ↦
          rw (complete, init_adnl_context)
            (IsOwned-launch released.clients.next _ _
              (created_table released.clients.next _ released.clients.table (released_table b v)))
    ]
IsOwned-init false b v =
    let released = release_context b in
    elim (Bool-cases (is_nil b.pending_address || is_nil b.pending_private_key)) [
      | inl incomplete ↦
          rw (incomplete, init_adnl_context)
            (IsOwned-idle _ released (released_table b v) (released_context b))
      | inr complete ↦
          rw (complete, init_adnl_context)
            (IsOwned-idle _ _ (released_table b v) (released_context b))
    ]

-- A step that leaves the context and readiness, and changes the clients by one method.
IsOwned-clients :
    (b : Bridge) (k : Clients)
    → Holds b.context k.table
    → IsOwned b
    → IsOwned (record b { clients = k })
IsOwned-clients b k h v = record { holds = h; ready_holds = v.ready_holds }

IsOwned-send_counted :
    (packet : Bytes) (refused : ℤ) (b : Bridge)
    → IsOwned b
    → IsOwned (send_counted packet refused b).0
unfolding send_counted
IsOwned-send_counted packet refused b v = record {
  holds = Holds-send b.context b.context packet b.clients v.holds;
  ready_holds = v.ready_holds;
}

IsOwned-send_packet :
    (packet : Option Bytes) (mapped : Bool) (b : Bridge)
    → IsOwned b
    → IsOwned (jni_send_packet packet mapped b).0
unfolding jni_send_packet count_empty
IsOwned-send_packet none mapped b v = v
IsOwned-send_packet (some packet) mapped b v =
    ground (arith, IsOwned-send_counted packet (negsuc 4) b v)

IsOwned-send_packet_direct :
    (buffer : Option (Option Bytes)) (len : ℤ) (b : Bridge)
    → IsOwned b
    → IsOwned (jni_send_packet_direct buffer len b).0
unfolding jni_send_packet_direct count_empty
IsOwned-send_packet_direct none len b v = ground arith
IsOwned-send_packet_direct (some none) len b v = ground arith
IsOwned-send_packet_direct (some (some bytes)) len b v =
    ground (arith, IsOwned-send_counted (take (to_size len) bytes) (negsuc 3) b v)

IsOwned-receive_packet :
    (allocates : Bool) (b : Bridge) → IsOwned b → IsOwned (jni_receive_packet allocates b).0
unfolding jni_receive_packet hand_over
IsOwned-receive_packet allocates b v = ground arith

IsOwned-client_thread :
    (net : Network) (handle : ℕ) (b : Bridge) → IsOwned b → IsOwned (client_thread net handle b)
unfolding client_thread
IsOwned-client_thread net handle b v =
    IsOwned-clients b _
      (Holds-on_client (init_adnl_udp net) (Serves-init net) (some handle) b.context b.clients
        v.holds)
      v

IsOwned-client_message :
    (handle : ℕ) (bytes : Bytes) (b : Bridge) → IsOwned b → IsOwned (client_message handle bytes b)
unfolding client_message on_inbound
IsOwned-client_message handle bytes b v = ground arith

pub IsOwned-perform : (c : Call) (b : Bridge) → IsOwned b → IsOwned (perform c b)
unfolding perform configure_adnl_peer
IsOwned-perform (init allocates) b v = IsOwned-init allocates b v
IsOwned-perform (configure address key token host) b v = record {
  holds = v.holds;
  ready_holds = v.ready_holds;
}
IsOwned-perform (send packet mapped) b v = IsOwned-send_packet packet mapped b v
IsOwned-perform (send_direct buffer len) b v = IsOwned-send_packet_direct buffer len b v
IsOwned-perform (receive allocates) b v = IsOwned-receive_packet allocates b v
IsOwned-perform (thread net handle) b v = IsOwned-client_thread net handle b v
IsOwned-perform (message handle bytes) b v = IsOwned-client_message handle bytes b v

-- Whatever calls and messages come to an owned bridge, it stays owned: the clients that exist are
-- that of the context, started and with its callback, or none without a context, and the bridge is
-- ready only with a context.
pub perform_all-IsOwned : (cs : List Call) (b : Bridge) → IsOwned b → IsOwned (perform_all cs b)
unfolding perform_all
perform_all-IsOwned [] b v = v
perform_all-IsOwned (c ∷ cs) b v = perform_all-IsOwned cs (perform c b) (IsOwned-perform c b v)

pub new_bridge-IsOwned : IsOwned new_bridge
new_bridge-IsOwned = record { holds = refl; ready_holds = λ h. cc }
