-- ===== src/Android.antt =====
-- app/src/main/cpp/ton_transport.cpp, the native half of the Android transport: the globals as one
-- record, and one function per JNI entry. The calls of the Java machine are given by what they
-- return; log lines and releases of arrays are not modelled. The calls come one at a time, as the
-- Java side makes them; messages arrive between them on the thread of the ADNL client.
pub mod Lifetime
pub mod Queue
use ton_tunnel.Base.{
  ℕ, suc, ◌+◌, ◌%◌, ◌^◌, List, [], ◌∷◌, ◌++◌, Bool, true, false, not, ◌&&◌, ◌||◌, Option, none,
  some, Bytes, codes, length, take, is_nil, ltb, ◌==◌, if◌then◌else◌, lookup, insert, nat_eq, ℤ,
  pos, negsuc,
}
use ton_tunnel.AdnlClient.{Client, Network, init_adnl_udp, emit_inbound}
use ton_tunnel.AdnlClient.Handles.{
  Clients, no_clients, ton_adnl_client_create, ton_adnl_client_start, ton_adnl_client_destroy,
  ton_adnl_client_send, ton_adnl_client_set_on_message, on_client,
}

-- `context` is the client handle of gContext; none is a null gContext. `clients` are the clients of
-- the backend library.
pub record Bridge : Type 0 where
  pub native_ready : Bool
  pub context : Option ℕ
  pub pending_address : Bytes
  pub pending_private_key : Bytes
  pub pending_token : Bytes
  pub pending_local_advertise_host : Bytes
  pub last_error : Bytes
  pub inbound_queue : List Bytes
  pub jni_calls : ℕ
  pub jni_bytes : ℕ
  pub dropped_empty_frames : ℕ
  pub clients : Clients

abbrev pub new_bridge : Bridge
new_bridge = record {
  native_ready = false;
  context = none;
  pending_address = [];
  pending_private_key = [];
  pending_token = [];
  pending_local_advertise_host = [];
  last_error = [];
  inbound_queue = [];
  jni_calls = 0;
  jni_bytes = 0;
  dropped_empty_frames = 0;
  clients = no_clients;
}

-- onAdnlMessage, a null pointer is none
unfoldable pub on_inbound : Option Bytes → Bridge → Bridge
on_inbound none b = b
on_inbound (some []) b = b
on_inbound (some (x ∷ xs)) b = record b { inbound_queue = b.inbound_queue ++ (x ∷ xs) ∷ [] }

-- An initAdnlContext that ends without a context.
unfoldable pub fail_init : Bytes → Bridge → Bridge × Option ℕ
fail_init error b = (record b { last_error = error; native_ready = false }, none)

-- The part behind a client that was created: its callback and its start.
unfoldable pub launch : ℕ → Bridge → Bridge × Option ℕ
launch handle b =
    let (clients, code) =
      ton_adnl_client_start (some handle)
        (ton_adnl_client_set_on_message (some handle) true b.clients) in
    let started = record b { clients = clients } in
    elim code [
      | pos n ↦
          if n == 0
          then (
            record started { context = some handle; last_error = []; native_ready = true },
            some handle,
          )
          else fail_init (codes "ton_adnl_client_start returned non-zero")
              (record started { clients = ton_adnl_client_destroy (some handle) clients })
      | negsuc n ↦
          fail_init (codes "ton_adnl_client_start returned non-zero")
            (record started { clients = ton_adnl_client_destroy (some handle) clients })
    ]

-- The context that was there is destroyed first.
unfoldable pub release_context : Bridge → Bridge
release_context b = record b {
  clients = ton_adnl_client_destroy b.context b.clients;
  context = none;
}

unfoldable pub init_adnl_context : Bool → Bridge → Bridge × Option ℕ
init_adnl_context allocates b =
    let released = release_context b in
    let (clients, created) =
      ton_adnl_client_create allocates (some b.pending_private_key) (some b.pending_address)
        (some b.pending_local_advertise_host) released.clients in
    if is_nil b.pending_address || is_nil b.pending_private_key
    then fail_init
        (codes "ADNL peer config is incomplete. Call configureAdnlPeer before initialize.") released
    else elim created [
      | none ↦
          fail_init (codes "ton_adnl_client_create returned null")
            (record released { clients = clients })
      | some handle ↦ launch handle (record released { clients = clients })
    ]

-- The characters of a Java string; none is a null pointer, read as the empty text.
unfoldable pub text_of : Option Bytes → Bytes
text_of none = []
text_of (some s) = s

unfoldable pub configure_adnl_peer :
    Option Bytes → Option Bytes → Option Bytes → Option Bytes → Bridge → Bridge × ℤ
configure_adnl_peer address key token host b = (
  record b {
    pending_address = text_of address;
    pending_private_key = text_of key;
    pending_token = text_of token;
    pending_local_advertise_host = text_of host;
  },
  pos 0,
)

-- The send of either entry, with its result for a packet that is not taken. maybeLogMetrics does
-- nothing, as kMetricsEnabled is false.
unfoldable pub send_counted : Bytes → ℤ → Bridge → Bridge × ℤ
send_counted packet refused b =
    let (clients, code) = ton_adnl_client_send b.context (some packet) b.clients in
    let counted = record b {
      clients = clients;
      jni_calls = (b.jni_calls + 1) % 2 ^ 64;
      jni_bytes = (b.jni_bytes + length packet) % 2 ^ 64;
    } in
    (counted, elim code [ pos n ↦ if n == 0 then pos 0 else refused | negsuc n ↦ refused ])

unfoldable pub count_empty : Bridge → Bridge
count_empty b = record b { dropped_empty_frames = (b.dropped_empty_frames + 1) % 2 ^ 64 }

abbrev has_context : Option ℕ → Bool
has_context none = false
has_context (some h) = true

-- sendPacket: a null array is none; `mapped` is whether its bytes could be had.
unfoldable pub jni_send_packet : Option Bytes → Bool → Bridge → Bridge × ℤ
jni_send_packet none mapped b = (b, negsuc 0)
jni_send_packet (some packet) mapped b =
    if is_nil packet
    then (count_empty b, negsuc 1)
    else if not mapped
    then (b, negsuc 2)
    else if not b.native_ready || not (has_context b.context)
    then (
      record b { last_error = codes "sendPacket: native context is not initialized." },
      negsuc 3,
    )
    else send_counted packet (negsuc 4) b

-- A length of a Java int that is positive.
abbrev positive : ℤ → Bool
positive (pos n) = ltb 0 n
positive (negsuc n) = false

abbrev to_size : ℤ → ℕ
to_size (pos n) = n
to_size (negsuc n) = 0

-- sendPacketDirect: the buffer object, none if it is null, with the memory behind it, none if it is no
-- direct buffer.
unfoldable pub jni_send_packet_direct : Option (Option Bytes) → ℤ → Bridge → Bridge × ℤ
jni_send_packet_direct none len b = (if positive len then b else count_empty b, negsuc 0)
jni_send_packet_direct (some memory) len b =
    if not (positive len) then (count_empty b, negsuc 0) else elim memory [
      | none ↦ (b, negsuc 1)
      | some bytes ↦
          if ltb (length bytes) (to_size len)
          then (b, negsuc 1)
          else if not b.native_ready || not (has_context b.context)
          then (
            record b { last_error = codes "sendPacketDirect: native context is not initialized." },
            negsuc 2,
          )
          else send_counted (take (to_size len) bytes) (negsuc 3) b
    ]

-- The array for a packet that was taken from the queue; without memory the packet is lost.
unfoldable pub hand_over : Bool → Bytes → Bridge → Bridge × Option Bytes
hand_over allocates [] b = (b, none)
hand_over allocates (x ∷ xs) b =
    if allocates
    then (b, some (x ∷ xs))
    else (record b { last_error = codes "Failed to allocate jbyteArray in receivePacket." }, none)

-- receivePacket, null is none
unfoldable pub jni_receive_packet : Bool → Bridge → Bridge × Option Bytes
jni_receive_packet allocates b =
    if not b.native_ready
    then (b, none)
    else if not (has_context b.context)
    then (record b { last_error = codes "receivePacket: ADNL context is empty." }, none)
    else elim b.inbound_queue [
      | [] ↦ (b, none)
      | packet ∷ rest ↦ hand_over allocates packet (record b { inbound_queue = rest })
    ]

unfoldable pub get_last_native_error : Bridge → Bytes
get_last_native_error b = b.last_error

-- The thread of a client sets its ADNL actors up.
unfoldable pub client_thread : Network → ℕ → Bridge → Bridge
client_thread net handle b = record b {
  clients = on_client (some handle) (init_adnl_udp net) b.clients;
}

-- A message for a client comes in on that thread, once the set-up has subscribed to them.
unfoldable pub client_message : ℕ → Bytes → Bridge → Bridge
client_message handle message b = elim (lookup handle b.clients.table) [
  | none ↦ b
  | some c ↦ if c.ready then on_inbound (emit_inbound message c) b else b
]
