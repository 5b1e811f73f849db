-- ===== src/Android/Queue.antt =====
-- The queue between the ADNL client's thread and `receivePacket` (app/src/main/cpp/ton_transport.cpp),
-- against a queue that is first in, first out.
use ton_tunnel.Base.{
  ℕ, ◌≡◌, refl, sym, subst, ap, ◌∙◌, List, [], ◌∷◌, ◌++◌, append-nil, append_assoc, Bool, true,
  false, not, ◌&&◌, Option, none, some, Bytes, Option-cases, Bool-cases, inl, inr, is_nil, lookup,
  nat_eq, All, All-append, ℤ, if◌then◌else◌, arith,
}
use ton_tunnel.AdnlClient.{Client, emit_inbound}
use ton_tunnel.Android.{
  Bridge, on_inbound, init_adnl_context, launch, fail_init, release_context, jni_send_packet,
  jni_send_packet_direct, send_counted, count_empty, jni_receive_packet, hand_over, client_message,
  client_thread, configure_adnl_peer,
}
use ton_tunnel.Android.Lifetime.{
  Call, init, configure, send, send_direct, receive, thread, message, perform, perform_all, IsOwned,
  IsOwned-perform,
}
use ton_tunnel.AdnlClient.Owned.{Holds, Serves}

-- Whether a client is set up, and so subscribed to its ADNL messages.
abbrev pub is_subscribed : ℕ → Bridge → Bool
is_subscribed handle b = elim (lookup handle b.clients.table) [ none ↦ false | some c ↦ c.ready ]

-- The messages that come in with a call: a non-empty one for a client that is subscribed.
abbrev pub incoming : Call → Bridge → List Bytes
incoming (message handle bytes) b =
    if is_subscribed handle b && not (is_nil bytes) then bytes ∷ [] else []
incoming (init allocates) b = []
incoming (configure address key token host) b = []
incoming (send packet mapped) b = []
incoming (send_direct buffer len) b = []
incoming (receive allocates) b = []
incoming (thread net handle) b = []

abbrev pub to_list : Option Bytes → List Bytes
to_list none = []
to_list (some x) = x ∷ []

-- The packet that a call hands to the Java side.
abbrev pub outgoing : Call → Bridge → List Bytes
outgoing (receive allocates) b = to_list (jni_receive_packet allocates b).1
outgoing (message handle bytes) b = []
outgoing (init allocates) b = []
outgoing (configure address key token host) b = []
outgoing (send packet mapped) b = []
outgoing (send_direct buffer len) b = []
outgoing (thread net handle) b = []

unfoldable pub all_incoming : List Call → Bridge → List Bytes
all_incoming [] b = []
all_incoming (c ∷ cs) b = incoming c b ++ all_incoming cs (perform c b)

unfoldable pub all_outgoing : List Call → Bridge → List Bytes
all_outgoing [] b = []
all_outgoing (c ∷ cs) b = outgoing c b ++ all_outgoing cs (perform c b)

-- The Java machine has the memory that a call asks for.
abbrev pub HasMemory : Call → Type 0
HasMemory (receive allocates) = allocates ≡ true
HasMemory (message handle bytes) = Unit
HasMemory (init allocates) = Unit
HasMemory (configure address key token host) = Unit
HasMemory (send packet mapped) = Unit
HasMemory (send_direct buffer len) = Unit
HasMemory (thread net handle) = Unit

abbrev pub IsFilled : Bytes → Type 0
IsFilled bytes = is_nil bytes ≡ false

-- One call against the queue: what is taken is at its front, what comes in is put at its end.
abbrev Moves : Call → Bridge → Type 0
Moves c b =
    (outgoing c b ++ (perform c b).inbound_queue ≡ b.inbound_queue ++ incoming c b)
    × All IsFilled (perform c b).inbound_queue

-- A call that leaves the queue and exchanges nothing.
keeps_queue :
    (queue queue' : List Bytes)
    → queue' ≡ queue
    → All IsFilled queue
    → (queue' ≡ queue ++ []) × All IsFilled queue'
keeps_queue queue queue' e q = (e ∙ sym (append-nil queue), subst (All IsFilled) (sym e) q)

init_queue :
    (allocates : Bool) (b : Bridge)
    → (init_adnl_context allocates b).0.inbound_queue ≡ b.inbound_queue
unfolding init_adnl_context launch fail_init release_context
init_queue allocates b = ground arith

send_queue :
    (packet : Option Bytes) (mapped : Bool) (b : Bridge)
    → (jni_send_packet packet mapped b).0.inbound_queue ≡ b.inbound_queue
unfolding jni_send_packet send_counted count_empty
send_queue none mapped b = refl
send_queue (some packet) mapped b = ground arith

send_direct_queue :
    (buffer : Option (Option Bytes)) (len : ℤ) (b : Bridge)
    → (jni_send_packet_direct buffer len b).0.inbound_queue ≡ b.inbound_queue
unfolding jni_send_packet_direct send_counted count_empty
send_direct_queue none len b = ground arith
send_direct_queue (some none) len b = ground arith
send_direct_queue (some (some bytes)) len b = ground arith

receive_from :
    (b : Bridge) (queue : List Bytes)
    → b.inbound_queue ≡ queue
    → All IsFilled queue
    → (to_list (jni_receive_packet true b).1 ++ (jni_receive_packet true b).0.inbound_queue ≡ queue)
      × All IsFilled (jni_receive_packet true b).0.inbound_queue
unfolding jni_receive_packet hand_over
receive_from b [] e q = ground (arith, e)
receive_from b ([] ∷ rest) e q = cc
receive_from b ((x ∷ xs) ∷ rest) e q = ground (arith, e)

receive-Moves : (b : Bridge) → All IsFilled b.inbound_queue → Moves (receive true) b
unfolding perform
receive-Moves b q =
    let moved = receive_from b b.inbound_queue refl q in
    (moved.0 ∙ sym (append-nil b.inbound_queue), moved.1)

-- A client that exists serves.
Serves-lookup :
    (context : Option ℕ) (table : List (ℕ × Client)) (handle : ℕ) (c : Client)
    → Holds context table
    → lookup handle table ≡ some c
    → Serves c
unfolding lookup
Serves-lookup none table handle c h e = ground (arith, h, e)
Serves-lookup (some p) table handle c (d, t, s) e = ground (arith, t, e, s)

queue_up :
    (bytes : Bytes) (queue : List Bytes)
    → IsFilled bytes
    → All IsFilled queue
    → All IsFilled (queue ++ bytes ∷ [])
queue_up bytes queue f q = All-append IsFilled queue (bytes ∷ []) q (f, tt)

client_message_lem :
    (handle : ℕ) (bytes : Bytes) (b : Bridge)
    → IsOwned b
    → client_message handle bytes b ≡ (
        if is_subscribed handle b && not (is_nil bytes)
        then record b { inbound_queue = b.inbound_queue ++ bytes ∷ [] }
        else b)
unfolding client_message on_inbound emit_inbound
client_message_lem handle bytes b v = elim (Option-cases (lookup handle b.clients.table)) [
  | inl nobody ↦ ground (arith, nobody)
  | inr (c, e) ↦
      let s = Serves-lookup b.context b.clients.table handle c v.holds e in served bytes c e s.0
]
  where
    served :
        (bytes : Bytes) (c : Client)
        → lookup handle b.clients.table ≡ some c
        → c.has_callback ≡ true
        → client_message handle bytes b ≡ (
            if is_subscribed handle b && not (is_nil bytes)
            then record b { inbound_queue = b.inbound_queue ++ bytes ∷ [] }
            else b)
    served [] c e s = ground (arith, e, s)
    served (x ∷ xs) c e s = ground (arith, e, s)

message-Moves :
    (handle : ℕ) (bytes : Bytes) (b : Bridge)
    → IsOwned b
    → All IsFilled b.inbound_queue
    → Moves (message handle bytes) b
unfolding perform
message-Moves handle bytes b v q =
    let lem = client_message_lem handle bytes b v in
    elim (Bool-cases (is_subscribed handle b && not (is_nil bytes))) [
      | inl taken ↦ rw (lem, taken) (refl, queue_up bytes b.inbound_queue (ground (arith, taken)) q)
      | inr not_taken ↦ rw (lem, not_taken) (sym (append-nil b.inbound_queue), q)
    ]

perform-Moves :
    (c : Call) (b : Bridge) → HasMemory c → IsOwned b → All IsFilled b.inbound_queue → Moves c b
unfolding perform client_thread configure_adnl_peer
perform-Moves (init allocates) b m v q = keeps_queue b.inbound_queue _ (init_queue allocates b) q
perform-Moves (configure address key token host) b m v q = keeps_queue b.inbound_queue _ refl q
perform-Moves (send packet mapped) b m v q =
    keeps_queue b.inbound_queue _ (send_queue packet mapped b) q
perform-Moves (send_direct buffer len) b m v q =
    keeps_queue b.inbound_queue _ (send_direct_queue buffer len b) q
perform-Moves (receive true) b m v q = receive-Moves b q
perform-Moves (receive false) b m v q = cc
perform-Moves (thread net handle) b m v q = keeps_queue b.inbound_queue _ refl q
perform-Moves (message handle bytes) b m v q = message-Moves handle bytes b v q

-- The Android bridge is a queue: whatever calls and messages come, from an owned bridge whose
-- packets are not empty, the packets handed to the JVM and then those still queued are those that
-- were queued and then those that came in, in order, if no allocation of an array fails.
pub perform_all-queue :
    (cs : List Call) (b : Bridge)
    → All HasMemory cs
    → IsOwned b
    → All IsFilled b.inbound_queue
    → all_outgoing cs b ++ (perform_all cs b).inbound_queue ≡ b.inbound_queue ++ all_incoming cs b
unfolding all_outgoing all_incoming perform_all
perform_all-queue [] b m v q = sym (append-nil b.inbound_queue)
perform_all-queue (c ∷ cs) b m v q =
    let (front, filled) = perform-Moves c b m.0 v q in
    let later = perform_all-queue cs (perform c b) m.1 (IsOwned-perform c b v) filled in
    append_assoc (outgoing c b) (all_outgoing cs (perform c b)) _
    ∙ ap (λ t. outgoing c b ++ t) later
    ∙ sym (append_assoc (outgoing c b) (perform c b).inbound_queue _)
    ∙ ap (λ t. t ++ all_incoming cs (perform c b)) front
    ∙ append_assoc b.inbound_queue (incoming c b) _
