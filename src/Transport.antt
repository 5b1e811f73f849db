-- ===== src/Transport.antt =====
-- ton-egress-node/src/ton_transport_factory.cpp and ton_transport_stub.cpp: the node's transport over a
-- backend library that is loaded at run time, and the choice between it and the stub. What the library
-- answers is a parameter; the calls that are made of it are a log, newest first.
pub mod Handles
pub mod Order
use ton_tunnel.Base.{
  ℕ, suc, ◌+◌, ◌-◌, List, [], ◌∷◌, Bool, true, false, not, ◌&&◌, Option, none, some, Bytes, codes,
  bytes_beq, if◌then◌else◌,
}

-- Handles are numbered in the order in which they are created.
pub data LibraryCall : Type 0 where
  opened closed : LibraryCall
  created handler_set started stopped destroyed : (handle : ℕ) → LibraryCall
  sent : (handle : ℕ) (client_id payload : Bytes) → LibraryCall

-- TonTransportAdnl::Impl; `has_so` is whether `so` is set, `next` numbers the handles. `references` is
-- the dynamic loader's count for the library, which every dlopen raises and dlclose lowers.
pub record TransportAdnl : Type 0 where
  pub has_so : Bool
  pub references : ℕ
  pub handle : Option ℕ
  pub has_handler : Bool
  pub next : ℕ
  pub calls : List LibraryCall

abbrev pub new_transport : TransportAdnl
new_transport = record {
  has_so = false;
  references = 0;
  handle = none;
  has_handler = false;
  next = 0;
  calls = [];
}

-- dlopen, dlsym for all seven symbols, create and start.
pub record Library : Type 0 where
  pub opens : Bool
  pub has_symbols : Bool
  pub creates : Bool
  pub starts : Bool

-- loadSymbols: `so` is overwritten, whatever it held.
unfoldable pub load_symbols : Library → TransportAdnl → TransportAdnl × Bool
load_symbols l t =
    if l.opens
    then (
      record t { has_so = true; references = t.references + 1; calls = opened ∷ t.calls },
      l.has_symbols,
    )
    else (record t { has_so = false }, false)

unfoldable pub create_handle : Library → TransportAdnl → TransportAdnl × Bool
create_handle l t =
    let h = t.next in
    if l.creates
    then (
      record t {
        handle = some h;
        next = h + 1;
        calls = started h ∷ handler_set h ∷ created h ∷ t.calls;
      },
      l.starts,
    )
    else (record t { handle = none }, false)

unfoldable pub transport_start : Library → TransportAdnl → TransportAdnl × Bool
transport_start l t =
    let (loaded, complete) = load_symbols l t in
    if complete then create_handle l loaded else (loaded, false)

unfoldable pub transport_stop : TransportAdnl → TransportAdnl
transport_stop t = elim t.handle [
  | none ↦ t
  | some h ↦ record t { handle = none; calls = destroyed h ∷ stopped h ∷ t.calls }
]

-- The destructor.
unfoldable pub transport_destroy : TransportAdnl → TransportAdnl
transport_destroy t =
    let s = transport_stop t in
    if s.has_so
    then record s { has_so = false; references = s.references - 1; calls = closed ∷ s.calls }
    else s

-- `takes` is whether the library's send returns 0.
unfoldable pub transport_send : Bool → Bytes → Bytes → TransportAdnl → TransportAdnl × Bool
transport_send takes client_id payload t = elim t.handle [
  | none ↦ (t, false)
  | some h ↦ (record t { calls = sent h client_id payload ∷ t.calls }, takes)
]

unfoldable pub set_on_message : Bool → TransportAdnl → TransportAdnl
set_on_message given t = record t { has_handler = given }

-- onMessageBridge: what the node's handler gets of a message; null pointers are none.
unfoldable pub on_message_bridge :
    Option Bytes → Option Bytes → TransportAdnl → Option (Bytes × Bytes)
on_message_bridge none payload t = none
on_message_bridge (some client_id) none t = none
on_message_bridge (some client_id) (some payload) t =
    if t.has_handler then some (client_id, payload) else none

-- createTonTransport: the library's transport, or the stub with its address.
pub data Transport : Type 0 where
  adnl : (transport : TransportAdnl) → Transport
  stub : (local_address : Bytes) → Transport

unfoldable pub create_ton_transport : Bytes → Transport
create_ton_transport backend =
    if bytes_beq backend (codes "adnl")
    then adnl new_transport
    else stub (codes "stub-adnl-address")

-- sendToClient of either; the stub takes everything.
unfoldable pub send_through : Bool → Bytes → Bytes → Transport → Transport × Bool
send_through takes client_id payload (adnl t) =
    let (t', ok) = transport_send takes client_id payload t in (adnl t', ok)
send_through takes client_id payload (stub local_address) = (stub local_address, true)
