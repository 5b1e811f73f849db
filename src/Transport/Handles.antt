-- ===== src/Transport/Handles.antt =====
-- The handles that a transport makes (ton-egress-node/src/ton_transport_factory.cpp).
use ton_tunnel.Base.{
  ℕ, ◌≡◌, refl, List, [], ◌∷◌, ◌++◌, Bool, false, Option, none, some, Bytes, Option-cases,
  Bool-cases, inl, inr, arith,
}
use ton_tunnel.Transport.{
  LibraryCall, opened, closed, created, handler_set, started, stopped, destroyed, sent,
  TransportAdnl, Library, load_symbols, create_handle, transport_start, transport_stop,
  transport_destroy, transport_send, set_on_message,
}

-- The handles of a log that were created, and those that were stopped and then destroyed.
abbrev pub made : List LibraryCall → List ℕ
made [] = []
made (created h ∷ calls) = h ∷ made calls
made (opened ∷ calls) = made calls
made (closed ∷ calls) = made calls
made (handler_set h ∷ calls) = made calls
made (started h ∷ calls) = made calls
made (stopped h ∷ calls) = made calls
made (destroyed h ∷ calls) = made calls
made (sent h client_id payload ∷ calls) = made calls

abbrev pub released : List LibraryCall → List ℕ
released [] = []
released (destroyed h ∷ calls) = h ∷ released calls
released (opened ∷ calls) = released calls
released (closed ∷ calls) = released calls
released (handler_set h ∷ calls) = released calls
released (started h ∷ calls) = released calls
released (stopped h ∷ calls) = released calls
released (created h ∷ calls) = released calls
released (sent h client_id payload ∷ calls) = released calls

abbrev pub held : Option ℕ → List ℕ
held none = []
held (some h) = h ∷ []

-- The handles that were created are the one held and those that were released.
abbrev pub IsBalanced : TransportAdnl → Type 0
IsBalanced t = made t.calls ≡ held t.handle ++ released t.calls

-- What the node does with its transport: it starts it while it has no handle, sends, and stops it.
pub data Use : Type 0 where
  start : (library : Library) → Use
  send : (takes : Bool) (client_id payload : Bytes) → Use
  handle_with : (given : Bool) → Use
  stop : Use

unfoldable pub use_transport : Use → TransportAdnl → TransportAdnl
use_transport (start library) t = elim t.handle [
  | none ↦ (transport_start library t).0
  | some h ↦ t
]
use_transport (send takes client_id payload) t = (transport_send takes client_id payload t).0
use_transport (handle_with given) t = set_on_message given t
use_transport stop t = transport_stop t

unfoldable pub use_all : List Use → TransportAdnl → TransportAdnl
use_all [] t = t
use_all (u ∷ us) t = use_all us (use_transport u t)

IsBalanced-start :
    (library : Library) (t : TransportAdnl)
    → t.handle ≡ none
    → IsBalanced t
    → IsBalanced (transport_start library t).0
unfolding transport_start load_symbols create_handle
IsBalanced-start library t e b = ground (arith, e, b)

IsBalanced-stop : (t : TransportAdnl) → IsBalanced t → IsBalanced (transport_stop t)
unfolding transport_stop
IsBalanced-stop t b = ground (arith, b)

IsBalanced-use : (u : Use) (t : TransportAdnl) → IsBalanced t → IsBalanced (use_transport u t)
unfolding use_transport transport_send set_on_message
IsBalanced-use (start library) t b = elim (Option-cases t.handle) [
  | inl free ↦ rw (free, use_transport) (IsBalanced-start library t free b)
  | inr (h, e) ↦ rw (e, use_transport) b
]
IsBalanced-use (send takes client_id payload) t b = ground (arith, b)
IsBalanced-use (handle_with given) t b = b
IsBalanced-use stop t b = IsBalanced-stop t b

IsBalanced-use_all : (us : List Use) (t : TransportAdnl) → IsBalanced t → IsBalanced (use_all us t)
unfolding use_all
IsBalanced-use_all [] t b = b
IsBalanced-use_all (u ∷ us) t b = IsBalanced-use_all us (use_transport u t) (IsBalanced-use u t b)

pub handle-stop : (t : TransportAdnl) → (transport_stop t).handle ≡ none
unfolding transport_stop
handle-stop t = elim (Option-cases t.handle) [
  | inl free ↦ rw (free, transport_stop) free
  | inr (h, e) ↦ rw (e, transport_stop) refl
]

-- Whatever the library answers, and in whatever order a balanced transport is started while it has
-- no handle, used and stopped: after its destructor every handle that was created was destroyed,
-- as often and in the same order, no handle is held, and `so` is null.
pub use_all-destroy :
    (us : List Use) (t : TransportAdnl)
    → IsBalanced t
    → (made (transport_destroy (use_all us t)).calls
        ≡ released (transport_destroy (use_all us t)).calls)
      × ((transport_destroy (use_all us t)).handle ≡ none)
      × ((transport_destroy (use_all us t)).has_so ≡ false)
unfolding transport_destroy
use_all-destroy us t b =
    let last = use_all us t in
    let balanced = IsBalanced-stop last (IsBalanced-use_all us t b) in
    let free = handle-stop last in
    elim (Bool-cases (transport_stop last).has_so) [
      | inl loaded ↦ rw (loaded, transport_destroy) (ground (arith, balanced, free), free, refl)
      | inr shut ↦ rw (shut, transport_destroy) (ground (arith, balanced, free), free, refl)
    ]
