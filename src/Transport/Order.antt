-- ===== src/Transport/Order.antt =====
-- The order of the calls that the transport of ton-egress-node/src/ton_transport_factory.cpp makes of
-- its library.
use ton_tunnel.Base.{
  ℕ, ◌+◌, ◌≤◌, ◌≡◌, ◌⊎◌, refl, sym, true, to_nat, ◌∙◌, List, [], ◌∷◌, Option, none, some,
  Option-cases, Bool-cases, false, inl, inr, arith,
}
use ton_tunnel.Transport.{
  LibraryCall, opened, closed, created, handler_set, started, stopped, destroyed, sent, Library,
  TransportAdnl, load_symbols, create_handle, transport_start, transport_stop, transport_destroy,
  transport_send, set_on_message,
}
use ton_tunnel.Transport.Handles.{
  Use, start, send, handle_with, stop, use_transport, use_all, handle-stop, IsBalanced, made,
  released, use_all-destroy,
}

-- The handle that exists after the calls of a log, newest first.
abbrev pub live : List LibraryCall → Option ℕ
live [] = none
live (opened ∷ cs) = live cs
live (closed ∷ cs) = live cs
live (created h ∷ cs) = some h
live (handler_set h ∷ cs) = live cs
live (started h ∷ cs) = live cs
live (stopped h ∷ cs) = live cs
live (destroyed h ∷ cs) = none
live (sent h client_id payload ∷ cs) = live cs

-- A handle is created, and the library closed, when none exists; every other call is of the one that
-- exists.
abbrev pub IsAllowed : LibraryCall → Option ℕ → Type 0
IsAllowed opened o = Unit
IsAllowed closed o = o ≡ none
IsAllowed (created h) o = o ≡ none
IsAllowed (handler_set h) o = o ≡ some h
IsAllowed (started h) o = o ≡ some h
IsAllowed (stopped h) o = o ≡ some h
IsAllowed (destroyed h) o = o ≡ some h
IsAllowed (sent h client_id payload) o = o ≡ some h

abbrev pub IsOrdered : List LibraryCall → Type 0
IsOrdered [] = Unit
IsOrdered (c ∷ cs) = IsAllowed c (live cs) × IsOrdered cs

abbrev pub IsInOrder : TransportAdnl → Type 0
IsInOrder t = (live t.calls ≡ t.handle) × IsOrdered t.calls

start-IsInOrder :
    (library : Library) (t : TransportAdnl)
    → t.handle ≡ none
    → IsInOrder t
    → IsInOrder (transport_start library t).0
unfolding transport_start load_symbols create_handle
start-IsInOrder library t e v = ground (arith, e, v)

stop-IsInOrder : (t : TransportAdnl) → IsInOrder t → IsInOrder (transport_stop t)
unfolding transport_stop
stop-IsInOrder t v = elim (Option-cases t.handle) [
  | inl free ↦ rw (free, transport_stop) v
  | inr (h, e) ↦ rw (e, transport_stop) (refl, (v.0 ∙ e, (v.0 ∙ e, v.1)))
]

use-IsInOrder : (u : Use) (t : TransportAdnl) → IsInOrder t → IsInOrder (use_transport u t)
unfolding use_transport transport_send set_on_message
use-IsInOrder (start library) t v = elim (Option-cases t.handle) [
  | inl free ↦ rw (free, use_transport) (start-IsInOrder library t free v)
  | inr (h, e) ↦ rw (e, use_transport) v
]
use-IsInOrder (send takes client_id payload) t v = elim (Option-cases t.handle) [
  | inl free ↦ rw (free, use_transport, transport_send) v
  | inr (h, e) ↦ rw (e, use_transport, transport_send) (v.0, (v.0 ∙ e, v.1))
]
use-IsInOrder (handle_with given) t v = v
use-IsInOrder stop t v = stop-IsInOrder t v

pub use_all-IsInOrder : (us : List Use) (t : TransportAdnl) → IsInOrder t → IsInOrder (use_all us t)
unfolding use_all
use_all-IsInOrder [] t v = v
use_all-IsInOrder (u ∷ us) t v = use_all-IsInOrder us (use_transport u t) (use-IsInOrder u t v)

-- How often the library was opened, and closed.
abbrev pub opens : List LibraryCall → ℕ
opens [] = 0
opens (opened ∷ cs) = opens cs + 1
opens (closed ∷ cs) = opens cs
opens (created h ∷ cs) = opens cs
opens (handler_set h ∷ cs) = opens cs
opens (started h ∷ cs) = opens cs
opens (stopped h ∷ cs) = opens cs
opens (destroyed h ∷ cs) = opens cs
opens (sent h client_id payload ∷ cs) = opens cs

-- Before the destructor every dlopen has left a reference, and there is one at least if `so` is set.
abbrev pub IsReferenced : TransportAdnl → Type 0
IsReferenced t = (t.references ≡ opens t.calls) × ((t.has_so ≡ false) ⊎ (1 ≤ t.references))

stop-IsReferenced : (t : TransportAdnl) → IsReferenced t → IsReferenced (transport_stop t)
unfolding transport_stop
stop-IsReferenced t v = elim (Option-cases t.handle) [
  | inl free ↦ rw (free, transport_stop) v
  | inr (h, e) ↦ rw (e, transport_stop) v
]

use-IsReferenced : (u : Use) (t : TransportAdnl) → IsReferenced t → IsReferenced (use_transport u t)
unfolding use_transport transport_start load_symbols create_handle transport_send set_on_message
use-IsReferenced (start library) t v = ground (arith, v)
use-IsReferenced (send takes client_id payload) t v = ground (arith, v)
use-IsReferenced (handle_with given) t v = v
use-IsReferenced stop t v = stop-IsReferenced t v

use_all-IsReferenced :
    (us : List Use) (t : TransportAdnl) → IsReferenced t → IsReferenced (use_all us t)
unfolding use_all
use_all-IsReferenced [] t v = v
use_all-IsReferenced (u ∷ us) t v =
    use_all-IsReferenced us (use_transport u t) (use-IsReferenced u t v)

stop-has_so : (t : TransportAdnl) → (transport_stop t).has_so ≡ t.has_so
unfolding transport_stop
stop-has_so t = elim (Option-cases t.handle) [
  | inl free ↦ rw (free, transport_stop) refl
  | inr (h, e) ↦ rw (e, transport_stop) refl
]

-- The destructor gives one reference back, if `so` is set.
destroy-references :
    (t : TransportAdnl)
    → IsReferenced t
    → (transport_destroy t).references + to_nat t.has_so ≡ opens (transport_destroy t).calls
unfolding transport_destroy
destroy-references t v =
    let w = stop-IsReferenced t v in
    let same = stop-has_so t in
    elim (Bool-cases (transport_stop t).has_so) [
      | inl set ↦
          let was : t.has_so ≡ true = sym same ∙ set in
          rw (set, transport_destroy, was) (ground (arith, w, set))
      | inr null ↦
          let was : t.has_so ≡ false = sym same ∙ null in
          rw (null, transport_destroy, was) (ground (arith, w))
    ]

destroy-IsOrdered : (t : TransportAdnl) → IsInOrder t → IsOrdered (transport_destroy t).calls
unfolding transport_destroy
destroy-IsOrdered t v =
    let last = transport_stop t in
    let (lives, ordered) = stop-IsInOrder t v in
    elim (Bool-cases last.has_so) [
      | inl loaded ↦ rw (loaded, transport_destroy) (lives ∙ handle-stop t, ordered)
      | inr shut ↦ rw (shut, transport_destroy) ordered
    ]

-- Whatever the library answers, and in whatever order a transport in order, in balance and with
-- its references counted is started while it has no handle, used and stopped: up to its destructor
-- it creates a handle only when none exists, calls no handle that was not created or was
-- destroyed, and closes the library only when no handle exists; at the end every handle that was
-- created was destroyed, none is held, so is null, and of the references that the calls of dlopen
-- took one is given back if so was set, and no other.
pub use_all-released :
    (us : List Use) (t : TransportAdnl)
    → IsInOrder t
    → IsBalanced t
    → IsReferenced t
    → let last = use_all us t in
      let end = transport_destroy last in
      IsOrdered end.calls
      × (made end.calls ≡ released end.calls)
      × (end.handle ≡ none)
      × (end.has_so ≡ false)
      × (end.references + to_nat last.has_so ≡ opens end.calls)
use_all-released us t v b f =
    let (balanced, free, shut) = use_all-destroy us t b in
    (
      destroy-IsOrdered (use_all us t) (use_all-IsInOrder us t v),
      balanced,
      free,
      shut,
      destroy-references (use_all us t) (use_all-IsReferenced us t f),
    )
