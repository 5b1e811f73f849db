-- ===== src/Desktop/Packets/Connections/Pending.antt =====
-- The pending buffers of a connection in TON-Tunnel/WintunLwipBridge.cpp: their count, their bound,
-- and that they come out in order.
use ton_tunnel.Base.{
  ℕ, ◌+◌, ◌-◌, ◌%◌, ◌^◌, ◌≤◌, ◌≡◌, refl, sym, ap, ◌∙◌, ◌||◌, List, [], ◌∷◌, ◌++◌, append-nil,
  append_assoc, Bool, true, false, Option, none, some, Bytes, length, ltb, if◌then◌else◌, arith,
}
use ton_tunnel.Desktop.Packets.Connections.{
  TcpConn, max_pending_size, queue_chunk, close_socket, relay_round, drain,
}

abbrev pub total : List Bytes → ℕ
total [] = 0
total (b ∷ bs) = length b + total bs

total-append : (xs ys : List Bytes) → total (xs ++ ys) ≡ total xs + total ys
total-append [] ys = omega arith
total-append (x ∷ xs) ys = omega (arith, total-append xs ys)

pub record IsCounted (c : TcpConn) : Type 0 where
  pub counted : c.pending_size ≡ total c.pending
  pub bounded : c.pending_size ≤ max_pending_size

-- What happens to a connection's buffers: a round of the relay thread, or a loop that drains them.
pub data PendingStep : Type 0 where
  relayed : (running : Bool) (received : Option Bytes) → PendingStep
  drained : (answers : List Bool) → PendingStep

unfoldable pub pending_step : PendingStep → TcpConn → TcpConn × List Bytes
pending_step (relayed running received) c = (relay_round running received c, [])
pending_step (drained answers) c = drain answers c

-- The chunk that a round of the relay thread takes in: one that still fits, on an open connection.
abbrev pub taken_in : PendingStep → TcpConn → List Bytes
taken_in (relayed true (some chunk)) c =
    if c.remote_closed || c.local_closed || ltb max_pending_size (total c.pending + length chunk)
    then []
    else chunk ∷ []
taken_in (relayed true none) c = []
taken_in (relayed false received) c = []
taken_in (drained answers) c = []

unfoldable pub all_steps : List PendingStep → TcpConn → TcpConn × List Bytes
all_steps [] c = (c, [])
all_steps (s ∷ ss) c =
    let (c', first) = pending_step s c in let (c'', rest) = all_steps ss c' in (c'', first ++ rest)

unfoldable pub all_taken_in : List PendingStep → TcpConn → List Bytes
all_taken_in [] c = []
all_taken_in (s ∷ ss) c = taken_in s c ++ all_taken_in ss (pending_step s c).0

-- One step keeps the count and moves buffers through in order.
abbrev KeepsOrder : PendingStep → TcpConn → Type 0
KeepsOrder s c =
    IsCounted (pending_step s c).0
    × ((pending_step s c).1 ++ (pending_step s c).0.pending ≡ c.pending ++ taken_in s c)

drain_keeps :
    (answers : List Bool) (c : TcpConn) (pending : List Bytes)
    → c.pending ≡ pending
    → IsCounted c
    → IsCounted (drain answers c).0 × ((drain answers c).1 ++ (drain answers c).0.pending ≡ pending)
unfolding drain
drain_keeps [] c pending e v = (v, e)
drain_keeps (false ∷ answers) c pending e v = (v, e)
drain_keeps (true ∷ answers) c [] e v = ground (arith, e)
drain_keeps (true ∷ answers) c (b ∷ rest) e v =
    let c' = record c {
      pending = rest;
      pending_size = (c.pending_size + 2 ^ 64 - length b) % 2 ^ 64;
    } in
    let size : c.pending_size ≡ length b + total rest = v.counted ∙ ap total e in
    let ih = drain_keeps answers c' rest refl (record {
      counted = omega (arith, size, v.bounded);
      bounded = omega (arith, size, v.bounded);
    }) in
    rw (e, drain) (ih.0, ap (λ t. b ∷ t) ih.1)

relay_keeps :
    (running : Bool) (received : Option Bytes) (c : TcpConn)
    → IsCounted c
    → KeepsOrder (relayed running received) c
unfolding pending_step relay_round queue_chunk close_socket
relay_keeps false received c v = ground (arith, append-nil c.pending)
relay_keeps true none c v = ground (arith, append-nil c.pending)
relay_keeps true (some chunk) c v =
    ground (arith, append-nil c.pending, total-append c.pending (chunk ∷ []))

step_keeps : (s : PendingStep) (c : TcpConn) → IsCounted c → KeepsOrder s c
unfolding pending_step
step_keeps (relayed running received) c v = relay_keeps running received c v
step_keeps (drained answers) c v =
    let (counted, order) = drain_keeps answers c c.pending refl v in
    (counted, order ∙ sym (append-nil c.pending))

-- Whatever chunks, failures and refusals of tcp_write come, in any order: a connection whose size
-- is that of its buffers, and at most 262144, stays so, and the buffers written and then those
-- still pending are those that were pending and then the chunks taken in, in order.
pub all_steps-order :
    (ss : List PendingStep) (c : TcpConn)
    → IsCounted c
    → IsCounted (all_steps ss c).0
      × ((all_steps ss c).1 ++ (all_steps ss c).0.pending ≡ c.pending ++ all_taken_in ss c)
unfolding all_steps all_taken_in
all_steps-order [] c v = (v, sym (append-nil c.pending))
all_steps-order (s ∷ ss) c v =
    let (counted, first) = step_keeps s c v in
    let c' = (pending_step s c).0 in
    let (last, rest) = all_steps-order ss c' counted in
    (
      last,
      append_assoc (pending_step s c).1 (all_steps ss c').1 _
          ∙ ap (λ t. (pending_step s c).1 ++ t) rest
          ∙ sym (append_assoc (pending_step s c).1 c'.pending _)
          ∙ ap (λ t. t ++ all_taken_in ss c') first
          ∙ append_assoc c.pending (taken_in s c) _,
    )

abbrev pub all_taken : List Bytes → List Bool
all_taken [] = []
all_taken (b ∷ bs) = true ∷ all_taken bs

drain_all :
    (bs : List Bytes) (c : TcpConn)
    → c.pending ≡ bs
    → ((drain (all_taken bs) c).0.pending ≡ []) × ((drain (all_taken bs) c).1 ≡ bs)
unfolding drain
drain_all [] c e = (e, refl)
drain_all (b ∷ bs) c e =
    let c' = record c {
      pending = bs;
      pending_size = (c.pending_size + 2 ^ 64 - length b) % 2 ^ 64;
    } in
    let rest = drain_all bs c' refl in rw (e, drain) (rest.0, ap (λ t. b ∷ t) rest.1)

-- If tcp_write takes every pending buffer, the loop writes them all in order and none is left, and
-- the size is zero.
pub drain-all_taken :
    (c : TcpConn)
    → IsCounted c
    → ((drain (all_taken c.pending) c).1 ≡ c.pending)
      × ((drain (all_taken c.pending) c).0.pending ≡ [])
      × ((drain (all_taken c.pending) c).0.pending_size ≡ 0)
drain-all_taken c v =
    let (empty, written) = drain_all c.pending c refl in
    let counted = (drain_keeps (all_taken c.pending) c c.pending refl v).0 in
    (written, empty, counted.counted ∙ ap total empty)
