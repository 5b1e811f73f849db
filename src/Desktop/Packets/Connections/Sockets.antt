-- ===== src/Desktop/Packets/Connections/Sockets.antt =====
-- The SOCKS side of the connections of TON-Tunnel/WintunLwipBridge.cpp.
use ton_tunnel.Base.{
  ℕ, ◌≡◌, refl, List, [], ◌∷◌, Bool, true, false, ◌||◌, Option, none, some, Bytes, All,
  Option-cases, Bool-cases, inl, inr, lookup, insert, nat_eq, ◌==◌, arith,
}
use ton_tunnel.Desktop.Packets.Connections.{
  TcpConn, TcpBridge, TcpEvent, socket_sent, socket_shut, socket_closed, pcb_written, pcb_closed,
  new_conn, drain, drain_pcb, log_written, create_connection, tcp_accept, put_conn, tcp_recv,
  tcp_sent, close_all_conns, tcp_err, tcp_poll, flush,
}

-- The calls that lwIP and the read thread make of the bridge.
pub data Callback : Type 0 where
  accept : (valid : Bool) (pcb : ℕ) → Callback
  recv : (takes : Bool) (pcb : ℕ) (packet : Option Bytes) → Callback
  sent : (answers : List Bool) (pcb : ℕ) → Callback
  err : Callback
  poll : (pcb : ℕ) → Callback
  flushed : (answers : List Bool) (pcb : ℕ) → Callback

unfoldable pub call : Callback → TcpBridge → TcpBridge
call (accept valid pcb) b = tcp_accept valid pcb b
call (recv takes pcb packet) b = tcp_recv takes pcb packet b
call (sent answers pcb) b = tcp_sent answers pcb b
call err b = tcp_err b
call (poll pcb) b = tcp_poll pcb b
call (flushed answers pcb) b = flush answers pcb b

unfoldable pub call_all : List Callback → TcpBridge → TcpBridge
call_all [] b = b
call_all (k ∷ ks) b = call_all ks (call k b)

-- A connection without a socket, to which nothing came from the SOCKS side.
abbrev pub IsUnconnected : ℕ × TcpConn → Type 0
IsUnconnected (pcb, c) =
    (c.has_socket ≡ false) × (c.pending ≡ []) × (c.pending_size ≡ 0) × (c.remote_closed ≡ false)

-- An event that moves no byte either way.
abbrev pub IsClosing : TcpEvent → Type 0
IsClosing (socket_sent pcb bytes) = ⊥
IsClosing (pcb_written pcb bytes) = ⊥
IsClosing (socket_shut pcb) = Unit
IsClosing (socket_closed pcb) = Unit
IsClosing (pcb_closed pcb) = Unit

pub record IsIdle (b : TcpBridge) : Type 0 where
  pub conns : All IsUnconnected b.connections
  pub quiet : All IsClosing b.events

All-insert :
    (pcb : ℕ) (c : TcpConn) (m : List (ℕ × TcpConn))
    → IsUnconnected (pcb, c)
    → All IsUnconnected m
    → All IsUnconnected (insert pcb c m)
unfolding insert
All-insert pcb c [] u h = (u, tt)
All-insert pcb c ((q, d) ∷ m) u h = ground (arith, All-insert pcb c m u h.1)

lookup-IsUnconnected :
    (pcb : ℕ) (c : TcpConn) (m : List (ℕ × TcpConn))
    → All IsUnconnected m
    → lookup pcb m ≡ some c
    → IsUnconnected (pcb, c)
unfolding lookup
lookup-IsUnconnected pcb c [] h e = cc
lookup-IsUnconnected pcb c ((q, d) ∷ m) h e = elim (Bool-cases (q == pcb)) [
  | inl same ↦ ground (arith, same, h.0, e)
  | inr other ↦ lookup-IsUnconnected pcb c m h.1 (rw other at e)
]

IsClosing-close_all :
    (conns : List (ℕ × TcpConn)) (events : List TcpEvent)
    → All IsClosing events
    → All IsClosing (close_all_conns conns events)
unfolding close_all_conns
IsClosing-close_all [] events q = q
IsClosing-close_all ((pcb, c) ∷ rest) events q = IsClosing-close_all rest _ (ground (arith, q))

drain_nothing : (answers : List Bool) (c : TcpConn) → c.pending ≡ [] → drain answers c ≡ (c, [])
unfolding drain
drain_nothing [] c e = refl
drain_nothing (false ∷ answers) c e = refl
drain_nothing (true ∷ answers) c e = ground (arith, e)

IsIdle-put :
    (pcb : ℕ) (c : TcpConn) (b : TcpBridge)
    → IsUnconnected (pcb, c)
    → IsIdle b
    → IsIdle (put_conn pcb c [] b)
unfolding put_conn
IsIdle-put pcb c b u v = record {
  conns = All-insert pcb c b.connections u v.conns;
  quiet = v.quiet;
}

IsIdle-drain :
    (answers : List Bool) (pcb : ℕ) (c : TcpConn) (b : TcpBridge)
    → IsUnconnected (pcb, c)
    → IsIdle b
    → IsIdle (drain_pcb answers pcb c b)
unfolding drain_pcb log_written
IsIdle-drain answers pcb c b u v =
    let nothing = drain_nothing answers c u.1 in
    record {
      conns = rw nothing (All-insert pcb c b.connections u v.conns);
      quiet = rw nothing v.quiet;
    }

IsIdle-recv :
    (takes : Bool) (pcb : ℕ) (packet : Option Bytes) (b : TcpBridge)
    → IsIdle b
    → IsIdle (tcp_recv takes pcb packet b)
unfolding tcp_recv
IsIdle-recv takes pcb none b v = elim (Option-cases (lookup pcb b.connections)) [
  | inl nobody ↦ rw (nobody, tcp_recv) v
  | inr (c, e) ↦
      let u = lookup-IsUnconnected pcb c b.connections v.conns e in
      rw (e, tcp_recv, u.0)
        (IsIdle-put pcb (record c { has_socket = false; local_closed = true }) b
          (refl, u.1, u.2, u.3) v)
]
IsIdle-recv takes pcb (some bytes) b v = elim (Option-cases (lookup pcb b.connections)) [
  | inl nobody ↦ rw (nobody, tcp_recv) v
  | inr (c, e) ↦
      let u = lookup-IsUnconnected pcb c b.connections v.conns e in rw (e, tcp_recv, u.0) v
]

IsIdle-sent :
    (answers : List Bool) (pcb : ℕ) (b : TcpBridge) → IsIdle b → IsIdle (tcp_sent answers pcb b)
unfolding tcp_sent
IsIdle-sent answers pcb b v = elim (Option-cases (lookup pcb b.connections)) [
  | inl nobody ↦ rw (nobody, tcp_sent) v
  | inr (c, e) ↦
      let u = lookup-IsUnconnected pcb c b.connections v.conns e in rw (e, tcp_sent, u.2) v
]

IsIdle-poll : (pcb : ℕ) (b : TcpBridge) → IsIdle b → IsIdle (tcp_poll pcb b)
unfolding tcp_poll
IsIdle-poll pcb b v = elim (Option-cases (lookup pcb b.connections)) [
  | inl nobody ↦ rw (nobody, tcp_poll) v
  | inr (c, e) ↦
      let u = lookup-IsUnconnected pcb c b.connections v.conns e in rw (e, tcp_poll, u.3) v
]

IsIdle-flush :
    (answers : List Bool) (pcb : ℕ) (b : TcpBridge) → IsIdle b → IsIdle (flush answers pcb b)
unfolding flush
IsIdle-flush answers pcb b v = elim (Option-cases (lookup pcb b.connections)) [
  | inl nobody ↦ rw (nobody, flush) v
  | inr (c, e) ↦
      let u = lookup-IsUnconnected pcb c b.connections v.conns e in
      elim (Bool-cases (c.local_closed || c.remote_closed)) [
        | inl closed ↦ rw (e, flush, closed) v
        | inr alive ↦ rw (e, flush, alive) (IsIdle-drain answers pcb c b u v)
      ]
]

IsIdle-call : (k : Callback) (b : TcpBridge) → IsIdle b → IsIdle (call k b)
unfolding call tcp_accept create_connection tcp_err
IsIdle-call (accept true pcb) b v = record {
  conns = All-insert pcb new_conn b.connections (refl, refl, refl, refl) v.conns;
  quiet = v.quiet;
}
IsIdle-call (accept false pcb) b v = v
IsIdle-call (recv takes pcb packet) b v = IsIdle-recv takes pcb packet b v
IsIdle-call (sent answers pcb) b v = IsIdle-sent answers pcb b v
IsIdle-call err b v = record {
  conns = tt;
  quiet = IsClosing-close_all b.connections b.events v.quiet;
}
IsIdle-call (poll pcb) b v = IsIdle-poll pcb b v
IsIdle-call (flushed answers pcb) b v = IsIdle-flush answers pcb b v

-- Whatever callbacks of lwIP and flushes come to a bridge whose connections have no socket and
-- nothing pending, no byte is sent to a SOCKS socket or written to a pcb, and no connection ever
-- has a socket.
pub call_all-IsIdle : (ks : List Callback) (b : TcpBridge) → IsIdle b → IsIdle (call_all ks b)
unfolding call_all
call_all-IsIdle [] b v = v
call_all-IsIdle (k ∷ ks) b v = call_all-IsIdle ks (call k b) (IsIdle-call k b v)
