-- ===== src/Desktop/Packets/Connections.antt =====
-- The TCP connections of TON-Tunnel/WintunLwipBridge.cpp: the callbacks of lwIP, the pending buffers
-- from the SOCKS side, and the flush of the read thread. A pcb is a number; what lwIP and the sockets
-- answer is a parameter, and what is done to them is a log, newest first. A packet comes in one pbuf.
pub mod Pending
pub mod Sockets
use ton_tunnel.Base.{
  ℕ, ◌+◌, ◌-◌, ◌%◌, ◌^◌, List, [], ◌∷◌, ◌++◌, Bool, true, false, not, ◌&&◌, ◌||◌, Option, none,
  some, Bytes, length, ltb, if◌then◌else◌, lookup, insert, erase, nat_eq,
}

abbrev pub max_pending_size : ℕ
max_pending_size = 262144

-- TcpConnState; `has_socket` is whether socksSocket is valid.
pub record TcpConn : Type 0 where
  pub has_socket : Bool
  pub socks_connected : Bool
  pub pending : List Bytes
  pub pending_size : ℕ
  pub remote_closed : Bool
  pub local_closed : Bool

abbrev pub new_conn : TcpConn
new_conn = record {
  has_socket = false;
  socks_connected = false;
  pending = [];
  pending_size = 0;
  remote_closed = false;
  local_closed = false;
}

pub data TcpEvent : Type 0 where
  socket_sent : (pcb : ℕ) (bytes : Bytes) → TcpEvent
  socket_shut socket_closed : (pcb : ℕ) → TcpEvent
  pcb_written : (pcb : ℕ) (bytes : Bytes) → TcpEvent
  pcb_closed : (pcb : ℕ) → TcpEvent

pub record TcpBridge : Type 0 where
  pub connections : List (ℕ × TcpConn)
  pub events : List TcpEvent

-- What the relay thread does with a chunk from the SOCKS socket: it is queued, or too much is pending.
unfoldable pub queue_chunk : Bytes → TcpConn → TcpConn
queue_chunk chunk c =
    if ltb max_pending_size (c.pending_size + length chunk)
    then record c { remote_closed = true }
    else record c {
      pending = c.pending ++ chunk ∷ [];
      pending_size = c.pending_size + length chunk;
    }

unfoldable pub close_socket : TcpConn → TcpConn
close_socket c = record c { has_socket = false }

-- A round of socksRelayThread: recv gives a chunk or fails, none. Behind the loop the socket is closed.
unfoldable pub relay_round : Bool → Option Bytes → TcpConn → TcpConn
relay_round running received c =
    if not running || c.remote_closed || c.local_closed then close_socket c else elim received [
      | none ↦ close_socket (record c { remote_closed = true })
      | some chunk ↦
          let queued = queue_chunk chunk c in
          if queued.remote_closed then close_socket queued else queued
    ]

-- The loop that writes pending buffers while tcp_write takes them; its answers come from a list, which
-- refuses at its end. The buffers that were written come with the connection.
unfoldable pub drain : List Bool → TcpConn → TcpConn × List Bytes
drain [] c = (c, [])
drain (false ∷ answers) c = (c, [])
drain (true ∷ answers) c = elim c.pending [
  | [] ↦ (c, [])
  | b ∷ rest ↦
      let (c', written) = drain answers (record c {
        pending = rest;
        pending_size = (c.pending_size + 2 ^ 64 - length b) % 2 ^ 64;
      }) in
      (c', b ∷ written)
]

unfoldable pub log_written : ℕ → List Bytes → List TcpEvent → List TcpEvent
log_written pcb [] events = events
log_written pcb (b ∷ bs) events = log_written pcb bs (pcb_written pcb b ∷ events)

unfoldable pub drain_pcb : List Bool → ℕ → TcpConn → TcpBridge → TcpBridge
drain_pcb answers pcb c b =
    let (c', written) = drain answers c in
    record { connections = insert pcb c' b.connections; events = log_written pcb written b.events }

-- createConnection, with the callbacks set on the pcb
unfoldable pub create_connection : ℕ → TcpBridge → TcpBridge
create_connection pcb b = record b { connections = insert pcb new_conn b.connections }

-- tcpAcceptCallback; `valid` is whether lwIP reports no error and gives a pcb.
unfoldable pub tcp_accept : Bool → ℕ → TcpBridge → TcpBridge
tcp_accept valid pcb b = if valid then create_connection pcb b else b

unfoldable pub put_conn : ℕ → TcpConn → List TcpEvent → TcpBridge → TcpBridge
put_conn pcb c events b = record {
  connections = insert pcb c b.connections;
  events = events ++ b.events;
}

-- tcpRecvCallback: none is the end of the stream, `takes` whether sendExact succeeds.
unfoldable pub tcp_recv : Bool → ℕ → Option Bytes → TcpBridge → TcpBridge
tcp_recv takes pcb packet b = elim (lookup pcb b.connections) [
  | none ↦ b
  | some c ↦ elim packet [
    | none ↦
        put_conn pcb (record c { local_closed = true })
          (if c.has_socket then socket_shut pcb ∷ [] else []) b
    | some bytes ↦
        if c.has_socket && c.socks_connected
        then if takes
          then put_conn pcb c (socket_sent pcb bytes ∷ []) b
          else put_conn pcb (close_socket (record c { remote_closed = true }))
              (socket_closed pcb ∷ []) b
        else b
  ]
]

-- tcpSentCallback: the size is looked at too.
unfoldable pub tcp_sent : List Bool → ℕ → TcpBridge → TcpBridge
tcp_sent answers pcb b = elim (lookup pcb b.connections) [
  | none ↦ b
  | some c ↦ if ltb 0 c.pending_size then drain_pcb answers pcb c b else b
]

-- tcpErrCallback closes every connection.
unfoldable pub close_all_conns : List (ℕ × TcpConn) → List TcpEvent → List TcpEvent
close_all_conns [] events = events
close_all_conns ((pcb, c) ∷ rest) events =
    close_all_conns rest (
      if c.has_socket then socket_closed pcb ∷ pcb_closed pcb ∷ events else pcb_closed pcb ∷ events)

unfoldable pub tcp_err : TcpBridge → TcpBridge
tcp_err b = record { connections = []; events = close_all_conns b.connections b.events }

unfoldable pub tcp_poll : ℕ → TcpBridge → TcpBridge
tcp_poll pcb b = elim (lookup pcb b.connections) [
  | none ↦ b
  | some c ↦
      if c.remote_closed && not c.local_closed
      then record { connections = erase pcb b.connections; events = pcb_closed pcb ∷ b.events }
      else b
]

-- The flush at the head of the read thread's loop, for one connection.
unfoldable pub flush : List Bool → ℕ → TcpBridge → TcpBridge
flush answers pcb b = elim (lookup pcb b.connections) [
  | none ↦ b
  | some c ↦ if c.local_closed || c.remote_closed then b else drain_pcb answers pcb c b
]
