-- ===== src/Tests/Packets.antt =====
-- The theorems on the packet bridge at small packets and connections.
use ton_tunnel.Base.{
  ℕ, ◌≡◌, ◌≢◌, ◌⊎◌, ◌≤◌, ◌<◌, refl, List, [], ◌∷◌, ◌++◌, true, false, none, some, Bytes, codes,
  length, All, pos, negsuc, arith,
}
use ton_tunnel.Desktop.Packets.Dns.{
  parse_dns_name, build_dns_name, exhausted, named, send_dns_reply,
}
use ton_tunnel.Desktop.Packets.Dns.Ends.{parse_dns_name_ends}
use ton_tunnel.Desktop.Packets.Dns.Names.{dotted, IsLabel, parse_dns_name-build}
use ton_tunnel.Desktop.Packets.Dns.Pointers.{compressed, pointer_place, parse_dns_name-pointer}
use ton_tunnel.Desktop.Packets.Dns.Replies.{Answers, send_dns_reply-Answers}
use ton_tunnel.Desktop.Packets.Connections.{TcpConn, TcpBridge, new_conn, drain}
use ton_tunnel.Desktop.Packets.Connections.Pending.{
  IsCounted, PendingStep, relayed, drained, all_steps, all_taken_in, all_taken, all_steps-order,
  drain-all_taken,
}
use ton_tunnel.Desktop.Packets.Connections.Sockets.{
  Callback, accept, recv, sent, poll, err, flushed, call_all, IsIdle, call_all-IsIdle,
}

abbrev head : Bytes
head = 0 ∷ 7 ∷ 1 ∷ 0 ∷ 0 ∷ 1 ∷ 0 ∷ 0 ∷ 0 ∷ 0 ∷ 0 ∷ 0 ∷ []

abbrev question : Bytes
question = 0 ∷ 1 ∷ 0 ∷ 1 ∷ []

labels-IsLabel : All IsLabel (codes "ton" ∷ codes "org" ∷ [])
labels-IsLabel = ground arith

parse_dns_name-build_example :
    parse_dns_name
      (head ++ (build_dns_name (dotted (codes "ton" ∷ codes "org" ∷ [])) ++ question))
      (length head)
    ≡ named
        (pos (length (build_dns_name (dotted (codes "ton" ∷ codes "org" ∷ [])))))
        (dotted (codes "ton" ∷ codes "org" ∷ []))
parse_dns_name-build_example =
    parse_dns_name-build head question (codes "ton") (codes "org" ∷ []) labels-IsLabel

-- A pointer to itself.
parse_dns_name_ends_example : parse_dns_name (head ++ 0xC0 ∷ 12 ∷ []) 12 ≢ exhausted
parse_dns_name_ends_example = parse_dns_name_ends (head ++ 0xC0 ∷ 12 ∷ []) 12

parse_dns_name-pointer_example :
    (n : ℕ) × (parse_dns_name
        (compressed head question question (codes "ton") (codes "org" ∷ []))
        (pointer_place head question question (codes "ton") (codes "org" ∷ []))
      ≡ named (negsuc n) (dotted (codes "ton" ∷ codes "org" ∷ [])))
parse_dns_name-pointer_example =
    parse_dns_name-pointer head question question (codes "ton") (codes "org" ∷ []) labels-IsLabel
      (omega arith)

abbrev query : Bytes
query = head ++ (3 ∷ codes "ton") ++ (0 ∷ question)

send_dns_reply-Answers_example :
    ((length query ≤ 496)
      × ((packet : Bytes) × (send_dns_reply 0x0A000001 0x0A000002 5353 7 query (10 ∷ 0 ∷ 0 ∷ 1 ∷ [])
            ≡ some packet)
          × Answers 0x0A000002 5353 7 query (10 ∷ 0 ∷ 0 ∷ 1 ∷ []) packet))
    ⊎ ((496 < length query)
        × (send_dns_reply 0x0A000001 0x0A000002 5353 7 query (10 ∷ 0 ∷ 0 ∷ 1 ∷ []) ≡ none))
send_dns_reply-Answers_example =
    send_dns_reply-Answers 0x0A000001 0x0A000002 5353 7 query (10 ∷ 0 ∷ 0 ∷ 1 ∷ []) (omega arith)
      (omega arith) (omega arith) (omega arith) refl

-- Two chunks come in, tcp_write takes the first and refuses the second, and a third comes in.
abbrev steps : List PendingStep
steps =
    relayed true (some (codes "one"))
    ∷ relayed true (some (codes "two"))
    ∷ drained (true ∷ false ∷ [])
    ∷ relayed true (some (codes "three"))
    ∷ []

abbrev open_conn : TcpConn
open_conn = record new_conn { has_socket = true; socks_connected = true }

open_conn-IsCounted : IsCounted open_conn
open_conn-IsCounted = record { counted = refl; bounded = omega arith }

all_steps-order_example :
    IsCounted (all_steps steps open_conn).0
    × ((all_steps steps open_conn).1 ++ (all_steps steps open_conn).0.pending
        ≡ open_conn.pending ++ all_taken_in steps open_conn)
all_steps-order_example = all_steps-order steps open_conn open_conn-IsCounted

abbrev full_conn : TcpConn
full_conn = record open_conn { pending = codes "one" ∷ codes "two" ∷ []; pending_size = 6 }

full_conn-IsCounted : IsCounted full_conn
full_conn-IsCounted = record { counted = refl; bounded = omega arith }

drain-all_taken_example :
    ((drain (all_taken full_conn.pending) full_conn).1 ≡ full_conn.pending)
    × ((drain (all_taken full_conn.pending) full_conn).0.pending ≡ [])
    × ((drain (all_taken full_conn.pending) full_conn).0.pending_size ≡ 0)
drain-all_taken_example = drain-all_taken full_conn full_conn-IsCounted

abbrev idle_bridge : TcpBridge
idle_bridge = record { connections = []; events = [] }

idle_bridge-IsIdle : IsIdle idle_bridge
idle_bridge-IsIdle = record { conns = tt; quiet = tt }

abbrev callbacks : List Callback
callbacks =
    accept true 1
    ∷ recv true 1 (some (codes "GET"))
    ∷ sent (true ∷ []) 1
    ∷ poll 1
    ∷ flushed (true ∷ []) 1
    ∷ recv true 1 none
    ∷ err
    ∷ []

call_all-IsIdle_example : IsIdle (call_all callbacks idle_bridge)
call_all-IsIdle_example = call_all-IsIdle callbacks idle_bridge idle_bridge-IsIdle
