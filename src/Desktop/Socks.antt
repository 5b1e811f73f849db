-- ===== src/Desktop/Socks.antt =====
-- The handshakes of `handleClient` in TON-Tunnel/LocalSocks5Server.cpp, over the bytes that the
-- client sends before it closes or falls silent. `inet_ntop` is a parameter for each address family,
-- and so is whether a reply is taken whole. The log lines are not modelled.
pub mod Requests
pub mod Bridge
use ton_tunnel.Base.{
  ℕ, zero, suc, ◌+◌, ◌*◌, ◌^◌, List, [], ◌∷◌, ◌++◌, Bool, true, false, not, ◌&&◌, ◌||◌, Option,
  none, some, Bytes, length, take, drop, get_or, leb, ◌==◌, if◌then◌else◌, bit_or, u16,
}

-- recvExact: the bytes asked for and what comes behind them
unfoldable pub recv_exact : ℕ → Bytes → Option (Bytes × Bytes)
recv_exact n input = if leb n (length input) then some (take n input, drop n input) else none

-- A handshake's end: the client is closed, or a target is bridged with the bytes that follow.
pub data Outcome : Type 0 where
  closed : (replies : List Bytes) → Outcome
  bridged : (host : Bytes) (port : ℕ) (replies : List Bytes) (rest : Bytes) → Outcome

pub record System : Type 0 where
  pub inet_ntop4 : Bytes → Bytes
  pub inet_ntop6 : Bytes → Option Bytes
  pub takes_reply : Bytes → Bool

abbrev pub socks4_ok : Bytes
socks4_ok = 0 ∷ 0x5A ∷ 0 ∷ 0 ∷ 0 ∷ 0 ∷ 0 ∷ 0 ∷ []

abbrev pub socks4_fail : Bytes
socks4_fail = 0 ∷ 0x5B ∷ 0 ∷ 0 ∷ 0 ∷ 0 ∷ 0 ∷ 0 ∷ []

abbrev pub method_reply : Bytes
method_reply = 5 ∷ 0 ∷ []

abbrev pub socks5_ok : Bytes
socks5_ok = 5 ∷ 0 ∷ 0 ∷ 1 ∷ 0 ∷ 0 ∷ 0 ∷ 0 ∷ 0 ∷ 0 ∷ []

unfoldable pub port_of : Bytes → ℕ
port_of bytes = u16 (bit_or (get_or bytes 0 0 * 2 ^ 8) (get_or bytes 1 0))

-- The last reply, and the bridge if it is taken.
unfoldable pub reply_and_bridge : System → Bytes → List Bytes → Bytes → ℕ → Bytes → Outcome
reply_and_bridge sys reply replies host port rest =
    if sys.takes_reply reply
    then bridged host port (replies ++ reply ∷ []) rest
    else closed (replies ++ reply ∷ [])

-- A zero-terminated string, of 512 bytes at most, on the rounds left: the bytes before the zero. Behind
-- 512 bytes without a zero the loop ends all the same.
unfoldable pub read_string : ℕ → Bytes → Option (Bytes × Bytes)
read_string zero input = some ([], input)
read_string (suc rounds) [] = none
read_string (suc rounds) (ch ∷ input) =
    let rest = read_string rounds input in
    if ch == 0
    then some ([], input)
    else elim rest [ none ↦ none | some (text, behind) ↦ some (ch ∷ text, behind) ]

unfoldable pub is_socks4a : Bytes → Bool
is_socks4a ip =
    get_or ip 0 0 == 0 && get_or ip 1 0 == 0 && get_or ip 2 0 == 0 && not (get_or ip 3 0 == 0)

unfoldable pub socks4a_target : System → ℕ → Bytes → Outcome
socks4a_target sys port input = elim (read_string 512 input) [
  | none ↦ closed []
  | some ([], rest) ↦ closed (socks4_fail ∷ [])
  | some (b ∷ bs, rest) ↦ reply_and_bridge sys socks4_ok [] (b ∷ bs) port rest
]

-- Behind the user id.
unfoldable pub socks4_target : System → Bytes → ℕ → Bytes → Outcome
socks4_target sys ip port input =
    if is_socks4a ip
    then socks4a_target sys port input
    else reply_and_bridge sys socks4_ok [] (sys.inet_ntop4 ip) port input

unfoldable pub handle_socks4 : System → ℕ → Bytes → Outcome
handle_socks4 sys cmd input =
    if not (cmd == 1) then closed (socks4_fail ∷ []) else elim (recv_exact 2 input) [
      | none ↦ closed []
      | some (port, input) ↦ elim (recv_exact 4 input) [
        | none ↦ closed []
        | some (ip, input) ↦ elim (read_string 512 input) [
          | none ↦ closed []
          | some (user, input) ↦ socks4_target sys ip (port_of port) input
        ]
      ]
    ]

unfoldable pub read_name : Bytes → Option (Bytes × Bytes)
read_name input = elim (recv_exact 1 input) [
  | none ↦ none
  | some (len, input) ↦ recv_exact (get_or len 0 0) input
]

-- The address by its type: IPv4, a name, or IPv6; none closes the client.
unfoldable pub read_address : System → ℕ → Bytes → Option (Bytes × Bytes)
read_address sys kind input =
    let name = read_name input in
    let ip4 : Option (Bytes × Bytes) = elim (recv_exact 4 input) [
      | none ↦ none
      | some (ip, rest) ↦ some (sys.inet_ntop4 ip, rest)
    ] in
    let ip6 : Option (Bytes × Bytes) = elim (recv_exact 16 input) [
      | none ↦ none
      | some (ip, rest) ↦ elim (sys.inet_ntop6 ip) [ none ↦ none | some host ↦ some (host, rest) ]
    ] in
    if kind == 1 then ip4 else if kind == 3 then name else if kind == 4 then ip6 else none

unfoldable pub socks5_request : System → Bytes → Outcome
socks5_request sys input = elim (recv_exact 4 input) [
  | none ↦ closed (method_reply ∷ [])
  | some (head, input) ↦
      if not (get_or head 0 0 == 5) || not (get_or head 1 0 == 1)
      then closed (method_reply ∷ [])
      else elim (read_address sys (get_or head 3 0) input) [
        | none ↦ closed (method_reply ∷ [])
        | some (host, input) ↦ elim (recv_exact 2 input) [
          | none ↦ closed (method_reply ∷ [])
          | some (port, rest) ↦
              reply_and_bridge sys socks5_ok (method_reply ∷ []) host (port_of port) rest
        ]
      ]
]

unfoldable pub handle_socks5 : System → ℕ → Bytes → Outcome
handle_socks5 sys methods input = elim (recv_exact methods input) [
  | none ↦ closed []
  | some (offered, input) ↦
      if sys.takes_reply method_reply then socks5_request sys input else closed (method_reply ∷ [])
]

unfoldable pub handle_client : System → Bytes → Outcome
handle_client sys input = elim (recv_exact 2 input) [
  | none ↦ closed []
  | some (greeting, input) ↦
      if get_or greeting 0 0 == 4
      then handle_socks4 sys (get_or greeting 1 0) input
      else if get_or greeting 0 0 == 5
      then handle_socks5 sys (get_or greeting 1 0) input
      else closed []
]
