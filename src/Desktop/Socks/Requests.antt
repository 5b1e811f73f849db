-- ===== src/Desktop/Socks/Requests.antt =====
-- Whole requests to TON-Tunnel/LocalSocks5Server.cpp, and what becomes of them.
use ton_tunnel.Base.{
  ℕ, zero, suc, ◌/◌, ◌%◌, ◌^◌, ◌<◌, ◌≡◌, ◌≢◌, refl, [], ◌∷◌, ◌++◌, true, some, Bytes, length,
  length-append, take-append, drop-append, bit_or-fields, All, arith,
}
use ton_tunnel.Desktop.Socks.{
  recv_exact, bridged, System, socks4_ok, method_reply, socks5_ok, port_of, reply_and_bridge,
  read_string, is_socks4a, socks4a_target, socks4_target, handle_socks4, read_name, read_address,
  socks5_request, handle_socks5, handle_client,
}

recv_exact-append :
    (xs ys : Bytes) (n : ℕ) → n ≡ length xs → recv_exact n (xs ++ ys) ≡ some (xs, ys)
unfolding recv_exact
recv_exact-append xs ys n e =
    ground (arith, e, length-append xs ys, take-append xs ys n e, drop-append xs ys n e)

port_of-bytes : (port : ℕ) → port < 2 ^ 16 → port_of (port / 256 ∷ port % 256 ∷ []) ≡ port
unfolding port_of
port_of-bytes port h = omega (arith, bit_or-fields 8 (port / 256) (port % 256) (omega arith))

-- A request of version 5 for a name, with its greeting, as one stream of bytes.
abbrev pub socks5_bytes : Bytes → Bytes → ℕ → Bytes → Bytes
socks5_bytes methods name port rest =
    5
    ∷ length methods
    ∷ (methods ++ (5 ∷ 1 ∷ 0 ∷ 3 ∷ length name ∷ (name ++ (port / 256 ∷ port % 256 ∷ rest))))

read_name-bytes : (name rest : Bytes) → read_name (length name ∷ (name ++ rest)) ≡ some (name, rest)
unfolding read_name
read_name-bytes name rest =
    rw (recv_exact-append (length name ∷ []) (name ++ rest) 1 refl, read_name)
      (recv_exact-append name rest (length name) refl)

socks5_request-bytes :
    (sys : System) (name : Bytes) (port : ℕ) (rest : Bytes)
    → port < 2 ^ 16
    → socks5_request sys (5 ∷ 1 ∷ 0 ∷ 3 ∷ length name ∷ (name ++ (port / 256 ∷ port % 256 ∷ rest)))
      ≡ reply_and_bridge sys socks5_ok (method_reply ∷ []) name port rest
unfolding socks5_request read_address
socks5_request-bytes sys name port rest h =
    let tail = port / 256 ∷ port % 256 ∷ rest in
    rw
      (
        recv_exact-append (5 ∷ 1 ∷ 0 ∷ 3 ∷ []) (length name ∷ (name ++ tail)) 4 refl,
        socks5_request,
        read_name-bytes name tail,
        recv_exact-append (port / 256 ∷ port % 256 ∷ []) rest 2 refl,
        port_of-bytes port h,
      )
      refl

handle_socks5-bytes :
    (sys : System) (methods name : Bytes) (port : ℕ) (rest : Bytes)
    → port < 2 ^ 16
    → sys.takes_reply method_reply ≡ true
    → sys.takes_reply socks5_ok ≡ true
    → handle_socks5 sys
        (length methods)
        (methods ++ (5 ∷ 1 ∷ 0 ∷ 3 ∷ length name ∷ (name ++ (port / 256 ∷ port % 256 ∷ rest))))
      ≡ bridged name port (method_reply ∷ socks5_ok ∷ []) rest
unfolding handle_socks5 reply_and_bridge
handle_socks5-bytes sys methods name port rest h m o =
    let request = 5 ∷ 1 ∷ 0 ∷ 3 ∷ length name ∷ (name ++ (port / 256 ∷ port % 256 ∷ rest)) in
    rw
      (
        recv_exact-append methods request (length methods) refl,
        handle_socks5,
        m,
        socks5_request-bytes sys name port rest h,
        o,
      )
      refl

-- A whole SOCKS5 CONNECT for a name, if both replies are taken, is answered and bridged to that
-- name and port, with the bytes behind it left for the stream.
pub handle_client-socks5 :
    (sys : System) (methods name : Bytes) (port : ℕ) (rest : Bytes)
    → port < 2 ^ 16
    → sys.takes_reply method_reply ≡ true
    → sys.takes_reply socks5_ok ≡ true
    → handle_client sys (socks5_bytes methods name port rest)
      ≡ bridged name port (method_reply ∷ socks5_ok ∷ []) rest
unfolding handle_client
handle_client-socks5 sys methods name port rest h m o =
    let request = 5 ∷ 1 ∷ 0 ∷ 3 ∷ length name ∷ (name ++ (port / 256 ∷ port % 256 ∷ rest)) in
    rw (recv_exact-append (5 ∷ length methods ∷ []) (methods ++ request) 2 refl, handle_client)
      (handle_socks5-bytes sys methods name port rest h m o)

abbrev IsText : Bytes → Type 0
IsText text = All (λ ch. ch ≢ 0) text

read_string-text :
    (rounds : ℕ) (text rest : Bytes)
    → IsText text
    → length text < rounds
    → read_string rounds (text ++ 0 ∷ rest) ≡ some (text, rest)
unfolding read_string
read_string-text zero text rest t h = absurd (omega arith)
read_string-text (suc rounds) [] rest t h = refl
read_string-text (suc rounds) (ch ∷ text) rest t h =
    ground (arith, t.0, read_string-text rounds text rest t.1 (omega arith))

-- A request of version 4a: the address 0.0.0.x says that a name follows the user id.
abbrev pub socks4a_bytes : ℕ → Bytes → Bytes → ℕ → Bytes → Bytes
socks4a_bytes x user name port rest =
    4 ∷ 1 ∷ port / 256 ∷ port % 256 ∷ 0 ∷ 0 ∷ 0 ∷ x ∷ (user ++ (0 ∷ (name ++ (0 ∷ rest))))

-- A whole SOCKS4a CONNECT with a user id and a non-empty name of less than 512 bytes, if the reply
-- is taken, is answered and bridged to that name and port, with the bytes behind it left for the
-- stream.
pub handle_client-socks4a :
    (sys : System) (x : ℕ) (user : Bytes) (b : ℕ) (bs : Bytes) (port : ℕ) (rest : Bytes)
    → x ≢ 0
    → IsText user
    → IsText (b ∷ bs)
    → length user < 512
    → length (b ∷ bs) < 512
    → port < 2 ^ 16
    → sys.takes_reply socks4_ok ≡ true
    → handle_client sys (socks4a_bytes x user (b ∷ bs) port rest)
      ≡ bridged (b ∷ bs) port (socks4_ok ∷ []) rest
unfolding handle_client handle_socks4 socks4_target socks4a_target is_socks4a reply_and_bridge
handle_client-socks4a sys x user b bs port rest hx hu hb lu lb h o =
    let named = (b ∷ bs) ++ (0 ∷ rest) in
    let from_ip = 0 ∷ 0 ∷ 0 ∷ x ∷ (user ++ (0 ∷ named)) in
    rw
      (
        recv_exact-append (4 ∷ 1 ∷ []) (port / 256 ∷ port % 256 ∷ from_ip) 2 refl,
        handle_client,
        recv_exact-append (port / 256 ∷ port % 256 ∷ []) from_ip 2 refl,
        recv_exact-append (0 ∷ 0 ∷ 0 ∷ x ∷ []) (user ++ (0 ∷ named)) 4 refl,
        read_string-text 512 user named hu lu,
        port_of-bytes port h,
      )
      (ground (arith, hx, read_string-text 512 (b ∷ bs) rest hb lb, o))
