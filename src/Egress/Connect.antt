-- ===== src/Egress/Connect.antt =====
-- `connectIPv4WithTimeout` of ton-egress-node/src/egress_node.cpp, and the loop of `handleOpen` over
-- the resolved addresses. What the socket calls answer is a parameter.
use ton_tunnel.Base.{
  ℕ, ◌≡◌, ◌⊎◌, List, [], ◌∷◌, ◌++◌, Bool, true, false, not, ◌&&◌, ◌||◌, Option, none, some, Bytes,
  ◌==◌, if◌then◌else◌, arith,
}
use ton_tunnel.Egress.State.{Effect, released}
use ton_tunnel.Egress.Policy.{is_address_blocked}

pub data ConnectAnswer : Type 0 where
  connected in_progress refused : ConnectAnswer

-- The answers of socket, fcntl(F_GETFL), fcntl(F_SETFL), inet_pton, connect, select and
-- getsockopt(SO_ERROR), in the order of the calls.
pub record SocketCalls : Type 0 where
  pub socket : Option ℕ
  pub getfl_ok : Bool
  pub setfl_ok : Bool
  pub parses : Bool
  pub connect : ConnectAnswer
  pub writable : Bool
  pub getsockopt_ok : Bool
  pub so_error : ℕ

-- The descriptor or -1, and the descriptors closed on the way.
unfoldable pub connect_on : SocketCalls → ℕ → Option ℕ × List Effect
connect_on calls fd =
    if not calls.getfl_ok || not calls.setfl_ok
    then (none, released fd ∷ [])
    else if not calls.parses
    then (none, released fd ∷ [])
    else elim calls.connect [
      | connected ↦ (some fd, [])
      | refused ↦ (none, released fd ∷ [])
      | in_progress ↦
          if not calls.writable
          then (none, released fd ∷ [])
          else if not calls.getsockopt_ok || not (calls.so_error == 0)
          then (none, released fd ∷ [])
          else (some fd, [])
    ]

unfoldable pub connect_ipv4_with_timeout : SocketCalls → Option ℕ × List Effect
connect_ipv4_with_timeout calls = elim calls.socket [
  | none ↦ (none, [])
  | some fd ↦ connect_on calls fd
]

-- What the node asks of the operating system. An address that inet_ntop cannot print is `none` in
-- the list; no list at all is a failed getaddrinfo.
pub record Net : Type 0 where
  pub getaddrinfo : Bytes → Option (List (Option Bytes))
  pub inet_pton : Bytes → Option ℕ
  pub calls : Bytes → ℕ → SocketCalls

pub record Attempt : Type 0 where
  pub fd : Option ℕ
  pub blocked_only : Bool
  pub connected_ip : Bytes
  pub effects : List Effect

unfoldable pub try_addresses : Net → Bool → ℕ → List (Option Bytes) → Attempt → Attempt
try_addresses net block port [] acc = acc
try_addresses net block port (none ∷ rest) acc = try_addresses net block port rest acc
try_addresses net block port (some ip ∷ rest) acc =
    let (fd, closes) = connect_ipv4_with_timeout (net.calls ip port) in
    let tried = record acc { blocked_only = false; effects = closes ++ acc.effects } in
    let skip = try_addresses net block port rest acc in
    let next = try_addresses net block port rest tried in
    if block && is_address_blocked net.inet_pton ip
    then skip
    else elim fd [ none ↦ next | some f ↦ record tried { fd = some f; connected_ip = ip } ]

abbrev pub no_attempt : Attempt
no_attempt = record { fd = none; blocked_only = true; connected_ip = []; effects = [] }

-- Every socket that was made is either handed back or closed, once.
pub connect_keeps_or_releases :
    (calls : SocketCalls) (fd : ℕ)
    → calls.socket ≡ some fd
    → (connect_ipv4_with_timeout calls ≡ (some fd, []))
      ⊎ (connect_ipv4_with_timeout calls ≡ (none, released fd ∷ []))
unfolding connect_ipv4_with_timeout connect_on
connect_keeps_or_releases calls fd h = ground arith

-- A descriptor comes back only from an address that the policy lets through.
pub try_addresses-unblocked :
    (net : Net) (block : Bool) (port : ℕ) (ips : List (Option Bytes)) (acc : Attempt) (fd : ℕ)
    → acc.fd ≡ none
    → (try_addresses net block port ips acc).fd ≡ some fd
    → (block
        && is_address_blocked net.inet_pton (try_addresses net block port ips acc).connected_ip)
      ≡ false
unfolding try_addresses
try_addresses-unblocked net block port [] acc fd h e = cc
try_addresses-unblocked net block port (none ∷ rest) acc fd h e =
    try_addresses-unblocked net block port rest acc fd h e
try_addresses-unblocked net block port (some ip ∷ rest) acc fd h e = ground (
  arith,
  try_addresses-unblocked net block port rest acc fd h,
  try_addresses-unblocked net block port rest
      (record acc {
        blocked_only = false;
        effects = (connect_ipv4_with_timeout (net.calls ip port)).1 ++ acc.effects;
      })
      fd h,
)
