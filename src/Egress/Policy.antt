-- ===== src/Egress/Policy.antt =====
-- The checks of ton-egress-node/src/egress_node.cpp: clients, ports, hosts and addresses.
-- `inet_pton` of the C library is a parameter, the address in host byte order.
pub mod Addresses
use ton_tunnel.Base.{
  ℕ, ◌+◌, ◌≡◌, List, [], ◌∷◌, Bool, true, false, not, ◌&&◌, ◌||◌, Option, none, some, Bytes, codes,
  length, ltb, leb, ◌==◌, if◌then◌else◌, bytes_beq, bit_and, map,
}
use ton_tunnel.Egress.State.{Config}

-- The loops that return true at the first match.
unfoldable pub contains_client : List Bytes → Bytes → Bool
contains_client [] client_id = false
contains_client (allowed ∷ rest) client_id =
    if bytes_beq allowed client_id then true else contains_client rest client_id

unfoldable pub contains_port : List ℕ → ℕ → Bool
contains_port [] port = false
contains_port (allowed ∷ rest) port = if allowed == port then true else contains_port rest port

abbrev pub is_empty {ℓ} : {A : Type ℓ} → List A → Bool
is_empty [] = true
is_empty (x ∷ xs) = false

unfoldable pub is_client_allowed : Config → Bytes → Bytes → Bool
is_client_allowed config client_id token =
    if not (is_empty config.auth_token) && not (bytes_beq token config.auth_token)
    then false
    else if is_empty config.allowed_clients
    then true
    else contains_client config.allowed_clients client_id

unfoldable pub is_port_allowed : Config → ℕ → Bool
is_port_allowed config port = contains_port config.egress.allowed_ports port

-- std::tolower in the C locale
unfoldable pub to_lower : ℕ → ℕ
to_lower c = if leb b'A' c && leb c b'Z' then c + 32 else c

unfoldable pub is_host_blocked : Bytes → Bool
is_host_blocked host =
    let lowered = map to_lower host in
    bytes_beq lowered (codes "localhost") || bytes_beq lowered (codes "localhost.localdomain")

unfoldable pub is_blocked_value : ℕ → Bool
is_blocked_value v =
    let is10 = bit_and v 0xFF000000 == 0x0A000000 in
    let is172 = bit_and v 0xFFF00000 == 0xAC100000 in
    let is192 = bit_and v 0xFFFF0000 == 0xC0A80000 in
    let is_loopback = bit_and v 0xFF000000 == 0x7F000000 in
    let is_link_local = bit_and v 0xFFFF0000 == 0xA9FE0000 in
    is10 || is172 || is192 || is_loopback || is_link_local

unfoldable pub is_address_blocked : (Bytes → Option ℕ) → Bytes → Bool
is_address_blocked inet_pton ip =
    if bytes_beq ip (codes "127.0.0.1") || bytes_beq ip (codes "169.254.169.254")
    then true
    else elim (inet_pton ip) [ none ↦ true | some v ↦ is_blocked_value v ]
