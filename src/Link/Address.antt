-- ===== src/Link/Address.antt =====
-- The address that the node prints at its start (ton-egress-node/src/ton_adnl_backend.cpp), as the
-- clients' configuration (app/src/main/cpp/ton_adnl_client_backend.cpp) reads it.
use ton_tunnel.Base.{
  ℕ, ◌+◌, ◌≤◌, ◌≡◌, ◌≢◌, refl, sym, ap, ◌∙◌, [], ◌∷◌, ◌++◌, some, Bytes, All, append_assoc, length,
  length-append, take, drop, take-append, drop-append, find, false, leb, ◌==◌, to_decimal, arith,
}
use ton_tunnel.Adnl.{normalize_private_key}
use ton_tunnel.Adnl.Runtime.{
  KeyLibrary, new_runtime, public_key_hex, announce_runtime, init_adnl_runtime, runtime_start,
}
use ton_tunnel.AdnlClient.{Network, parse_egress}

find_at : (l rest : Bytes) → All (λ c. c ≢ b'@') l → find b'@' (l ++ b'@' ∷ rest) ≡ some (length l)
unfolding find
find_at [] rest h = refl
find_at (c ∷ l) rest h = ground (arith, h.0, find_at l rest h.1)

parse_egress-key :
    (net : Network) (key : Bytes) (c : ℕ) (host : Bytes)
    → All (λ x. x ≢ b'@') key
    → 1 ≤ length key
    → net.from_hex key ≡ 256
    → parse_egress net (key ++ b'@' ∷ (c ∷ host)) ≡ some (key, c ∷ host)
unfolding parse_egress
parse_egress-key net key c host h n k =
    let value = key ++ b'@' ∷ (c ∷ host) in
    let long : length value ≡ length key + (2 + length host) =
      omega (arith, length-append key (b'@' ∷ (c ∷ host))) in
    let some_key : (length key == 0) ≡ false = ground (arith, n) in
    let some_host : leb (length value) (length key + 1) ≡ false = ground (arith, long) in
    let before : take (length key) value ≡ key = take-append key _ (length key) refl in
    let behind : drop (length key + 1) value ≡ c ∷ host =
      ap (drop (length key + 1)) (sym (append_assoc key (b'@' ∷ []) (c ∷ host)))
      ∙ drop-append (key ++ b'@' ∷ []) (c ∷ host) (length key + 1)
          (sym (length-append key (b'@' ∷ []))) in
    rw (parse_egress, find_at key (c ∷ host) h, some_key, some_host, before, behind, k) refl

-- The address that a fresh runtime of the node reports once it is started is read by a client as
-- the node's public key, host and port, if the private key is imported, the host is not empty, and
-- the key's hexadecimal text holds no @ and is taken for 256 bits.
pub local_address-parse_egress :
    (lib : KeyLibrary) (net : Network) (key public address : Bytes) (a port : ℕ)
    → lib.import_key (normalize_private_key lib.pk_id key) ≡ some public
    → All (λ x. x ≢ b'@') (public_key_hex lib public)
    → 1 ≤ length (public_key_hex lib public)
    → net.from_hex (public_key_hex lib public) ≡ 256
    → parse_egress net (runtime_start lib (new_runtime key (a ∷ address) port)).local_address
      ≡ some (public_key_hex lib public, (a ∷ address) ++ b':' ∷ to_decimal port)
unfolding runtime_start new_runtime init_adnl_runtime announce_runtime
local_address-parse_egress lib net key public address a port imported h n k =
    rw (imported, runtime_start, init_adnl_runtime, announce_runtime)
      (parse_egress-key net (public_key_hex lib public) a (address ++ b':' ∷ to_decimal port) h n k)
