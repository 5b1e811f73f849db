-- ===== src/Egress/Policy/Addresses.antt =====
-- What the masks of `isAddressBlocked` (ton-egress-node/src/egress_node.cpp) mean for the octets of
-- an address, and that the keys of the stream table are one to one.
use ton_tunnel.Base.{
  ℕ, ◌+◌, ◌*◌, ◌/◌, ◌^◌, ◌≤◌, ◌<◌, ◌≡◌, ◌↔◌, ◌⊎◌, true, bit_and, bit_and-mask, bit_and-high, arith,
}
use ton_tunnel.Egress.Policy.{is_blocked_value}

-- a.b.c.d in host byte order
abbrev pub address : ℕ → ℕ → ℕ → ℕ → ℕ
address a b c d = ((a * 256 + b) * 256 + c) * 256 + d

abbrev pub InBlockedRange : ℕ → ℕ → Type 0
InBlockedRange a b =
    (a ≡ 10)
    ⊎ ((a ≡ 172) × (16 ≤ b) × (b ≤ 31))
    ⊎ ((a ≡ 192) × (b ≡ 168))
    ⊎ (a ≡ 127)
    ⊎ ((a ≡ 169) × (b ≡ 254))

pub mask8 : (v : ℕ) → v < 2 ^ 32 → bit_and v 0xFF000000 ≡ v / 2 ^ 24 * 2 ^ 24
mask8 v h = omega (arith, bit_and-high 24 v 255, bit_and-mask 8 (v / 2 ^ 24))

pub mask12 : (v : ℕ) → v < 2 ^ 32 → bit_and v 0xFFF00000 ≡ v / 2 ^ 20 * 2 ^ 20
mask12 v h = omega (arith, bit_and-high 20 v 4095, bit_and-mask 12 (v / 2 ^ 20))

pub mask16 : (v : ℕ) → v < 2 ^ 32 → bit_and v 0xFFFF0000 ≡ v / 2 ^ 16 * 2 ^ 16
mask16 v h = omega (arith, bit_and-high 16 v 65535, bit_and-mask 16 (v / 2 ^ 16))

-- For octets below 256, the masks pick out exactly 10/8, 172.16/12, 192.168/16, 127/8 and
-- 169.254/16.
pub is_blocked_value_iff :
    (a b c d : ℕ)
    → a < 256
    → b < 256
    → c < 256
    → d < 256
    → (is_blocked_value (address a b c d) ≡ true) ↔ InBlockedRange a b
unfolding is_blocked_value
is_blocked_value_iff a b c d ha hb hc hd =
    let v = address a b c d in
    let hv : v < 2 ^ 32 = omega arith in
    let e8 : v / 2 ^ 24 ≡ a = omega arith in
    let e12 : v / 2 ^ 20 ≡ a * 16 + b / 16 = omega arith in
    let e16 : v / 2 ^ 16 ≡ a * 256 + b = omega arith in
    rw (mask8 v hv, mask12 v hv, mask16 v hv, e8, e12, e16) (λ h. ground arith, λ h. ground arith)
