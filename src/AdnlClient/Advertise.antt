-- ===== src/AdnlClient/Advertise.antt =====
-- Which host a client of app/src/main/cpp/ton_adnl_client_backend.cpp advertises.
use ton_tunnel.Base.{
  ℕ, ◌+◌, ◌*◌, ◌/◌, ◌^◌, ◌≤◌, ◌<◌, ◌≡◌, ◌≢◌, refl, subst, ◌↔◌, ◌⊎◌, true, some, Bytes, bit_and,
  bit_and-mask, bit_and-high, ◌==◌, Bool-cases, inl, inr, arith,
}
use ton_tunnel.Egress.Policy.Addresses.{address, mask8, mask12, mask16}
use ton_tunnel.AdnlClient.{
  is_private_ipv4, same_subnet24, announce, Advertisement, lan, not_advertised,
}

abbrev pub InPrivateRange : ℕ → ℕ → Type 0
InPrivateRange a b = (a ≡ 10) ⊎ ((a ≡ 172) × (16 ≤ b) × (b ≤ 31)) ⊎ ((a ≡ 192) × (b ≡ 168))

mask24 : (v : ℕ) → v < 2 ^ 32 → bit_and v 0xFFFFFF00 ≡ v / 2 ^ 8 * 2 ^ 8
mask24 v h = omega (arith, bit_and-high 8 v 16777215, bit_and-mask 24 (v / 2 ^ 8))

is_private_ipv4_iff :
    (a b c d : ℕ)
    → a < 256
    → b < 256
    → c < 256
    → d < 256
    → (is_private_ipv4 (address a b c d) ≡ true) ↔ InPrivateRange a b
unfolding is_private_ipv4
is_private_ipv4_iff a b c d ha hb hc hd =
    let v = address a b c d in
    let hv : v < 2 ^ 32 = omega arith in
    let e8 : v / 2 ^ 24 ≡ a = omega arith in
    let e12 : v / 2 ^ 20 ≡ a * 16 + b / 16 = omega arith in
    let e16 : v / 2 ^ 16 ≡ a * 256 + b = omega arith in
    rw (mask8 v hv, mask12 v hv, mask16 v hv, e8, e12, e16) (λ h. ground arith, λ h. ground arith)

same_subnet24_iff :
    (v w : ℕ) → v < 2 ^ 32 → w < 2 ^ 32 → (same_subnet24 v w ≡ true) ↔ (v / 256 ≡ w / 256)
unfolding same_subnet24
same_subnet24_iff v w hv hw = rw (mask24 v hv, mask24 w hw) (λ h. ground arith, λ h. ground arith)

-- Both ends in one private /24, at different addresses.
abbrev pub InOneLan : ℕ → ℕ → ℕ → ℕ → ℕ → ℕ → ℕ → ℕ → Type 0
InOneLan a b c d e f g h = InPrivateRange a b × (a ≡ e) × (b ≡ f) × (c ≡ g) × (d ≢ h)

abbrev pub in_lan : Bytes → Advertisement
in_lan ip = record { address = some ip; mode = lan }

module _ (v w : ℕ) (ip peer_ip : Bytes) where
  -- What the code's tests say of two addresses that are in one LAN.
  abbrev AreLan : Type 0
  AreLan =
      (is_private_ipv4 v ≡ true) × (is_private_ipv4 w ≡ true) × (same_subnet24 v w ≡ true) × (v ≢ w)

  announce_cases :
      (AreLan × (announce (some v) (some w) ip peer_ip ≡ in_lan ip))
      ⊎ ((¬ AreLan) × (announce (some v) (some w) ip peer_ip ≡ not_advertised))
  unfolding announce
  announce_cases = elim (Bool-cases (is_private_ipv4 v)) [
    | inr p ↦ inr (λ l. cc, rw (p, announce) refl)
    | inl p ↦ elim (Bool-cases (is_private_ipv4 w)) [
      | inr q ↦ inr (λ l. cc, rw (p, q, announce) refl)
      | inl q ↦ elim (Bool-cases (same_subnet24 v w)) [
        | inr s ↦ inr (λ l. cc, rw (p, q, s, announce) refl)
        | inl s ↦ elim (Bool-cases (v == w)) [
          | inl e ↦ inr (λ l. l.3 (ground arith), rw (p, q, s, e, announce) refl)
          | inr n ↦ inl ((p, q, s, λ e. ground arith), rw (p, q, s, n, announce) refl)
        ]
      ]
    ]
  ]

module _ (a b c d e f g h : ℕ) (ha : a < 256) (hb : b < 256) (hc : c < 256) (hd : d < 256)
    (he : e < 256) (hf : f < 256) (hg : g < 256) (hh : h < 256) (ip peer_ip : Bytes) where
  -- A client with two IPv4 ends advertises its address, for the LAN, if both ends lie in one
  -- private /24 at different addresses, and otherwise it advertises none.
  pub announce-lan :
      (InOneLan a b c d e f g h
        × (announce (some (address a b c d)) (some (address e f g h)) ip peer_ip ≡ in_lan ip))
      ⊎ ((¬ InOneLan a b c d e f g h)
          × (announce (some (address a b c d)) (some (address e f g h)) ip peer_ip
              ≡ not_advertised))
  announce-lan =
      let v = address a b c d in
      let w = address e f g h in
      let v_private = is_private_ipv4_iff a b c d ha hb hc hd in
      let w_private = is_private_ipv4_iff e f g h he hf hg hh in
      let one_subnet = same_subnet24_iff v w (omega arith) (omega arith) in
      elim (announce_cases v w ip peer_ip) [
        | inl ((p, q, s, n), e) ↦
            let same : v / 256 ≡ w / 256 = one_subnet.0 s in
            inl ((v_private.0 p, omega arith, omega arith, omega arith, λ last. n (omega arith)), e)
        | inr (no_lan, e) ↦ inr (
          λ (r, ea, eb, ec, n). no_lan (
            v_private.1 r,
            w_private.1 (subst (λ t. InPrivateRange t f) ea (subst (λ t. InPrivateRange a t) eb r)),
            one_subnet.1 (omega arith),
            λ q. n (omega arith),
          ),
          e,
        )
      ]
