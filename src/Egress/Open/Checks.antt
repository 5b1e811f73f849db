-- ===== src/Egress/Open/Checks.antt =====
-- The checks of `handleOpen` (ton-egress-node/src/egress_node.cpp) on an OPEN, said in terms of the
-- configuration, and the first of them that fails.
use ton_tunnel.Base.{
  ℕ, ◌≤◌, ◌<◌, ◌≡◌, refl, ◌⊎◌, ◌↔◌, inl, inr, List, [], ◌∷◌, Bool, true, false, not, ◌&&◌, ◌||◌,
  Option, none, some, Bytes, codes, length, ltb, leb, map, All, bytes_beq, bytes_beq_iff,
  Bool-cases, arith,
}
use ton_tunnel.Egress.State.{Node, Config, client_count}
use ton_tunnel.Egress.Policy.{
  is_empty, contains_client, contains_port, is_client_allowed, is_port_allowed, to_lower,
  is_host_blocked,
}
use ton_tunnel.Egress.Open.{
  Refusal, egress_disabled, invalid_host, port_not_allowed, host_blocked, unauthorized,
  max_streams_reached, refusal,
}

abbrev pub IsOneOf : {A : Type 0} → A → List A → Type 0
IsOneOf x [] = ⊥
IsOneOf x (y ∷ ys) = (y ≡ x) ⊎ IsOneOf x ys

-- The token is right, if one is set, and the client is listed, if there is a list.
abbrev pub MayUse : Config → Bytes → Bytes → Type 0
MayUse config client_id token =
    ((config.auth_token ≡ []) ⊎ (token ≡ config.auth_token))
    × ((config.allowed_clients ≡ []) ⊎ IsOneOf client_id config.allowed_clients)

abbrev pub NamesLocalhost : Bytes → Type 0
NamesLocalhost host =
    (map to_lower host ≡ codes "localhost") ⊎ (map to_lower host ≡ codes "localhost.localdomain")

contains_port_iff :
    (ports : List ℕ) (port : ℕ) → (contains_port ports port ≡ true) ↔ IsOneOf port ports
unfolding contains_port
contains_port_iff [] port = ((λ e. cc), λ h. absurd h)
contains_port_iff (p ∷ ports) port = ground (arith, contains_port_iff ports port)

contains_client_iff :
    (clients : List Bytes) (c : Bytes) → (contains_client clients c ≡ true) ↔ IsOneOf c clients
unfolding contains_client
contains_client_iff [] c = ((λ e. cc), λ h. absurd h)
contains_client_iff (p ∷ clients) c = elim (Bool-cases (bytes_beq p c)) [
  | inl same ↦ rw (same, contains_client) ((λ e. inl ((bytes_beq_iff p c).0 same)), λ h. refl)
  | inr other ↦
      rw (other, contains_client)
        (
          (λ e. inr ((contains_client_iff clients c).0 e)),
          λ h. elim h [
            | inl e ↦ let same = (bytes_beq_iff p c).1 e in cc
            | inr m ↦ (contains_client_iff clients c).1 m
          ],
        )
]

is_host_blocked_iff : (host : Bytes) → (is_host_blocked host ≡ true) ↔ NamesLocalhost host
unfolding is_host_blocked
is_host_blocked_iff host = ground (
  arith,
  bytes_beq_iff (map to_lower host) (codes "localhost"),
  bytes_beq_iff (map to_lower host) (codes "localhost.localdomain"),
)

is_empty_iff : {A : Type 0} (xs : List A) → (is_empty xs ≡ true) ↔ (xs ≡ [])
is_empty_iff [] = ((λ e. refl), λ e. refl)
is_empty_iff (x ∷ xs) = ((λ e. cc), λ e. cc)

is_client_allowed_iff :
    (config : Config) (c token : Bytes)
    → (is_client_allowed config c token ≡ true) ↔ MayUse config c token
unfolding is_client_allowed
is_client_allowed_iff config c token = ground (
  arith,
  is_empty_iff config.auth_token,
  is_empty_iff config.allowed_clients,
  bytes_beq_iff token config.auth_token,
  contains_client_iff config.allowed_clients c,
)

-- The checks in the order in which they are made.
abbrev pub all_checks : List Refusal
all_checks =
    egress_disabled ∷ invalid_host ∷ port_not_allowed ∷ host_blocked ∷ unauthorized
    ∷ max_streams_reached ∷ []

abbrev pub earlier : Refusal → List Refusal
earlier egress_disabled = []
earlier invalid_host = egress_disabled ∷ []
earlier port_not_allowed = egress_disabled ∷ invalid_host ∷ []
earlier host_blocked = egress_disabled ∷ invalid_host ∷ port_not_allowed ∷ []
earlier unauthorized = egress_disabled ∷ invalid_host ∷ port_not_allowed ∷ host_blocked ∷ []
earlier max_streams_reached =
    egress_disabled ∷ invalid_host ∷ port_not_allowed ∷ host_blocked ∷ unauthorized ∷ []

fails : {b : Bool} {P : Type 0} → (b ≡ false) ↔ P → b ≡ true → ¬ P
fails iff t p = let f = iff.1 p in cc

module _ (c : Bytes) (host : Bytes) (port : ℕ) (token : Bytes) (n : Node) where
  -- What the check behind a refusal demands.
  pub Passes : Refusal → Type 0
  Passes egress_disabled = n.config.egress.enabled ≡ true
  Passes invalid_host = (1 ≤ length host) × (length host ≤ 255)
  Passes port_not_allowed = IsOneOf port n.config.egress.allowed_ports
  Passes host_blocked = ¬ NamesLocalhost host
  Passes unauthorized = (n.config.auth_required ≡ false) ⊎ MayUse n.config c token
  Passes max_streams_reached = client_count c n < n.config.max_streams

  -- The checks before one pass, and it does not.
  pub FailsFirst : Refusal → Type 0
  unfolding Passes
  FailsFirst r = All Passes (earlier r) × (¬ Passes r)

  pub PassesAll : Type 0
  PassesAll = All Passes all_checks

  enabled_iff : (not n.config.egress.enabled ≡ false) ↔ Passes egress_disabled
  unfolding Passes
  enabled_iff = ground arith

  host_iff : ((is_empty host || ltb 255 (length host)) ≡ false) ↔ Passes invalid_host
  unfolding Passes
  host_iff = ground arith

  port_iff : (not (is_port_allowed n.config port) ≡ false) ↔ Passes port_not_allowed
  unfolding Passes is_port_allowed
  port_iff = ground (arith, contains_port_iff n.config.egress.allowed_ports port)

  blocked_iff : (is_host_blocked host ≡ false) ↔ Passes host_blocked
  unfolding Passes
  blocked_iff = ground (arith, is_host_blocked_iff host)

  authorized_iff :
      ((n.config.auth_required && not (is_client_allowed n.config c token)) ≡ false)
      ↔ Passes unauthorized
  unfolding Passes
  authorized_iff = ground (arith, is_client_allowed_iff n.config c token)

  limit_iff : (leb n.config.max_streams (client_count c n) ≡ false) ↔ Passes max_streams_reached
  unfolding Passes
  limit_iff = ground arith

  -- What the code's first refusal is, in terms of the checks.
  abbrev pub Finds : Option Refusal → Type 0
  Finds none = PassesAll
  Finds (some r) = FailsFirst r

  pub refusal-Finds : Finds (refusal n c host port token)
  unfolding refusal PassesAll FailsFirst
  refusal-Finds = elim (Bool-cases (not n.config.egress.enabled)) [
    | inl a ↦ rw (a, refusal) (tt, fails enabled_iff a)
    | inr a ↦ elim (Bool-cases (is_empty host || ltb 255 (length host))) [
      | inl b ↦ rw (a, b, refusal) ((enabled_iff.0 a, tt), fails host_iff b)
      | inr b ↦ elim (Bool-cases (not (is_port_allowed n.config port))) [
        | inl d ↦ rw (a, b, d, refusal) ((enabled_iff.0 a, (host_iff.0 b, tt)), fails port_iff d)
        | inr d ↦ elim (Bool-cases (is_host_blocked host)) [
          | inl e ↦
              rw (a, b, d, e, refusal)
                ((enabled_iff.0 a, (host_iff.0 b, (port_iff.0 d, tt))), fails blocked_iff e)
          | inr e ↦
              elim (Bool-cases
                (n.config.auth_required && not (is_client_allowed n.config c token))) [
                  | inl f ↦
                      rw (a, b, d, e, f, refusal)
                        (
                          (enabled_iff.0 a, (host_iff.0 b, (port_iff.0 d, (blocked_iff.0 e, tt)))),
                          fails authorized_iff f,
                        )
                  | inr f ↦ elim (Bool-cases (leb n.config.max_streams (client_count c n))) [
                    | inl g ↦
                        rw (a, b, d, e, f, g, refusal)
                          (
                            (
                              enabled_iff.0 a,
                              (
                                host_iff.0 b,
                                (port_iff.0 d, (blocked_iff.0 e, (authorized_iff.0 f, tt))),
                              ),
                            ),
                            fails limit_iff g,
                          )
                    | inr g ↦
                        rw (a, b, d, e, f, g, refusal)
                          (
                            enabled_iff.0 a,
                            (
                              host_iff.0 b,
                              (
                                port_iff.0 d,
                                (blocked_iff.0 e, (authorized_iff.0 f, (limit_iff.0 g, tt))),
                              ),
                            ),
                          )
                  ]
                ]
        ]
      ]
    ]
  ]
