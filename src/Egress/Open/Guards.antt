-- ===== src/Egress/Open/Guards.antt =====
-- Which OPENs `handleOpen` (ton-egress-node/src/egress_node.cpp) lets through, and what the others leave.
use ton_tunnel.Base.{
  ℕ, ◌≤◌, ◌<◌, ◌≡◌, ◌≢◌, refl, ◌⊎◌, inl, inr, List, [], ◌∷◌, ◌++◌, true, false, ◌&&◌, Option, none,
  some, Bytes, length, ltb→lt, lookup-insert, bytes_eq, bytes_beq_iff, arith, Option-cases,
}
use ton_tunnel.Egress.State.{Node, client_count, send_error}
use ton_tunnel.Egress.Policy.{
  is_client_allowed, is_port_allowed, is_host_blocked, is_address_blocked,
}
use ton_tunnel.Egress.Connect.{Net, try_addresses, no_attempt, try_addresses-unblocked}
use ton_tunnel.Egress.Open.{
  Refusal, egress_disabled, invalid_host, port_not_allowed, host_blocked, unauthorized,
  max_streams_reached, refuse, refusal, register_stream, connect_and_register, touch_client,
  resolve_and_connect, handle_open,
}

-- What lets an OPEN through to the name's resolution.
pub record Admitted (n : Node) (client_id host : Bytes) (port : ℕ) (token : Bytes) : Type 0 where
  pub enabled : n.config.egress.enabled ≡ true
  pub host_shown : host ≢ []
  pub host_short : length host ≤ 255
  pub port_allowed : is_port_allowed n.config port ≡ true
  pub host_open : is_host_blocked host ≡ false
  pub authorized :
      (n.config.auth_required ≡ false) ⊎ (is_client_allowed n.config client_id token ≡ true)
  pub below_limit : client_count client_id n < n.config.max_streams

pub refusal-none :
    (n : Node) (client_id host : Bytes) (port : ℕ) (token : Bytes)
    → refusal n client_id host port token ≡ none
    → Admitted n client_id host port token
unfolding refusal
refusal-none n client_id host port token h = record {
  enabled = ground (arith, h);
  host_shown = λ e. ground (arith, h, e);
  host_short = ground (arith, h, ltb→lt 255 (length host));
  port_allowed = ground (arith, h);
  host_open = ground (arith, h);
  authorized = ground (arith, h);
  below_limit = ground (arith, h);
}

pub refusal-Admitted :
    (n : Node) (client_id host : Bytes) (port : ℕ) (token : Bytes)
    → Admitted n client_id host port token
    → refusal n client_id host port token ≡ none
unfolding refusal
refusal-Admitted n client_id [] port token a = absurd (a.host_shown refl)
refusal-Admitted n client_id (b ∷ host) port token a =
    ground
      (arith, a.enabled, a.host_short, a.port_allowed, a.host_open, a.authorized, a.below_limit)

-- What a new entry in the table rests on.
pub record Opened (net : Net) (now : ℕ) (c : Bytes) (id : ℕ) (host : Bytes) (port : ℕ)
    (token : Bytes) (n m : Node) : Type 0 where
  pub admitted : Admitted n c host port token
  pub ips : List (Option Bytes)
  pub resolved : net.getaddrinfo host ≡ some ips
  pub fd : ℕ
  pub ip : Bytes
  pub tried : (try_addresses net n.config.egress.block_private_ips port ips no_attempt).fd ≡ some fd
  pub target :
      (try_addresses net n.config.egress.block_private_ips port ips no_attempt).connected_ip ≡ ip
  pub unblocked : (n.config.egress.block_private_ips && is_address_blocked net.inet_pton ip) ≡ false
  pub registered :
      m
      ≡ register_stream now c id fd (record (touch_client c n) {
        log =
            (try_addresses net n.config.egress.block_private_ips port ips no_attempt).effects
            ++ n.log;
      })

-- Nothing that counts as a stream has changed.
pub record Unchanged (n m : Node) : Type 0 where
  pub objects_same : m.objects ≡ n.objects
  pub streams_same : m.streams ≡ n.streams
  pub counts_same : (d : Bytes) → client_count d m ≡ client_count d n
  pub config_same : m.config ≡ n.config

unchanged :
    (n m : Node)
    → m.objects ≡ n.objects
    → m.streams ≡ n.streams
    → ((d : Bytes) → client_count d m ≡ client_count d n)
    → m.config ≡ n.config
    → Unchanged n m
unchanged n m o s k f = record {
  objects_same = o;
  streams_same = s;
  counts_same = k;
  config_same = f;
}

pub touch_client-client_count :
    (c d : Bytes) (n : Node) → client_count d (touch_client c n) ≡ client_count d n
unfolding touch_client client_count
touch_client-client_count c d n =
    ground (arith, lookup-insert c d (client_count c n) n.streams_per_client, bytes_beq_iff c d)

pub refuse-Unchanged : (c : Bytes) (id : ℕ) (r : Refusal) (n : Node) → Unchanged n (refuse c id r n)
unfolding refuse send_error client_count touch_client
refuse-Unchanged c id egress_disabled n = unchanged n _ refl refl (λ d. refl) refl
refuse-Unchanged c id invalid_host n = unchanged n _ refl refl (λ d. refl) refl
refuse-Unchanged c id port_not_allowed n = unchanged n _ refl refl (λ d. refl) refl
refuse-Unchanged c id host_blocked n = unchanged n _ refl refl (λ d. refl) refl
refuse-Unchanged c id unauthorized n = unchanged n _ refl refl (λ d. refl) refl
refuse-Unchanged c id max_streams_reached n =
    unchanged n _ refl refl (λ d. touch_client-client_count c d n) refl

module _ (net : Net) (now : ℕ) (c : Bytes) (id : ℕ) (host : Bytes) (port : ℕ) (token : Bytes)
    (n : Node) where
  abbrev after : Node
  after = handle_open net now c id host port token n

  handle_open-unresolved :
      refusal n c host port token ≡ none → net.getaddrinfo host ≡ none → Unchanged n after
  unfolding handle_open resolve_and_connect send_error touch_client client_count
  handle_open-unresolved e g = record {
    objects_same = ground (arith, e, g);
    streams_same = ground (arith, e, g);
    counts_same = λ d. ground (arith, e, g, touch_client-client_count c d n);
    config_same = ground (arith, e, g);
  }

  handle_open-failed :
      (ips : List (Option Bytes))
      → refusal n c host port token ≡ none
      → net.getaddrinfo host ≡ some ips
      → (try_addresses net n.config.egress.block_private_ips port ips no_attempt).fd ≡ none
      → Unchanged n after
  unfolding handle_open resolve_and_connect connect_and_register send_error touch_client
      client_count
  handle_open-failed ips e g t = record {
    objects_same = ground (arith, e, g, t);
    streams_same = ground (arith, e, g, t);
    counts_same = λ d. ground (arith, e, g, t, touch_client-client_count c d n);
    config_same = ground (arith, e, g, t);
  }

  pub handle_open-registered :
      (ips : List (Option Bytes)) (fd : ℕ)
      → refusal n c host port token ≡ none
      → net.getaddrinfo host ≡ some ips
      → (try_addresses net n.config.egress.block_private_ips port ips no_attempt).fd ≡ some fd
      → after
        ≡ register_stream now c id fd (record (touch_client c n) {
          log =
              (try_addresses net n.config.egress.block_private_ips port ips no_attempt).effects
              ++ n.log;
        })
  unfolding handle_open resolve_and_connect connect_and_register touch_client
  handle_open-registered ips fd e g t = ground (arith, e, g, t)

  handle_open-connected :
      (ips : List (Option Bytes)) (fd : ℕ)
      → refusal n c host port token ≡ none
      → net.getaddrinfo host ≡ some ips
      → (try_addresses net n.config.egress.block_private_ips port ips no_attempt).fd ≡ some fd
      → Opened net now c id host port token n after
  handle_open-connected ips fd e g t = record {
    admitted = refusal-none n c host port token e;
    ips = ips;
    resolved = g;
    fd = fd;
    ip = (try_addresses net n.config.egress.block_private_ips port ips no_attempt).connected_ip;
    tried = t;
    target = refl;
    unblocked =
        try_addresses-unblocked net n.config.egress.block_private_ips port ips no_attempt fd refl t;
    registered = handle_open-registered ips fd e g t;
  }

  -- An OPEN either leaves the objects, the table, the counts and the configuration as they are, or
  -- all its guards hold, the name resolved, the connected address passes the address policy, and
  -- one stream is registered.
  pub handle_open-guarded : Unchanged n after ⊎ Opened net now c id host port token n after
  unfolding handle_open send_error client_count
  handle_open-guarded = elim (Option-cases (refusal n c host port token)) [
    | inr (r, e) ↦ rw (e, handle_open) (inl (refuse-Unchanged c id r n))
    | inl e ↦ elim (Option-cases (net.getaddrinfo host)) [
      | inl g ↦ inl (handle_open-unresolved e g)
      | inr (ips, g) ↦
          elim (Option-cases
            (try_addresses net n.config.egress.block_private_ips port ips no_attempt).fd) [
              | inl t ↦ inl (handle_open-failed ips e g t)
              | inr (fd, t) ↦ inr (handle_open-connected ips fd e g t)
            ]
    ]
  ]
