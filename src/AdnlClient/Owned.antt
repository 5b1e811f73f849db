-- ===== src/AdnlClient/Owned.antt =====
-- What the users of the client library (app/src/main/cpp/ton_adnl_client_backend.cpp) share: a table
-- of clients with at most one in it, which serves.
use ton_tunnel.Base.{
  ℕ, ◌≡◌, ◌⊎◌, refl, ap, ◌∙◌, List, [], ◌∷◌, true, false, Option, none, some, Bytes, Option-cases,
  Bool-cases, inl, inr, is_nil, lookup, insert, erase, nat_eq, if◌then◌else◌, ==_iff, ◌==◌, pos,
  negsuc, arith,
}
use ton_tunnel.AdnlClient.{
  Client, Network, start_client, stop_client, send_message, set_callback, init_adnl_udp, attach,
}
use ton_tunnel.AdnlClient.Handles.{
  Clients, ton_adnl_client_start, ton_adnl_client_destroy, ton_adnl_client_send,
  ton_adnl_client_set_on_message, on_client,
}

-- A client that was started with its callback.
abbrev pub Serves : Client → Type 0
Serves c = (c.has_callback ≡ true) × (c.running ≡ true)

-- The clients that exist are those that a handle names: none, or one that serves.
abbrev pub Holds : Option ℕ → List (ℕ × Client) → Type 0
Holds none table = table ≡ []
Holds (some h) table = (c : Client) × (table ≡ (h, c) ∷ []) × Serves c

-- A table with one client, given by an equation.
module _ (p : ℕ) (c : Client) (table : List (ℕ × Client)) (e : table ≡ (p, c) ∷ []) where
  pub lookup_only : (q : ℕ) → (q == p) ≡ true → lookup q table ≡ some c
  unfolding lookup
  lookup_only q same = rw e (ground (arith, same))

  pub lookup_other : (q : ℕ) → (q == p) ≡ false → lookup q table ≡ none
  unfolding lookup
  lookup_other q other = rw e (ground (arith, other))

  pub insert_only : (q : ℕ) (d : Client) → (q == p) ≡ true → insert q d table ≡ (p, d) ∷ []
  unfolding insert
  insert_only q d same = rw e (ground (arith, same))

  pub erase_only : erase p table ≡ []
  unfolding erase
  erase_only = rw e (ground arith)

pub Holds-on_client :
    (f : Client → Client)
    → ((c : Client) → Serves c → Serves (f c))
    → (p context : Option ℕ) (k : Clients) → Holds context k.table
    → Holds context (on_client p f k).table
unfolding on_client
Holds-on_client f keeps none context k h = h
Holds-on_client f keeps (some q) none k h =
    let nobody : lookup q k.table ≡ none = unfold lookup in rw h refl in rw (nobody, on_client) h
Holds-on_client f keeps (some q) (some p) k (c, e, s) = elim (Bool-cases (q == p)) [
  | inl same ↦
      rw (lookup_only p c k.table e q same, on_client)
        (f c, insert_only p c k.table e q (f c) same, keeps c s)
  | inr other ↦ rw (lookup_other p c k.table e q other, on_client) (c, e, s)
]

pub destroy_only :
    (p : ℕ) (c : Client) (k : Clients)
    → k.table ≡ (p, c) ∷ []
    → (ton_adnl_client_destroy (some p) k).table ≡ []
unfolding ton_adnl_client_destroy on_client
destroy_only p c k e =
    let self = (==_iff p p).1 refl in
    rw (lookup_only p c k.table e p self, on_client)
      (erase_only p (stop_client c) (insert p (stop_client c) k.table)
        (insert_only p c k.table e p (stop_client c) self))

pub table-destroy :
    (context : Option ℕ) (k : Clients)
    → Holds context k.table
    → (ton_adnl_client_destroy context k).table ≡ []
unfolding ton_adnl_client_destroy
table-destroy none k h = h
table-destroy (some p) k (c, e, s) = destroy_only p c k e

pub Serves-send : (message : Bytes) (c : Client) → Serves c → Serves (send_message message c).0
unfolding send_message
Serves-send message c s = ground arith

pub Serves-init : (net : Network) (c : Client) → Serves c → Serves (init_adnl_udp net c)
unfolding init_adnl_udp attach
Serves-init net c s = ground arith

-- A send is a method of the client.
pub table-send :
    (p : Option ℕ) (message : Bytes) (k : Clients)
    → ((ton_adnl_client_send p (some message) k).0 ≡ k)
      ⊎ ((ton_adnl_client_send p (some message) k).0
          ≡ on_client p (λ c. (send_message message c).0) k)
unfolding ton_adnl_client_send on_client
table-send none message k = inl refl
table-send (some p) message k = elim (Bool-cases (is_nil message)) [
  | inl nothing ↦ inl (rw (nothing, ton_adnl_client_send) refl)
  | inr more ↦ elim (Option-cases (lookup p k.table)) [
    | inl nobody ↦ inl (rw (more, ton_adnl_client_send, nobody) refl)
    | inr (c, e) ↦ inr (ground (arith, more, e))
  ]
]

pub Holds-send :
    (context p : Option ℕ) (message : Bytes) (k : Clients)
    → Holds context k.table
    → Holds context (ton_adnl_client_send p (some message) k).0.table
Holds-send context p message k h = elim (table-send p message k) [
  | inl same ↦ rw same h
  | inr method ↦
      rw method
        (Holds-on_client (λ c. (send_message message c).0) (Serves-send message) p context k h)
]

-- Methods of the only client there is.
module _ (p : ℕ) (c : Client) (k : Clients) (e : k.table ≡ (p, c) ∷ []) where
  pub on_client_only :
      (f : Client → Client) → on_client (some p) f k ≡ record k { table = (p, f c) ∷ [] }
  unfolding on_client
  on_client_only f =
      let self = (==_iff p p).1 refl in
      rw (lookup_only p c k.table e p self, on_client)
        (ap (λ t. record k { table = t }) (insert_only p c k.table e p (f c) self))

  pub start_only :
      ton_adnl_client_start (some p) k
      ≡ (record k { table = (p, record c { running = true }) ∷ [] }, pos 0)
  unfolding ton_adnl_client_start start_client
  start_only =
      let self = (==_iff p p).1 refl in
      rw (lookup_only p c k.table e p self, ton_adnl_client_start)
        (ap (λ t. (record k { table = t }, pos 0))
          (insert_only p c k.table e p (record c { running = true }) self))

pub send_only :
    (p : ℕ) (c : Client) (k : Clients) (message : Bytes)
    → k.table ≡ (p, c) ∷ []
    → is_nil message ≡ false
    → ton_adnl_client_send (some p) (some message) k ≡ (
      record k { table = (p, (send_message message c).0) ∷ [] },
      if (send_message message c).1 then pos 0 else negsuc 1,
    )
unfolding ton_adnl_client_send
send_only p c k message e filled =
    let self = (==_iff p p).1 refl in
    let code = if (send_message message c).1 then pos 0 else negsuc 1 in
    rw (filled, ton_adnl_client_send, lookup_only p c k.table e p self)
      (ap (λ t. (record k { table = t }, code))
        (insert_only p c k.table e p (send_message message c).0 self))

pub started :
    (p : ℕ) (c : Client) (k : Clients)
    → k.table ≡ (p, c) ∷ []
    → ton_adnl_client_start (some p) (ton_adnl_client_set_on_message (some p) true k)
      ≡ (record k { table = (p, record c { has_callback = true; running = true }) ∷ [] }, pos 0)
unfolding ton_adnl_client_set_on_message set_callback
started p c k e =
    ap (ton_adnl_client_start (some p)) (on_client_only p c k e (set_callback true))
    ∙ start_only p (set_callback true c) (record k { table = (p, set_callback true c) ∷ [] }) refl

-- A new client in an empty table.
pub created_table :
    (p : ℕ) (c : Client) (table : List (ℕ × Client)) → table ≡ [] → insert p c table ≡ (p, c) ∷ []
unfolding insert
created_table p c table e = rw e refl
