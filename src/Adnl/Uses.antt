-- ===== src/Adnl/Uses.antt =====
-- Every query's promise of ton-egress-node/src/ton_adnl_backend.cpp waits or is settled, once.
use ton_tunnel.Base.{
  ℕ, ◌+◌, ◌≡◌, refl, List, [], ◌∷◌, not, ◌||◌, none, some, Bytes, codes, length, ◌==◌, lookup,
  insert, erase, lookup-erase_self, bytes_eq, arith, Option-cases, Bool-cases, inl, inr,
}
use ton_tunnel.Adnl.Promises.{
  one_if, settled, waiting, IsTable, waiting-insert, waiting-erase, IsTable-erase, IsTable-insert,
}
use ton_tunnel.Adnl.{
  Event, answered, failed, Backend, extract_stream_key, settle, answer_pending, message_client,
  send_to_client, send_all, Handler, add_pending, fail_pending, handle_query, on_adnl_query,
  on_adnl_message,
}

-- A promise's state: the times that it waits and the times that it was settled.
abbrev pub uses : ℕ → Backend → ℕ
uses p b = waiting p b.pending + settled p b.events

-- A step that adds k uses of p, and keeps the table one.
pub record Uses (p k : ℕ) (b c : Backend) : Type 0 where
  pub counted : uses p c ≡ k + uses p b
  pub table : IsTable c.pending

module _ (p : ℕ) where
  Uses-settle :
      (event : Event) (key : Bytes) (q : ℕ) (b : Backend)
      → settled p (event ∷ b.events) ≡ one_if (q == p) + settled p b.events
      → IsTable b.pending
      → lookup key b.pending ≡ some q
      → Uses p 0 b (settle event key b)
  unfolding settle
  Uses-settle event key q b s t h = record {
    counted = omega (arith, s, waiting-erase p key q b.pending t h);
    table = IsTable-erase key b.pending t;
  }

  Uses-answer_pending :
      (key payload : Bytes) (b : Backend)
      → IsTable b.pending
      → Uses p 0 b (answer_pending key payload b)
  unfolding answer_pending settled
  Uses-answer_pending [] payload b t = record { counted = omega arith; table = t }
  Uses-answer_pending (k ∷ ks) payload b t = elim (Option-cases (lookup (k ∷ ks) b.pending)) [
    | inl e ↦ rw (e, answer_pending) (record { counted = omega arith; table = t })
    | inr (q, e) ↦ rw (e, answer_pending) (Uses-settle (answered q payload) (k ∷ ks) q b refl t e)
  ]

  Uses-message_client :
      (now : ℕ) (client payload : Bytes) (b c : Backend)
      → Uses p 0 b c
      → Uses p 0 b (message_client now client payload c).0
  unfolding message_client settled
  Uses-message_client now client payload b c u =
      elim (Option-cases (lookup client c.known_clients)) [
        | inl e ↦ rw (e, message_client) u
        | inr (d, e) ↦ rw (e, message_client) (record { counted = u.counted; table = u.table })
      ]

  Uses-send_to_client :
      (now : ℕ) (client payload : Bytes) (b : Backend)
      → IsTable b.pending
      → Uses p 0 b (send_to_client now client payload b).0
  unfolding send_to_client
  Uses-send_to_client now client [] b t = record { counted = omega arith; table = t }
  Uses-send_to_client now client (x ∷ xs) b t = elim (Bool-cases (not b.running || not b.ready)) [
    | inl off ↦ rw (off, send_to_client) (record { counted = omega arith; table = t })
    | inr on ↦
        rw (on, send_to_client)
          (Uses-message_client now client (x ∷ xs) b
            (answer_pending (extract_stream_key client (x ∷ xs)) (x ∷ xs) b)
            (Uses-answer_pending (extract_stream_key client (x ∷ xs)) (x ∷ xs) b t))
  ]

  Uses-then : (j k : ℕ) (b c d : Backend) → Uses p j b c → Uses p k c d → Uses p (j + k) b d
  Uses-then j k b c d u v = record {
    counted = omega (arith, u.counted, v.counted);
    table = v.table;
  }

  Uses-send_all :
      (now : ℕ) (packets : List (Bytes × Bytes)) (b : Backend)
      → IsTable b.pending
      → Uses p 0 b (send_all now packets b)
  unfolding send_all
  Uses-send_all now [] b t = record { counted = omega arith; table = t }
  Uses-send_all now ((client, payload) ∷ rest) b t =
      let u = Uses-send_to_client now client payload b t in
      Uses-then 0 0 b _ _ u (Uses-send_all now rest (send_to_client now client payload b).0 u.table)

  Uses-add_pending :
      (key : Bytes) (promise : ℕ) (b : Backend)
      → IsTable b.pending
      → Uses p (one_if (promise == p)) b (add_pending key promise b)
  unfolding add_pending settle settled
  Uses-add_pending key promise b t = elim (Option-cases (lookup key b.pending)) [
    | inl e ↦
        rw (e, add_pending)
          (record {
            counted = omega (arith, waiting-insert p key promise b.pending e);
            table = IsTable-insert key promise b.pending t;
          })
    | inr (q, e) ↦
        rw (e, add_pending)
          (record {
            counted = omega (
              arith,
              waiting-insert p key promise (erase key b.pending) (lookup-erase_self key b.pending),
              waiting-erase p key q b.pending t e,
            );
            table =
                IsTable-insert key promise (erase key b.pending) (IsTable-erase key b.pending t);
          })
  ]

  Uses-fail_pending :
      (key text : Bytes) (b : Backend) → IsTable b.pending → Uses p 0 b (fail_pending key text b)
  unfolding fail_pending settled
  Uses-fail_pending key text b t = elim (Option-cases (lookup key b.pending)) [
    | inl e ↦ rw (e, fail_pending) (record { counted = omega arith; table = t })
    | inr (q, e) ↦ rw (e, fail_pending) (Uses-settle (failed q text) key q b refl t e)
  ]

  Uses-handle_query :
      (now : ℕ) (handler : Handler) (key client payload : Bytes) (b : Backend)
      → IsTable b.pending
      → Uses p 0 b (handle_query now handler key client payload b)
  unfolding handle_query
  Uses-handle_query now none key client payload b t = Uses-fail_pending key _ b t
  Uses-handle_query now (some h) key client payload b t = Uses-send_all now (h client payload) b t

-- What comes to the backend: queries with their promises, messages, and packets of the node's own.
pub data Input : Type 0 where
  query : (now : ℕ) (source : ℕ) (client payload : Bytes) (promise : ℕ) → Input
  incoming : (now : ℕ) (source : ℕ) (client payload : Bytes) → Input
  outgoing : (now : ℕ) (client payload : Bytes) → Input

unfoldable pub accept : Handler → Input → Backend → Backend
accept h (query now source client payload promise) b =
    on_adnl_query now h source client payload promise b
accept h (incoming now source client payload) b = on_adnl_message now h source client payload b
accept h (outgoing now client payload) b = (send_to_client now client payload b).0

unfoldable pub accept_all : Handler → List Input → Backend → Backend
accept_all h [] b = b
accept_all h (i ∷ is) b = accept_all h is (accept h i b)

-- How often a promise came with a query.
unfoldable pub promised : ℕ → List Input → ℕ
promised p [] = 0
promised p (query now source client payload q ∷ is) = one_if (q == p) + promised p is
promised p (incoming now source client payload ∷ is) = promised p is
promised p (outgoing now client payload ∷ is) = promised p is

module _ (p : ℕ) where
  Uses-on_adnl_query :
      (now : ℕ) (h : Handler) (source : ℕ) (client payload : Bytes) (promise : ℕ) (b : Backend)
      → IsTable b.pending
      → Uses p (one_if (promise == p)) b (on_adnl_query now h source client payload promise b)
  unfolding on_adnl_query settled
  Uses-on_adnl_query now h source client payload promise b t =
      elim (extract_stream_key client payload)
        as (λ key. Uses p (one_if (promise == p)) b (elim key [
          | [] ↦ record b { events = failed promise (codes "invalid query frame") ∷ b.events }
          | k ∷ ks ↦ handle_query now h (k ∷ ks) client payload (
              add_pending (k ∷ ks) promise
                (record b { known_clients = insert client source b.known_clients }))
        ])) [
          | [] ↦ record { counted = omega arith; table = t }
          | k ∷ ks ↦
              let known = record b { known_clients = insert client source b.known_clients } in
              let u = Uses-add_pending p (k ∷ ks) promise known t in
              let v =
                Uses-handle_query p now h (k ∷ ks) client payload
                  (add_pending (k ∷ ks) promise known) u.table in
              record { counted = omega (arith, u.counted, v.counted); table = v.table }
        ]

  Uses-on_adnl_message :
      (now : ℕ) (h : Handler) (source : ℕ) (client payload : Bytes) (b : Backend)
      → IsTable b.pending
      → Uses p 0 b (on_adnl_message now h source client payload b)
  unfolding on_adnl_message
  Uses-on_adnl_message now none source client payload b t = record {
    counted = omega arith;
    table = t;
  }
  Uses-on_adnl_message now (some f) source client payload b t =
      let tr = b.traffic in
      let known = record b {
        known_clients = insert client source b.known_clients;
        traffic = record tr { rx_bytes = tr.rx_bytes + length payload };
      } in
      let u = Uses-send_all p now (f client payload) known t in
      record { counted = u.counted; table = u.table }

  -- Whatever queries, messages and packets come to a backend whose table has no key twice, each
  -- promise waits or was settled, together as often as it came with a query, beyond what was there
  -- before.
  pub accept_all-uses :
      (h : Handler) (is : List Input) (b : Backend)
      → IsTable b.pending
      → uses p (accept_all h is b) ≡ promised p is + uses p b
  unfolding accept_all accept promised
  accept_all-uses h [] b t = omega arith
  accept_all-uses h (query now source client payload q ∷ is) b t =
      let u = Uses-on_adnl_query now h source client payload q b t in
      omega (
        arith,
        u.counted,
        accept_all-uses h is (accept h (query now source client payload q) b) u.table,
      )
  accept_all-uses h (incoming now source client payload ∷ is) b t =
      let u = Uses-on_adnl_message now h source client payload b t in
      omega (
        arith,
        u.counted,
        accept_all-uses h is (accept h (incoming now source client payload) b) u.table,
      )
  accept_all-uses h (outgoing now client payload ∷ is) b t =
      let u = Uses-send_to_client p now client payload b t in
      omega
        (arith, u.counted, accept_all-uses h is (accept h (outgoing now client payload) b) u.table)
