-- ===== src/Desktop/Direct/Session.antt =====
-- The sessions of the desktop's ADNL backend (TON-Tunnel/TON-Tunnel.cpp).
use ton_tunnel.Base.{
  List, ℕ, ◌≡◌, refl, ap, [], ◌∷◌, true, false, Option, none, some, Bytes, nat_eq,
}
use ton_tunnel.AdnlClient.{Client, new_client, stop_client}
use ton_tunnel.AdnlClient.Handles.{
  Clients, ton_adnl_client_create, ton_adnl_client_stop, ton_adnl_client_destroy, on_client,
}
use ton_tunnel.AdnlClient.Owned.{
  Holds, on_client_only, table-destroy, destroy_only, started, created_table,
}
use ton_tunnel.Desktop.Direct.{
  Direct, direct_launch, direct_inbound_all, direct_start, direct_stop, stop_core, restart,
}

-- Stopping and destroying what the handle names leaves no client.
table-stop :
    (handle : Option ℕ) (k : Clients)
    → Holds handle k.table
    → (ton_adnl_client_destroy handle (ton_adnl_client_stop handle k)).table ≡ []
unfolding ton_adnl_client_stop on_client
table-stop none k h = table-destroy none k h
table-stop (some p) k (c, e, s) =
    destroy_only p (stop_client c) (on_client (some p) stop_client k)
      (ap (λ r. r.table) (on_client_only p c k e stop_client))

-- What a session starts from: one client that serves, the handle's, and nothing queued.
pub record IsFresh (key egress advertise : Bytes) (d : Direct) : Type 0 where
  pub address : ℕ
  pub named : d.handle ≡ some address
  pub client :
      d.clients.table
      ≡ (address, record (new_client key egress advertise) { has_callback = true; running = true })
        ∷ []
  pub is_started : d.started ≡ true
  pub nothing_queued : d.inbound_queue ≡ []

module _ (key egress advertise : Bytes) where
  abbrev serving : Client
  serving = record (new_client key egress advertise) { has_callback = true; running = true }

  IsFresh-launch :
      (p : ℕ) (d : Direct)
      → d.clients.table ≡ (p, new_client key egress advertise) ∷ []
      → d.inbound_queue ≡ []
      → IsFresh key egress advertise (direct_launch p d).0 × ((direct_launch p d).1 ≡ true)
  unfolding direct_launch
  IsFresh-launch p d e q =
      let ready = started p (new_client key egress advertise) d.clients e in
      rw (ready, direct_launch)
        (
          record {
            address = p;
            named = refl;
            client = ap (λ r. r.0.table) ready;
            is_started = refl;
            nothing_queued = q;
          },
          refl,
        )

  -- START on a backend whose clients are the one that its handle names, or none, leaves one client
  -- with the new configuration, started and with its callback, and nothing of an earlier session
  -- queued, whatever messages come while the earlier client is stopped; if the client cannot be
  -- allocated it leaves none.
  pub restart-IsFresh :
      (late : List Bytes) (d : Direct)
      → Holds d.handle d.clients.table
      → (IsFresh key egress advertise (restart true key egress advertise late d).0
          × ((restart true key egress advertise late d).1 ≡ true))
        × (((restart false key egress advertise late d).0.clients.table ≡ [])
            × ((restart false key egress advertise late d).0.handle ≡ none)
            × ((restart false key egress advertise late d).1 ≡ false))
  unfolding restart stop_core direct_start direct_stop direct_inbound_all ton_adnl_client_create
  restart-IsFresh late d h =
      let first = direct_stop late d in
      let gone = table-stop none first.clients (table-stop d.handle d.clients h) in
      let idle = direct_stop [] first in
      (
        IsFresh-launch idle.clients.next _
            (created_table idle.clients.next (new_client key egress advertise) idle.clients.table
              gone)
            refl,
        (gone, refl, refl),
      )
