-- ===== src/AdnlClient/Handles.antt =====
-- The C interface at the end of app/src/main/cpp/ton_adnl_client_backend.cpp: handles are pointers to
-- clients. A call through a pointer to no client is undefined behaviour, and changes nothing here.
use ton_tunnel.Base.{
  ℕ, ◌+◌, List, [], Bool, Option, none, some, Bytes, ℤ, pos, negsuc, is_nil, if◌then◌else◌, lookup,
  insert, erase, nat_eq,
}
use ton_tunnel.AdnlClient.{
  Client, new_client, start_client, stop_client, send_message, set_callback,
}

-- The clients that exist; `next` is the address of the next one.
pub record Clients : Type 0 where
  pub next : ℕ
  pub table : List (ℕ × Client)

abbrev pub no_clients : Clients
no_clients = record { next = 1; table = [] }

-- A null pointer is none; `allocates` is whether the constructor's allocations succeed.
unfoldable pub ton_adnl_client_create :
    Bool → Option Bytes → Option Bytes → Option Bytes → Clients → Clients × Option ℕ
ton_adnl_client_create allocates none egress advertise h = (h, none)
ton_adnl_client_create allocates (some key) none advertise h = (h, none)
ton_adnl_client_create allocates (some key) (some egress) advertise h =
    let adv : Bytes = elim advertise [ none ↦ [] | some a ↦ a ] in
    if allocates
    then (
      record { next = h.next + 1; table = insert h.next (new_client key egress adv) h.table },
      some h.next,
    )
    else (h, none)

unfoldable pub ton_adnl_client_start : Option ℕ → Clients → Clients × ℤ
ton_adnl_client_start none h = (h, negsuc 0)
ton_adnl_client_start (some p) h = elim (lookup p h.table) [
  | none ↦ (h, negsuc 1)
  | some c ↦
      let (c', started) = start_client c in
      (record h { table = insert p c' h.table }, if started then pos 0 else negsuc 1)
]

-- A method that changes the client behind a handle.
unfoldable pub on_client : Option ℕ → (Client → Client) → Clients → Clients
on_client none f h = h
on_client (some p) f h = elim (lookup p h.table) [
  | none ↦ h
  | some c ↦ record h { table = insert p (f c) h.table }
]

unfoldable pub ton_adnl_client_stop : Option ℕ → Clients → Clients
ton_adnl_client_stop p h = on_client p stop_client h

unfoldable pub ton_adnl_client_destroy : Option ℕ → Clients → Clients
ton_adnl_client_destroy none h = h
ton_adnl_client_destroy (some p) h =
    let stopped = on_client (some p) stop_client h in
    record stopped { table = erase p stopped.table }

-- Null data is none.
unfoldable pub ton_adnl_client_send : Option ℕ → Option Bytes → Clients → Clients × ℤ
ton_adnl_client_send none message h = (h, negsuc 0)
ton_adnl_client_send (some p) none h = (h, negsuc 0)
ton_adnl_client_send (some p) (some message) h =
    if is_nil message then (h, negsuc 0) else elim (lookup p h.table) [
      | none ↦ (h, negsuc 1)
      | some c ↦
          let (c', taken) = send_message message c in
          (record h { table = insert p c' h.table }, if taken then pos 0 else negsuc 1)
    ]

unfoldable pub ton_adnl_client_set_on_message : Option ℕ → Bool → Clients → Clients
ton_adnl_client_set_on_message p given h = on_client p (set_callback given) h
