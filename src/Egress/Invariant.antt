-- ===== src/Egress/Invariant.antt =====
-- The invariant of the stream tables of ton-egress-node/src/egress_node.cpp: every entry points to
-- an open object of that key, and per client the entries, the count and the limit are in order.
pub mod Tables
pub mod Handlers
pub mod Steps
pub mod Reach
pub mod Idle
pub mod Reopen
use ton_tunnel.Base.{
  ℕ, ◌≤◌, ◌≡◌, List, [], ◌∷◌, Bool, false, Option, none, some, Bytes, get_elem?, lookup, bytes_eq,
}
use ton_tunnel.Egress.State.{Node, Stream, key_for}
use ton_tunnel.Egress.Streams.Keys.{entries}

-- The count that `streams_per_client_[c]` shows.
unfoldable pub count_of : Bytes → List (Bytes × ℕ) → ℕ
count_of c per_client = elim (lookup c per_client) [ none ↦ 0 | some k ↦ k ]

-- The object at p is an open stream with key k.
pub record Live (objects : List Stream) (k : Bytes) (p : ℕ) : Type 0 where
  pub object : Stream
  pub found : get_elem? objects p ≡ some object
  pub keyed : key_for object.client_id object.stream_id ≡ k
  pub still_open : object.closed ≡ false

-- No key stands twice in a table.
abbrev pub Distinct : List (Bytes × ℕ) → Type 0
Distinct [] = Unit
Distinct ((k, p) ∷ table) = (lookup k table ≡ none) × Distinct table

pub record Inv (limit : ℕ) (objects : List Stream) (table per_client : List (Bytes × ℕ))
    : Type 0 where
  pub linked : (k : Bytes) (p : ℕ) → lookup k table ≡ some p → Live objects k p
  pub single : Distinct table
  pub counted : (c : Bytes) → entries c table ≤ count_of c per_client
  pub limited : (c : Bytes) → count_of c per_client ≤ limit

abbrev pub IsSound : Node → Type 0
IsSound n = Inv n.config.max_streams n.objects n.streams n.streams_per_client
