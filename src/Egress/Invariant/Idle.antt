-- ===== src/Egress/Invariant/Idle.antt =====
-- What a round of `monitorIdleTimeoutLoop` (ton-egress-node/src/egress_node.cpp) leaves in the tables.
use ton_tunnel.Base.{
  subst, ℕ, ◌-◌, ◌*◌, ◌≡◌, refl, List, [], ◌∷◌, Bool, false, ◌||◌, none, some, Bytes, ltb,
  get_elem?, lookup, bytes_eq, bytes_beq, bytes_beq_iff, arith, Bool-cases, inl, inr, if◌then◌else◌,
}
use ton_tunnel.Egress.State.{Node, Stream, key_for}
use ton_tunnel.Egress.Streams.{close_stream, idle_timeout}
use ton_tunnel.Egress.Streams.Close.{close_stream-table}
use ton_tunnel.Egress.Run.{stale_streams, keep_recent, close_all, idle_round}
use ton_tunnel.Egress.Invariant.{Live, IsSound, Distinct}

-- Whether a key is one of those to close.
unfoldable has_key : Bytes → List (Bytes × ℕ) → Bool
has_key k [] = false
has_key k ((c, id) ∷ stale) = bytes_beq (key_for c id) k || has_key k stale

-- Whether the object at p has been idle for longer than the limit.
unfoldable pub is_idle : ℕ → ℕ → List Stream → ℕ → Bool
is_idle now limit_ms objects p = elim (get_elem? objects p) [
  | none ↦ false
  | some s ↦ ltb limit_ms (now - s.last_activity_ms)
]

close_all-table :
    (now : ℕ) (stale : List (Bytes × ℕ)) (n : Node) (k : Bytes)
    → lookup k (close_all now stale n).streams
      ≡ (if has_key k stale then none else lookup k n.streams)
unfolding close_all has_key
close_all-table now [] n k = refl
close_all-table now ((c, id) ∷ stale) n k = ground (
  arith,
  close_all-table now stale (close_stream now c id idle_timeout n).0 k,
  close_stream-table now c id idle_timeout n k,
)

stale_streams-has_key :
    (now limit_ms : ℕ) (objects : List Stream) (table : List (Bytes × ℕ)) (k : Bytes)
    → Distinct table
    → ((j : Bytes) (p : ℕ) → lookup j table ≡ some p → Live objects j p)
    → has_key k (stale_streams now limit_ms objects table)
      ≡ elim (lookup k table) [ none ↦ false | some p ↦ is_idle now limit_ms objects p ]
unfolding has_key stale_streams is_idle lookup
stale_streams-has_key now limit_ms objects [] k d live = refl
stale_streams-has_key now limit_ms objects ((j, p) ∷ table) k d live =
    let at_p = live j p (ground (arith, bytes_beq_iff j j)) in
    let rest =
      stale_streams-has_key now limit_ms objects table k d.1
        (λ i q e. live i q (ground (arith, d.0, e, bytes_beq_iff j i))) in
    elim (Bool-cases (bytes_beq j k)) [
      | inl same ↦
          let eq : j ≡ k = (bytes_beq_iff j k).0 same in
          let gone : lookup k table ≡ none = subst (λ i. lookup i table ≡ none) eq d.0 in
          ground (arith, same, gone, rest, at_p.found, at_p.keyed)
      | inr apart ↦ ground (arith, apart, rest, at_p.found, at_p.keyed)
    ]

-- After an idle round of a sound node the table has the entries it had before whose streams are
-- not idle for too long, and no others.
pub idle_round-table :
    (now : ℕ) (n : Node) (k : Bytes)
    → IsSound n
    → lookup k (idle_round now n).streams ≡ elim (lookup k n.streams) [
      | none ↦ none
      | some p ↦ if is_idle now (n.config.idle_timeout_sec * 1000) n.objects p then none else some p
    ]
unfolding idle_round
idle_round-table now n k v = ground (
  arith,
  close_all-table now (stale_streams now (n.config.idle_timeout_sec * 1000) n.objects n.streams)
      (record n { recently_closed = keep_recent now n.recently_closed }) k,
  stale_streams-has_key now (n.config.idle_timeout_sec * 1000) n.objects n.streams k v.single
      v.linked,
)
