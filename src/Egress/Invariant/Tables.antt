-- ===== src/Egress/Invariant/Tables.antt =====
-- The invariant under each write to the tables of ton-egress-node/src/egress_node.cpp.
use ton_tunnel.Base.{
  to_nat, ℕ, ◌+◌, ◌-◌, ◌≤◌, ◌≡◌, ◌≢◌, refl, sym, ◌∙◌, List, [], ◌∷◌, ◌++◌, false, some, Bytes,
  length, get_elem?, set, lookup, insert, erase, lookup-insert, lookup-erase, bytes_eq, bytes_beq,
  bytes_beq_iff, arith, get_elem?-set_ne, get_elem?-set_self, get_elem?-append, get_elem?-length,
  ℕ_discrete, Bool-cases, inl, inr,
}
use ton_tunnel.Egress.State.{Stream, key_for}
use ton_tunnel.Egress.Streams.Keys.{belongs-key_for, entries-insert, entries-erase_present}
use ton_tunnel.Egress.Invariant.{Inv, Live, Distinct, count_of}

Distinct-insert :
    (k : Bytes) (p : ℕ) (table : List (Bytes × ℕ)) → Distinct table → Distinct (insert k p table)
unfolding insert lookup
Distinct-insert k p [] h = (refl, tt)
Distinct-insert k p ((j, q) ∷ table) h = ground (
  arith,
  h,
  Distinct-insert k p table h.1,
  bytes_beq_iff j k,
  bytes_beq_iff k j,
  lookup-insert k j p table,
)

Distinct-erase : (k : Bytes) (table : List (Bytes × ℕ)) → Distinct table → Distinct (erase k table)
unfolding erase lookup
Distinct-erase k [] h = tt
Distinct-erase k ((j, q) ∷ table) h =
    ground (arith, h, Distinct-erase k table h.1, lookup-erase k j table)

module _ (limit : ℕ) (objects : List Stream) (table per_client : List (Bytes × ℕ)) where
  -- A write to an object that keeps its key and leaves it open.
  pub Inv-store :
      (p : ℕ) (s s' : Stream)
      → Inv limit objects table per_client
      → get_elem? objects p ≡ some s
      → s'.client_id ≡ s.client_id
      → s'.stream_id ≡ s.stream_id
      → s'.closed ≡ s.closed
      → Inv limit (set objects p s') table per_client
  Inv-store p s s' v o ec ei ed = record {
    single = v.single;
    linked = λ k q e. kept k q (v.linked k q e);
    counted = v.counted;
    limited = v.limited;
  }
    where
      kept : (k : Bytes) (q : ℕ) → Live objects k q → Live (set objects p s') k q
      kept k q l = elim (ℕ_discrete p q) [
        | yes same ↦ record {
          object = s';
          found = rw (sym same) (get_elem?-set_self objects p s' s o);
          keyed = ground (arith, o, l.found, l.keyed, same, ec, ei);
          still_open = ground (arith, o, l.found, l.still_open, same, ed);
        }
        | no apart ↦ record {
          object = l.object;
          found = get_elem?-set_ne objects p q s' apart ∙ l.found;
          keyed = l.keyed;
          still_open = l.still_open;
        }
      ]

  -- The entry of an object is erased and the object written to.
  pub Inv-close :
      (c : Bytes) (id p : ℕ) (s' : Stream) (per_client' : List (Bytes × ℕ))
      → Inv limit objects table per_client
      → lookup (key_for c id) table ≡ some p
      → ((d : Bytes) → count_of d per_client' ≡ count_of d per_client - to_nat (bytes_beq c d))
      → Inv limit (set objects p s') (erase (key_for c id) table) per_client'
  Inv-close c id p s' per_client' v e h = record {
    single = Distinct-erase (key_for c id) table v.single;
    linked = λ k q f. others k q f (v.linked k q (remains k q f));
    counted = λ d. ground (
      arith,
      v.counted d,
      h d,
      entries-erase_present d (key_for c id) p table e,
      belongs-key_for d c id,
    );
    limited = λ d. omega (arith, v.limited d, h d);
  }
    where
      remains :
          (k : Bytes) (q : ℕ)
          → lookup k (erase (key_for c id) table) ≡ some q
          → lookup k table ≡ some q
      remains k q f = ground (arith, lookup-erase (key_for c id) k table)

      others :
          (k : Bytes) (q : ℕ)
          → lookup k (erase (key_for c id) table) ≡ some q
          → Live objects k q
          → Live (set objects p s') k q
      others k q f l =
          let at_p = v.linked (key_for c id) p e in
          let apart : p ≢ q = λ same. ground (
            arith,
            same,
            lookup-erase (key_for c id) k table,
            bytes_beq_iff (key_for c id) k,
            at_p.found,
            at_p.keyed,
            l.found,
            l.keyed,
          ) in
          record {
            object = l.object;
            found = get_elem?-set_ne objects p q s' apart ∙ l.found;
            keyed = l.keyed;
            still_open = l.still_open;
          }

  -- A new object under a key, which may have had an entry before.
  pub Inv-register :
      (s : Stream) (per_client' : List (Bytes × ℕ))
      → Inv limit objects table per_client
      → s.closed ≡ false
      → ((d : Bytes)
          → count_of d per_client' ≡ count_of d per_client + to_nat (bytes_beq s.client_id d))
      → ((d : Bytes) → count_of d per_client' ≤ limit)
      → Inv limit
          (objects ++ s ∷ [])
          (insert (key_for s.client_id s.stream_id) (length objects) table)
          per_client'
  Inv-register s per_client' v o h le = record {
    single = Distinct-insert key (length objects) table v.single;
    linked = λ k q f. elim (Bool-cases (bytes_beq key k)) [
      | inl same ↦ record {
        object = s;
        found =
            ground (arith, lookup-insert key k (length objects) table, get_elem?-length objects s);
        keyed = (bytes_beq_iff key k).0 same;
        still_open = o;
      }
      | inr apart ↦
          older k q (v.linked k q (ground (arith, lookup-insert key k (length objects) table)))
    ];
    counted = λ d. ground (
      arith,
      v.counted d,
      h d,
      entries-insert d key (length objects) table,
      belongs-key_for d s.client_id s.stream_id,
    );
    limited = le;
  }
    where
      key : Bytes
      key = key_for s.client_id s.stream_id

      older : (k : Bytes) (q : ℕ) → Live objects k q → Live (objects ++ s ∷ []) k q
      older k q l = record {
        object = l.object;
        found = get_elem?-append objects (s ∷ []) q l.object l.found;
        keyed = l.keyed;
        still_open = l.still_open;
      }

  -- Another table of counts that shows the same counts.
  pub Inv-recount :
      (per_client' : List (Bytes × ℕ))
      → Inv limit objects table per_client
      → ((d : Bytes) → count_of d per_client' ≡ count_of d per_client)
      → Inv limit objects table per_client'
  Inv-recount per_client' v h = record {
    single = v.single;
    linked = v.linked;
    counted = λ d. omega (arith, v.counted d, h d);
    limited = λ d. omega (arith, v.limited d, h d);
  }
