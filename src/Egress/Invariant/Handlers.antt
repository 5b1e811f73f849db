-- ===== src/Egress/Invariant/Handlers.antt =====
-- The invariant under `closeStream`, `handleOpen`, `handleData` and `handleClose` of
-- ton-egress-node/src/egress_node.cpp.
use ton_tunnel.Base.{
  to_nat, ℕ, ◌+◌, ◌-◌, ◌<◌, ◌≡◌, refl, sym, ap, ◌∙◌, List, ◌++◌, true, false, none, some, Bytes,
  set, lookup, erase, lookup-insert, bytes_eq, bytes_beq, bytes_beq_iff, arith, inl, inr,
  if◌then◌else◌, Option-cases,
}
use ton_tunnel.Egress.State.{Node, Stream, Effect, sent, key_for, client_count, emit}
use ton_tunnel.Egress.Streams.{
  Reason, note_closed, drop_count, remove_entry, release_fd, finish_stream, close_stream,
  handle_close, client_close,
}
use ton_tunnel.Egress.Streams.Close.{
  close_stream-absent, close_stream-present, counted, remove_entry-fields, finish_stream-keeps,
}
use ton_tunnel.Egress.Connect.{Net, try_addresses, no_attempt}
use ton_tunnel.Egress.Open.{register_stream, touch_client, handle_open}
use ton_tunnel.Protocol.{encode_close}
use ton_tunnel.Egress.Open.Guards.{handle_open-guarded, touch_client-client_count}
use ton_tunnel.Egress.Invariant.{Inv, IsSound, count_of}
use ton_tunnel.Egress.Invariant.Tables.{Inv-close, Inv-register, Inv-recount}

-- The parts of a node that the invariant reads.
pub IsSound-fields :
    (m : Node) (limit : ℕ) (objects : List Stream) (table per_client : List (Bytes × ℕ))
    → Inv limit objects table per_client
    → m.config.max_streams ≡ limit
    → m.objects ≡ objects
    → m.streams ≡ table
    → m.streams_per_client ≡ per_client
    → IsSound m
IsSound-fields m limit objects table per_client v el eo et ep = rw (el, eo, et, ep) v

drop_count-count_of :
    (c d : Bytes) (n : Node)
    → count_of d (drop_count c n).streams_per_client
      ≡ count_of d n.streams_per_client - to_nat (bytes_beq c d)
unfolding drop_count count_of
drop_count-count_of c d n = elim (Option-cases (lookup c n.streams_per_client)) [
  | inl e ↦ ground (arith, e, bytes_beq_iff c d)
  | inr (k, e) ↦
      ground (arith, e, lookup-insert c d (k - 1) n.streams_per_client, bytes_beq_iff c d)
]

remove_entry-count_of :
    (now : ℕ) (c : Bytes) (id : ℕ) (d : Bytes) (n : Node)
    → count_of d (remove_entry now c id n).streams_per_client
      ≡ count_of d n.streams_per_client - to_nat (bytes_beq c d)
unfolding remove_entry note_closed
remove_entry-count_of now c id d n =
    drop_count-count_of c d
      (note_closed (key_for c id) now (record n { streams = erase (key_for c id) n.streams }))

abbrev finished : Stream → Stream
finished s = record s { closed = true; fd = none; joinable = false }

finish_stream-objects :
    (c : Bytes) (id p : ℕ) (s : Stream) (n : Node)
    → s.closed ≡ false
    → (finish_stream c id p s n).objects ≡ set n.objects p (finished s)
unfolding finish_stream release_fd
finish_stream-objects c id p s n h = ground arith

pub IsSound-close_stream :
    (now : ℕ) (c : Bytes) (id : ℕ) (reason : Reason) (n : Node)
    → IsSound n
    → IsSound (close_stream now c id reason n).0
unfolding note_closed
IsSound-close_stream now c id reason n v = elim (Option-cases (lookup (key_for c id) n.streams)) [
  | inl e ↦ rw (close_stream-absent now c id reason n e) v
  | inr (p, e) ↦
      let at_p = v.linked (key_for c id) p e in
      let s = at_p.object in
      let m = counted now c id reason n in
      let r = remove_entry now c id m in
      let (rs, ro, rr, rl, rc) = remove_entry-fields now c id m in
      let (fs, fr, fp, fc) = finish_stream-keeps c id p s r in
      rw (close_stream-present now c id reason n p s e at_p.found) (
        IsSound-fields (finish_stream c id p s r) n.config.max_streams
          (set n.objects p (finished s)) (erase (key_for c id) n.streams) r.streams_per_client
          (Inv-close n.config.max_streams n.objects n.streams n.streams_per_client c id p
            (finished s) r.streams_per_client v e (λ d. remove_entry-count_of now c id d m))
          (ap (λ x. x.max_streams) (fc ∙ rc))
          (finish_stream-objects c id p s r at_p.still_open ∙ ap (λ x. set x p (finished s)) ro)
          (fs ∙ rs) fp)
]

pub close_stream-count_of :
    (now : ℕ) (c : Bytes) (id : ℕ) (reason : Reason) (n : Node) (d : Bytes) (p : ℕ)
    → IsSound n
    → lookup (key_for c id) n.streams ≡ some p
    → count_of d (close_stream now c id reason n).0.streams_per_client
      ≡ count_of d n.streams_per_client - to_nat (bytes_beq c d)
close_stream-count_of now c id reason n d p v e =
    let at_p = v.linked (key_for c id) p e in
    let m = counted now c id reason n in
    let (_, _, fp, _) = finish_stream-keeps c id p at_p.object (remove_entry now c id m) in
    rw (close_stream-present now c id reason n p at_p.object e at_p.found, fp)
      (remove_entry-count_of now c id d m)

pub IsSound-handle_close :
    (now : ℕ) (c : Bytes) (id : ℕ) (n : Node) → IsSound n → IsSound (handle_close now c id n)
unfolding handle_close
IsSound-handle_close now c id n v =
    let closed = close_stream now c id client_close n in
    let w = IsSound-close_stream now c id client_close n v in
    elim closed.1
      as (λ had. IsSound (
        if had
        then closed.0
        else emit (sent c (encode_close (record { stream_id = id }))) closed.0)) [
          | true ↦ w
          | false ↦ w
        ]

touch_client-count_of :
    (c d : Bytes) (n : Node)
    → count_of d (touch_client c n).streams_per_client ≡ count_of d n.streams_per_client
unfolding touch_client count_of client_count
touch_client-count_of c d n =
    ground (arith, lookup-insert c d (client_count c n) n.streams_per_client, bytes_beq_iff c d)

pub register_stream-count_of :
    (now : ℕ) (c : Bytes) (id fd : ℕ) (d : Bytes) (n : Node)
    → count_of d (register_stream now c id fd n).streams_per_client
      ≡ count_of d n.streams_per_client + to_nat (bytes_beq c d)
unfolding register_stream count_of client_count
register_stream-count_of now c id fd d n =
    ground (arith, lookup-insert c d (client_count c n + 1) n.streams_per_client, bytes_beq_iff c d)

IsSound-touch_client : (c : Bytes) (n : Node) → IsSound n → IsSound (touch_client c n)
unfolding touch_client
IsSound-touch_client c n v =
    Inv-recount n.config.max_streams n.objects n.streams n.streams_per_client
      (touch_client c n).streams_per_client v (λ d. touch_client-count_of c d n)

count_of-client_count : (d : Bytes) (n : Node) → count_of d n.streams_per_client ≡ client_count d n
unfolding count_of client_count
count_of-client_count d n = refl

pub IsSound-register_stream :
    (now : ℕ) (c : Bytes) (id fd : ℕ) (n : Node)
    → IsSound n
    → client_count c n < n.config.max_streams
    → IsSound (register_stream now c id fd n)
unfolding register_stream
IsSound-register_stream now c id fd n v h =
    Inv-register n.config.max_streams n.objects n.streams n.streams_per_client
      (record {
        client_id = c;
        stream_id = id;
        fd = some fd;
        closed = false;
        last_activity_ms = now;
        joinable = true;
      })
      (register_stream now c id fd n).streams_per_client v refl
      (λ d. register_stream-count_of now c id fd d n)
      (λ d. ground (
        arith,
        register_stream-count_of now c id fd d n,
        v.limited d,
        count_of-client_count c n,
        bytes_beq_iff c d,
      ))

touched-below :
    (c : Bytes) (n : Node) (log : List Effect)
    → client_count c n < n.config.max_streams
    → client_count c (record (touch_client c n) { log = log })
      < (touch_client c n).config.max_streams
unfolding touch_client client_count
touched-below c n log h = ground (arith, h, touch_client-client_count c c n)

pub IsSound-handle_open :
    (net : Net) (now : ℕ) (c : Bytes) (id : ℕ) (host : Bytes) (port : ℕ) (token : Bytes) (n : Node)
    → IsSound n
    → IsSound (handle_open net now c id host port token n)
IsSound-handle_open net now c id host port token n v =
    elim (handle_open-guarded net now c id host port token n) [
      | inl u ↦
          let m = handle_open net now c id host port token n in
          IsSound-fields m n.config.max_streams n.objects n.streams m.streams_per_client
            (Inv-recount n.config.max_streams n.objects n.streams n.streams_per_client
              m.streams_per_client v
              (λ d. count_of-client_count d m ∙ u.counts_same d ∙ sym (count_of-client_count d n)))
            (ap (λ x. x.max_streams) u.config_same) u.objects_same u.streams_same refl
      | inr o ↦ rw o.registered (
          IsSound-register_stream now c id o.fd
            (record (touch_client c n) {
              log =
                  (try_addresses net n.config.egress.block_private_ips port o.ips
                    no_attempt).effects
                  ++ n.log;
            })
            (IsSound-touch_client c n v)
            (touched-below c n
              ((try_addresses net n.config.egress.block_private_ips port o.ips no_attempt).effects
                ++ n.log)
              o.admitted.below_limit))
    ]
