-- ===== src/Egress/Relay/Chunks.antt =====
-- The chunks that a reader's round of ton-egress-node/src/egress_node.cpp sends.
use ton_tunnel.Base.{
  ◌⊎◌, ℕ, suc, zero, ◌+◌, ◌≤◌, ◌<◌, ◌≡◌, refl, ap, ◌∙◌, List, [], ◌∷◌, ◌++◌, Bool, true, false,
  some, Bytes, length, ltb, ltb→lt, subst, join, chunk_at, chunk_at-rest, chunk_at-sizes, drop,
  drop_all, append_assoc, All, arith, Bool-cases, inl, inr,
}
use ton_tunnel.Protocol.{encode_data}
use ton_tunnel.Egress.State.{Node, Stream, Effect, sent, store}
use ton_tunnel.Egress.Relay.{push_chunk, push_chunks, reader_round}

-- The log after each chunk went to the client as a DATA frame of the stream.
unfoldable pub sent_all : Bytes → ℕ → List Bytes → List Effect → List Effect
sent_all client id [] log = log
sent_all client id (c ∷ cs) log =
    sent_all client id cs (sent client (encode_data (record { stream_id = id; payload = c })) ∷ log)

-- The bytes before `rest` went out in order, in chunks of the allowed sizes; all of them if `ok`.
pub record Relayed (client : Bytes) (id : ℕ) (bytes : Bytes) (log log' : List Effect) (ok : Bool)
    : Type 0 where
  pub chunks : List Bytes
  pub rest : Bytes
  pub split : join chunks ++ rest ≡ bytes
  pub sizes : All (λ c. (1 ≤ length c) × (length c ≤ 1200)) chunks
  pub logged : log' ≡ sent_all client id chunks log
  pub complete : (ok ≡ false) ⊎ (rest ≡ [])

nothing_left : (s : Stream) (log : List Effect) → Relayed s.client_id s.stream_id [] log log true
unfolding join sent_all
nothing_left s log = record {
  chunks = [];
  rest = [];
  split = refl;
  sizes = tt;
  logged = refl;
  complete = inr refl;
}

-- A chunk in front of what a further loop relays.
one_more :
    (s : Stream) (buf : Bytes) (offset : ℕ) (log log' : List Effect) (ok : Bool)
    → offset < length buf
    → Relayed s.client_id s.stream_id
        (drop (offset + 1200) buf)
        (sent s.client_id
            (encode_data (record { stream_id = s.stream_id; payload = chunk_at 1200 buf offset }))
          ∷ log)
        log'
        ok
    → Relayed s.client_id s.stream_id (drop offset buf) log log' ok
unfolding join sent_all
one_more s buf offset log log' ok h r = record {
  chunks = chunk_at 1200 buf offset ∷ r.chunks;
  rest = r.rest;
  split =
      append_assoc (chunk_at 1200 buf offset) (join r.chunks) r.rest
      ∙ ap (λ t. chunk_at 1200 buf offset ++ t) r.split
      ∙ chunk_at-rest 1200 buf offset h;
  sizes = (chunk_at-sizes 1200 buf offset (omega arith) h, r.sizes);
  logged = r.logged;
  complete = r.complete;
}

after_push :
    (s : Stream) (buf : Bytes) (offset : ℕ) (n : Node) (log' : List Effect) (ok : Bool)
    → offset < length buf
    → Relayed s.client_id s.stream_id
        (drop (offset + 1200) buf)
        (push_chunk buf offset s n).log
        log'
        ok
    → Relayed s.client_id s.stream_id (drop offset buf) n.log log' ok
unfolding push_chunk chunk_at
after_push s buf offset n log' ok h r = one_more s buf offset n.log log' ok h r

stopped :
    (s : Stream) (bytes : Bytes) (log : List Effect)
    → Relayed s.client_id s.stream_id bytes log log false
unfolding join sent_all
stopped s bytes log = record {
  chunks = [];
  rest = bytes;
  split = refl;
  sizes = tt;
  logged = refl;
  complete = inl refl;
}

-- Whatever the transport answers, with a round for each byte that is left the loop sends a prefix
-- of the buffer in order, in chunks of 1 to 1200 bytes, and the whole of it if it reports success.
pub push_chunks-Relayed :
    (accepts : ℕ → Bool) (rounds : ℕ) (buf : Bytes) (offset : ℕ) (s : Stream) (n : Node)
    → length buf < rounds + offset
    → Relayed s.client_id s.stream_id
        (drop offset buf)
        n.log
        (push_chunks accepts rounds buf offset s n).0.log
        (push_chunks accepts rounds buf offset s n).1
unfolding push_chunks
push_chunks-Relayed accepts zero buf offset s n h =
    rw (drop_all offset buf (omega arith)) (nothing_left s n.log)
push_chunks-Relayed accepts (suc rounds) buf offset s n h =
    elim (Bool-cases (ltb offset (length buf))) [
      | inr over ↦
          let past : length buf ≤ offset = ground (arith, over) in
          rw (over, push_chunks, drop_all offset buf past) (nothing_left s n.log)
      | inl more ↦ elim (Bool-cases (accepts offset)) [
        | inl taken ↦
            rw (more, push_chunks, taken)
              (after_push s buf offset n
                (push_chunks accepts rounds buf (offset + 1200) s (push_chunk buf offset s n)).0.log
                (push_chunks accepts rounds buf (offset + 1200) s (push_chunk buf offset s n)).1
                (ltb→lt offset (length buf) more)
                (push_chunks-Relayed accepts rounds buf (offset + 1200) s
                  (push_chunk buf offset s n) (omega arith)))
        | inr failed ↦
            rw (more, push_chunks, failed)
              (after_push s buf offset n (push_chunk buf offset s n).log false
                (ltb→lt offset (length buf) more)
                (stopped s (drop (offset + 1200) buf) (push_chunk buf offset s n).log))
      ]
    ]

push_chunks-ok :
    (accepts : ℕ → Bool) (rounds : ℕ) (buf : Bytes) (offset : ℕ) (s : Stream) (n : Node)
    → ((i : ℕ) → accepts i ≡ true)
    → (push_chunks accepts rounds buf offset s n).1 ≡ true
unfolding push_chunks
push_chunks-ok accepts zero buf offset s n h = refl
push_chunks-ok accepts (suc rounds) buf offset s n h = ground (
  arith,
  h offset,
  push_chunks-ok accepts rounds buf (offset + 1200) s (push_chunk buf offset s n) h,
)

-- A round of an open stream whose pushes all go through: the bytes that recv gave are the chunks
-- sent, in order.
pub reader_round-Relayed :
    (now : ℕ) (accepts : ℕ → Bool) (buf : Bytes) (p : ℕ) (s : Stream) (n : Node)
    → s.closed ≡ false
    → ((i : ℕ) → accepts i ≡ true)
    → Relayed s.client_id s.stream_id buf n.log (reader_round now accepts (some buf) p s n).log true
unfolding reader_round
reader_round-Relayed now accepts buf p s n o a =
    let s' = record s { last_activity_ms = now } in
    let all_sent = push_chunks-ok accepts (suc (length buf)) buf 0 s' (store p s' n) a in
    let r = push_chunks-Relayed accepts (suc (length buf)) buf 0 s' (store p s' n) (omega arith) in
    let same : reader_round now accepts (some buf) p s n
        ≡ (push_chunks accepts (suc (length buf)) buf 0 s' (store p s' n)).0 =
      ground (arith, o, all_sent) in
    rw same (
      subst
        (λ ok.
          Relayed s.client_id s.stream_id buf n.log
            (push_chunks accepts (suc (length buf)) buf 0 s' (store p s' n)).0.log ok)
        all_sent r)
