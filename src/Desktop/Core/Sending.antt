-- ===== src/Desktop/Core/Sending.antt =====
-- `sendStreamData` of TON-Tunnel/TonClientCore.cpp.
use ton_tunnel.Base.{
  ◌⊎◌, ℕ, zero, suc, ◌+◌, ◌-◌, ◌≤◌, ◌<◌, ◌≡◌, refl, sym, ap, ◌∙◌, List, [], ◌∷◌, ◌++◌, append_assoc,
  Bool, true, false, Bytes, length, ltb, ltb→lt, take, drop, drop_all, min, All, arith, Bool-cases,
  inl, inr, join, chunk_at, chunk_at-rest, chunk_at-sizes,
}
use ton_tunnel.Desktop.Codec.{encode_data_frame}
use ton_tunnel.Desktop.Core.{Core, send_packet, send_segments, send_stream_data}

-- The backend's log after each chunk was sent as a DATA frame.
unfoldable pub sent_segments : ℕ → List Bytes → List Bytes → List Bytes
sent_segments id [] log = log
sent_segments id (c ∷ cs) log = sent_segments id cs (encode_data_frame id c ∷ log)

-- The bytes before `rest` were given to the backend in order, in chunks of the allowed sizes; all of
-- them if `ok`.
pub record Segmented (id : ℕ) (bytes : Bytes) (log log' : List Bytes) (ok : Bool) : Type 0 where
  pub chunks : List Bytes
  pub rest : Bytes
  pub split : join chunks ++ rest ≡ bytes
  pub sizes : All (λ c. (1 ≤ length c) × (length c ≤ 1200)) chunks
  pub logged : log' ≡ sent_segments id chunks log
  pub complete : (ok ≡ false) ⊎ (rest ≡ [])

nothing_left : (id : ℕ) (log : List Bytes) (ok : Bool) → Segmented id [] log log ok
unfolding join sent_segments
nothing_left id log ok = record {
  chunks = [];
  rest = [];
  split = refl;
  sizes = tt;
  logged = refl;
  complete = inr refl;
}

stopped : (id : ℕ) (bytes : Bytes) (log : List Bytes) → Segmented id bytes log log false
unfolding join sent_segments
stopped id bytes log = record {
  chunks = [];
  rest = bytes;
  split = refl;
  sizes = tt;
  logged = refl;
  complete = inl refl;
}

-- The next offset is the one behind the chunk.
behind_chunk :
    (buf : Bytes) (offset : ℕ)
    → offset < length buf
    → drop (offset + min 1200 (length buf - offset)) buf ≡ drop (offset + 1200) buf
behind_chunk buf offset h = elim (Bool-cases (ltb 1200 (length buf - offset))) [
  | inl more ↦
      let full : min 1200 (length buf - offset) ≡ 1200 = ground (arith, more) in
      ap (λ k. drop (offset + k) buf) full
  | inr last ↦
      let low : length buf ≤ offset + min 1200 (length buf - offset) = ground (arith, last) in
      let high : length buf ≤ offset + 1200 = ground (arith, last) in
      drop_all (offset + min 1200 (length buf - offset)) buf low
      ∙ sym (drop_all (offset + 1200) buf high)
]

after_segment :
    (id : ℕ) (buf : Bytes) (offset : ℕ) (c : Core) (log' : List Bytes) (ok : Bool)
    → offset < length buf
    → Segmented id
        (drop (offset + min 1200 (length buf - offset)) buf)
        (send_packet
          (encode_data_frame id (take (min 1200 (length buf - offset)) (drop offset buf)))
          c).packets
        log'
        ok
    → Segmented id (drop offset buf) c.packets log' ok
unfolding join sent_segments send_packet chunk_at
after_segment id buf offset c log' ok h r = record {
  chunks = chunk_at 1200 buf offset ∷ r.chunks;
  rest = r.rest;
  split =
      append_assoc (chunk_at 1200 buf offset) (join r.chunks) r.rest
      ∙ ap (λ t. chunk_at 1200 buf offset ++ t) (r.split ∙ behind_chunk buf offset h)
      ∙ chunk_at-rest 1200 buf offset h;
  sizes = (chunk_at-sizes 1200 buf offset (omega arith) h, r.sizes);
  logged = r.logged;
  complete = r.complete;
}

send_segments-Segmented :
    (takes : ℕ → Bool) (rounds id : ℕ) (buf : Bytes) (offset : ℕ) (c : Core)
    → length buf < rounds + offset
    → Segmented id
        (drop offset buf)
        c.packets
        (send_segments takes rounds id buf offset c).0.packets
        (send_segments takes rounds id buf offset c).1
unfolding send_segments
send_segments-Segmented takes zero id buf offset c h =
    rw (drop_all offset buf (omega arith)) (nothing_left id c.packets true)
send_segments-Segmented takes (suc rounds) id buf offset c h =
    let len = min 1200 (length buf - offset) in
    let sent = send_packet (encode_data_frame id (take len (drop offset buf))) c in
    elim (Bool-cases (ltb offset (length buf))) [
      | inr over ↦
          let past : length buf ≤ offset = ground (arith, over) in
          rw (over, send_segments, drop_all offset buf past) (nothing_left id c.packets true)
      | inl more ↦ elim (Bool-cases (takes offset)) [
        | inl taken ↦
            rw (more, send_segments, taken)
              (after_segment id buf offset c
                (send_segments takes rounds id buf (offset + len) sent).0.packets
                (send_segments takes rounds id buf (offset + len) sent).1
                (ltb→lt offset (length buf) more)
                (send_segments-Segmented takes rounds id buf (offset + len) sent
                  (ground (arith, more, h))))
        | inr failed ↦
            rw (more, send_segments, failed)
              (after_segment id buf offset c sent.packets false (ltb→lt offset (length buf) more)
                (stopped id (drop (offset + len) buf) sent.packets))
      ]
    ]

-- Whatever the backend answers, the packets hold a prefix of the payload in order, in chunks of 1
-- to 1200 bytes, and the whole of it when 0 is returned.
pub send_stream_data-Segmented :
    (takes : ℕ → Bool) (id : ℕ) (payload : Bytes) (c : Core)
    → Segmented id payload c.packets
        (send_stream_data takes id payload c).0.packets
        (send_stream_data takes id payload c).1
unfolding send_stream_data
send_stream_data-Segmented takes id payload c =
    send_segments-Segmented takes (suc (length payload)) id payload 0 c (omega arith)
