-- ===== src/Link/Uplink.antt =====
-- From the desktop core to the ADNL actors: `sendStreamData` of TON-Tunnel/TonClientCore.cpp through
-- `DirectAdnlBackend` of TON-Tunnel/TON-Tunnel.cpp and the client library's send.
use ton_tunnel.Base.{
  ℕ, zero, suc, ◌^◌, ◌≤◌, ◌<◌, ◌≡◌, refl, sym, ap, ◌∙◌, ◌&&◌, List, [], ◌∷◌, ◌++◌, append-nil, map,
  Bool, true, false, some, Bytes, All, length, ltb, ◌==◌, if◌then◌else◌, Bool-cases, inl, inr,
  nat_eq, ℤ, pos, negsuc, join, is_nil, arith,
}
use ton_tunnel.Hope.{payload, frame}
use ton_tunnel.Hope.Client.{encode_data_frame-wire}
use ton_tunnel.AdnlClient.{Client, send_message}
use ton_tunnel.AdnlClient.Owned.{send_only}
use ton_tunnel.AdnlClient.Sending.{send_message-frame}
use ton_tunnel.Desktop.Codec.{encode_data_frame}
use ton_tunnel.Desktop.Core.{Core, send_segments, send_stream_data}
use ton_tunnel.Desktop.Core.Sending.{sent_segments, send_stream_data-Segmented}
use ton_tunnel.Desktop.Direct.{Direct, direct_send}

-- Packets sent one after another, and whether each was answered by 0.
abbrev pub is_ok : ℤ → Bool
is_ok (pos n) = n == 0
is_ok (negsuc n) = false

unfoldable pub send_each : List Bytes → Direct → Direct × Bool
send_each [] d = (d, true)
send_each (p ∷ ps) d =
    let (d', code) = direct_send p d in
    let (d'', rest) = send_each ps d' in (d'', is_ok code && rest)

-- A started backend whose client is set up.
abbrev pub linked : ℕ → Client → Direct → Direct
linked address c d = record d {
  handle = some address;
  started = true;
  clients = record (d.clients) { table = (address, c) ∷ [] };
}

-- A backend that always takes its packets.
send_segments-taken :
    (rounds id : ℕ) (bytes : Bytes) (offset : ℕ) (c : Core)
    → (send_segments (λ o. true) rounds id bytes offset c).1 ≡ true
unfolding send_segments
send_segments-taken zero id bytes offset c = refl
send_segments-taken (suc rounds) id bytes offset c = elim (Bool-cases (ltb offset (length bytes))) [
  | inl more ↦ rw (more, send_segments) (send_segments-taken rounds id bytes _ _)
  | inr done ↦ rw (done, send_segments) refl
]

module _ (id address : ℕ) (hid : id < 2 ^ 32) where
  send_chunk :
      (chunk : Bytes) (c : Client) (d : Direct)
      → 1 ≤ length chunk
      → length chunk ≤ 1200
      → c.ready ≡ true
      → c.attached ≡ true
      → direct_send (encode_data_frame id chunk) (linked address c d)
        ≡ (linked address (record c { sent = encode_data_frame id chunk ∷ c.sent }) d, pos 0)
  unfolding direct_send
  send_chunk [] c d h k r a = absurd (omega arith)
  send_chunk (x ∷ xs) c d h k r a =
      let packet = encode_data_frame id (x ∷ xs) in
      let bytes = encode_data_frame-wire id (x ∷ xs) (omega (arith, k)) in
      let filled : is_nil packet ≡ false = ap is_nil bytes ∙ (unfold frame in refl) in
      let passed : send_message packet c ≡ (record c { sent = packet ∷ c.sent }, true) =
        ap (λ t. send_message t c) bytes
        ∙ send_message-frame (payload id (x ∷ xs)) c (hid, omega (arith, k)) r a
        ∙ ap (λ t. (record c { sent = t ∷ c.sent }, true)) (sym bytes) in
      ap (λ r. (record (linked address c d) { clients = r.0 }, r.1))
        (send_only address c (linked address c d).clients packet refl filled
          ∙ ap
              (λ r. (
                record (d.clients) { table = (address, r.0) ∷ [] },
                if r.1 then pos 0 else negsuc 1,
              ))
              passed)

  send_chunks :
      (chunks : List Bytes) (c : Client) (d : Direct)
      → All (λ t. (1 ≤ length t) × (length t ≤ 1200)) chunks
      → c.ready ≡ true
      → c.attached ≡ true
      → send_each (map (encode_data_frame id) chunks) (linked address c d)
        ≡ (linked address (record c { sent = sent_segments id chunks c.sent }) d, true)
  unfolding send_each sent_segments
  send_chunks [] c d h r a = refl
  send_chunks (t ∷ ts) c d h r a =
      let first = send_chunk t c d h.0.0 h.0.1 r a in
      let c' = record c { sent = encode_data_frame id t ∷ c.sent } in
      let rest = send_chunks ts c' d h.1 r a in
      let packets = map (encode_data_frame id) ts in
      ap (λ r. ((send_each packets r.0).0, is_ok r.1 && (send_each packets r.0).1)) first
      ∙ ap (λ r. (r.0, r.1)) rest

-- With a backend that is started and whose client is set up, sendStreamData returns 0, and its
-- packets, given to the backend in order, are all answered by 0 and come to the ADNL actor
-- unchanged, with the payload in chunks of 1 to 1200 bytes.
pub send_stream_data-sent :
    (id address : ℕ) (bytes : Bytes) (core : Core) (c : Client) (d : Direct)
    → id < 2 ^ 32
    → c.ready ≡ true
    → c.attached ≡ true
    → ((send_stream_data (λ o. true) id bytes core).1 ≡ true)
      × ((chunks : List Bytes) × (join chunks ≡ bytes)
          × All (λ t. (1 ≤ length t) × (length t ≤ 1200)) chunks
          × ((send_stream_data (λ o. true) id bytes core).0.packets
              ≡ sent_segments id chunks core.packets)
          × (send_each (map (encode_data_frame id) chunks) (linked address c d)
              ≡ (linked address (record c { sent = sent_segments id chunks c.sent }) d, true)))
send_stream_data-sent id address bytes core c d h r a =
    let s = send_stream_data-Segmented (λ o. true) id bytes core in
    let ok : (send_stream_data (λ o. true) id bytes core).1 ≡ true =
      unfold send_stream_data in send_segments-taken (suc (length bytes)) id bytes 0 core in
    let whole : s.rest ≡ [] = elim s.complete [ inl failed ↦ cc | inr empty ↦ empty ] in
    (
      ok,
      (
        s.chunks,
        sym (append-nil (join s.chunks)) ∙ ap (λ t. join s.chunks ++ t) (sym whole) ∙ s.split,
        s.sizes,
        s.logged,
        send_chunks id address h s.chunks c d s.sizes r a,
      ),
    )
