-- ===== src/Link/Upstream.antt =====
-- From the client to a target's socket: `sendStreamData` of TON-Tunnel/TonClientCore.cpp, then
-- `onAdnlMessage` and `handleData` of ton-egress-node/src/egress_node.cpp.
use ton_tunnel.Base.{
  ◌≢◌, inl, inr, subst, ℕ, ◌^◌, ◌<◌, ◌≤◌, ◌≡◌, refl, sym, ap, ◌∙◌, List, [], ◌∷◌, ◌++◌, append-nil,
  Bool, true, false, some, Bytes, length, take_all, lookup, bytes_eq, get_elem?, get_elem?-set_self,
  All, arith, join,
}
use ton_tunnel.Hope.{payload, wire, batch}
use ton_tunnel.Hope.Client.{encode_data_frame-wire}
use ton_tunnel.Egress.State.{Node, Stream, Effect, written, key_for, store, emit}
use ton_tunnel.Egress.Relay.{handle_data, data_on_stream, write_to_target}
use ton_tunnel.Egress.Run.{Env, on_adnl_message, count_rx}
use ton_tunnel.Egress.Run.Dispatch.{handle_message, handle_messages, on_adnl_message-batch}
use ton_tunnel.Desktop.Core.{Core, send_stream_data}
use ton_tunnel.Desktop.Core.Sending.{sent_segments, send_stream_data-Segmented}

-- The node has an open stream of that client and number, on that descriptor.
pub record Carries (client : Bytes) (id fd : ℕ) (n : Node) : Type 0 where
  pub pointer : ℕ
  pub object : Stream
  pub listed : lookup (key_for client id) n.streams ≡ some pointer
  pub found : get_elem? n.objects pointer ≡ some object
  pub connected : object.fd ≡ some fd
  pub still_open : object.closed ≡ false

-- The descriptor's log of writes.
unfoldable pub writes : ℕ → List Bytes → List Effect → List Effect
writes fd [] log = log
writes fd (c ∷ cs) log = writes fd cs (written fd c ∷ log)

-- A client's packets, one ADNL message each.
unfoldable pub take_packets : Env → Bytes → List Bytes → Node → Node
take_packets env client [] n = n
take_packets env client (p ∷ ps) n = take_packets env client ps (on_adnl_message env client p n)

module _ (client : Bytes) (id fd : ℕ) where
  handle_data-written :
      (now b : ℕ) (bs : Bytes) (n : Node) (v : Carries client id fd n)
      → length (b ∷ bs) ≤ n.config.egress.max_payload_bytes
      → handle_data now client id (b ∷ bs) (some (length (b ∷ bs))) n
        ≡ emit
            (written fd (b ∷ bs))
            (store v.pointer (record (v.object) { last_activity_ms = now }) n)
  unfolding handle_data data_on_stream write_to_target
  handle_data-written now b bs n v h = ground (
    arith,
    h,
    v.listed,
    v.found,
    v.connected,
    v.still_open,
    take_all (length (b ∷ bs)) (b ∷ bs) (omega arith),
  )

  record Wrote (c : Bytes) (n m : Node) : Type 0 where
    pub log_grown : m.log ≡ written fd c ∷ n.log
    pub carries : Carries client id fd m
    pub config_same : m.config ≡ n.config

  wrote :
      (now b : ℕ) (bs : Bytes) (n : Node)
      → Carries client id fd n
      → length (b ∷ bs) ≤ n.config.egress.max_payload_bytes
      → Wrote (b ∷ bs) n (handle_data now client id (b ∷ bs) (some (length (b ∷ bs))) n)
  wrote now b bs n v h = rw (handle_data-written now b bs n v h) (record {
    log_grown = refl;
    carries = record {
      pointer = v.pointer;
      object = record (v.object) { last_activity_ms = now };
      listed = v.listed;
      found = get_elem?-set_self n.objects v.pointer _ v.object v.found;
      connected = v.connected;
      still_open = v.still_open;
    };
    config_same = refl;
  })

  message-Wrote :
      (env : Env) (b : ℕ) (bs : Bytes) (n : Node)
      → id < 2 ^ 32
      → length (b ∷ bs) < 2 ^ 32
      → env.send (b ∷ bs) ≡ some (length (b ∷ bs))
      → Carries client id fd n
      → length (b ∷ bs) ≤ n.config.egress.max_payload_bytes
      → Wrote (b ∷ bs) n (on_adnl_message env client (wire (payload id (b ∷ bs))) n)
  unfolding batch handle_messages handle_message
  message-Wrote env b bs n hi hl hs v h =
      let counted = count_rx (length (batch (payload id (b ∷ bs) ∷ []))) n in
      let w =
        wrote env.now b bs counted
          (record {
            pointer = v.pointer;
            object = v.object;
            listed = v.listed;
            found = v.found;
            connected = v.connected;
            still_open = v.still_open;
          })
          h in
      rw (on_adnl_message-batch env client (payload id (b ∷ bs) ∷ []) n (((hi, hl), tt), tt), hs)
        (record {
          log_grown = w.log_grown;
          carries = record {
            pointer = w.carries.pointer;
            object = w.carries.object;
            listed = w.carries.listed;
            found = w.carries.found;
            connected = w.carries.connected;
            still_open = w.carries.still_open;
          };
          config_same = w.config_same;
        })

  data_packets : List Bytes → List Bytes
  data_packets [] = []
  data_packets (c ∷ cs) = wire (payload id c) ∷ data_packets cs

  packets-writes :
      (env : Env) (cs : List Bytes) (n : Node)
      → id < 2 ^ 32
      → ((b : Bytes) → 1 ≤ length b → env.send b ≡ some (length b))
      → Carries client id fd n
      → 1200 ≤ n.config.egress.max_payload_bytes
      → All (λ c. (1 ≤ length c) × (length c ≤ 1200)) cs
      → (take_packets env client (data_packets cs) n).log ≡ writes fd cs n.log
  unfolding take_packets data_packets writes
  packets-writes env [] n hi hs v h sizes = refl
  packets-writes env ([] ∷ cs) n hi hs v h sizes = absurd (omega (arith, sizes.0.0))
  packets-writes env ((b ∷ bs) ∷ cs) n hi hs v h sizes =
      let m = on_adnl_message env client (wire (payload id (b ∷ bs))) n in
      let w =
        message-Wrote env b bs n hi (omega (arith, sizes.0.1)) (hs (b ∷ bs) sizes.0.0) v
          (omega (arith, sizes.0.1)) in
      packets-writes env cs m hi hs w.carries
        (subst (λ c. 1200 ≤ c.egress.max_payload_bytes) (sym w.config_same) h) sizes.1
      ∙ ap (writes fd cs) w.log_grown

-- A list of packets on top of a log, newest first.
unfoldable pub push_packets : List Bytes → List Bytes → List Bytes
push_packets [] log = log
push_packets (p ∷ ps) log = push_packets ps (p ∷ log)

sent_segments-packets :
    (client : Bytes) (id fd : ℕ) (cs log : List Bytes)
    → All (λ c. (1 ≤ length c) × (length c ≤ 1200)) cs
    → sent_segments id cs log ≡ push_packets (data_packets client id fd cs) log
unfolding sent_segments push_packets data_packets
sent_segments-packets client id fd [] log h = refl
sent_segments-packets client id fd (c ∷ cs) log h =
    rw (encode_data_frame-wire id c (omega (arith, h.0.1)))
      (sent_segments-packets client id fd cs (wire (payload id c) ∷ log) h.1)

failed_not : false ≢ true
failed_not e = cc

-- The packets that the client gave its backend, and what a node that takes them writes to the socket.
pub record Written (env : Env) (client : Bytes) (fd : ℕ) (bytes : Bytes) (log log' : List Bytes)
    (n : Node) : Type 0 where
  pub packets : List Bytes
  pub logged : log' ≡ push_packets packets log
  pub chunks : List Bytes
  pub bytes_kept : join chunks ≡ bytes
  pub written_out : (take_packets env client packets n).log ≡ writes fd chunks n.log

-- When the client's sendStreamData returns 0, its packets, taken by the node one after another
-- with nothing between them, carry the payload in order and without loss to the target's socket,
-- if the node has the stream open, takes payloads of 1200 bytes, and its socket takes every write
-- whole.
pub send_stream_data-Written :
    (takes : ℕ → Bool) (env : Env) (client : Bytes) (id fd : ℕ) (bytes : Bytes) (c : Core)
    (n : Node)
    → (send_stream_data takes id bytes c).1 ≡ true
    → id < 2 ^ 32
    → ((b : Bytes) → 1 ≤ length b → env.send b ≡ some (length b))
    → Carries client id fd n
    → 1200 ≤ n.config.egress.max_payload_bytes
    → Written env client fd bytes c.packets (send_stream_data takes id bytes c).0.packets n
send_stream_data-Written takes env client id fd bytes c n ok hi hs v h =
    let r = send_stream_data-Segmented takes id bytes c in
    let whole : r.rest ≡ [] = elim r.complete [
      | inl e ↦ absurd (failed_not (sym e ∙ ok))
      | inr e ↦ e
    ] in
    record {
      packets = data_packets client id fd r.chunks;
      logged = r.logged ∙ sent_segments-packets client id fd r.chunks c.packets r.sizes;
      chunks = r.chunks;
      bytes_kept =
          sym (append-nil (join r.chunks)) ∙ ap (λ t. join r.chunks ++ t) (sym whole) ∙ r.split;
      written_out = packets-writes client id fd env r.chunks n hi hs v h r.sizes;
    }
