-- ===== src/Egress/Run/Dispatch.antt =====
-- The frame loop of `onAdnlMessage` (ton-egress-node/src/egress_node.cpp) on any payload, and on a
-- payload that is a batch of well-formed frames.
use ton_tunnel.Base.{
  ℕ, zero, suc, ◌+◌, ◌-◌, ◌<◌, ◌≤◌, ◌≡◌, ◌≢◌, refl, sym, ap, ◌∙◌, List, [], ◌∷◌, ◌++◌, true, false,
  Option, none, some, Bytes, length, take, drop, ltb, arith, Bool-cases, Option-cases, inl, inr,
  ◌⊎◌, subst, All, length-append, drop-append, take-append, append_assoc,
}
use ton_tunnel.Protocol.{DecodedMessage, decode_message}
use ton_tunnel.Hope.{
  Message, open_request, open_ack, payload, close, failure, frame, wire, batch, size, Fits,
  length-frame, frame-append, size_pos,
}
use ton_tunnel.Hope.Server.{decoded, decode_message-frame}
use ton_tunnel.Egress.State.{Node}
use ton_tunnel.Egress.Streams.{handle_close}
use ton_tunnel.Egress.Open.{handle_open}
use ton_tunnel.Egress.Relay.{handle_data}
use ton_tunnel.Egress.Frames.{try_get_frame_length}
use ton_tunnel.Egress.Frames.Agree.{framed-decodes}
use ton_tunnel.Egress.Frames.Split.{try_get_frame_length-frame}
use ton_tunnel.Egress.Run.{
  Env, dispatch, LoopEnd, exhausted, bad_frame, no_fuel, NextFrame, no_length, no_message, found,
  next_frame, dispatch_loop, on_adnl_message, maybe_log_counters, count_rx, after_loop,
}

abbrev pub Cut : Bytes → ℕ → NextFrame → Type 0
Cut input offset r =
    (r ≡ no_length)
    ⊎ ((k : ℕ) × (msg : DecodedMessage) × (r ≡ found k msg) × (1 ≤ k) × (offset + k ≤ length input))

decoded-Cut :
    (input : Bytes) (offset k : ℕ) (r : Option DecodedMessage)
    → decode_message (take (suc k) (drop offset input)) ≡ r
    → try_get_frame_length input offset ≡ some (suc k)
    → Cut input offset (elim r [ none ↦ no_message | some msg ↦ found (suc k) msg ])
decoded-Cut input offset k none d e = absurd ((framed-decodes input offset (suc k) e).2 d)
decoded-Cut input offset k (some msg) d e =
    inr (suc k, msg, refl, omega arith, (framed-decodes input offset (suc k) e).1)

-- A frame that was cut out always decodes.
pub next_frame-Cut : (input : Bytes) (offset : ℕ) → Cut input offset (next_frame input offset)
unfolding next_frame
next_frame-Cut input offset = elim (Option-cases (try_get_frame_length input offset)) [
  | inl e ↦ rw (e, next_frame) (inl refl)
  | inr (zero, e) ↦ rw (e, next_frame) (inl refl)
  | inr (suc k, e) ↦ rw (e, next_frame) (decoded-Cut input offset k _ refl e)
]

abbrev pub Ended : Node × LoopEnd → Type 0
Ended r = (r.1 ≢ no_fuel) × (r.1 ≢ bad_frame)

-- With fuel beyond the bytes left the loop ends by itself, and never at a frame that was cut out
-- and does not decode.
pub dispatch_loop-ends :
    (fuel : ℕ) (env : Env) (client_id input : Bytes) (offset : ℕ) (n : Node)
    → offset ≤ length input
    → length input < fuel + offset
    → Ended (dispatch_loop fuel env client_id input offset n)
unfolding dispatch_loop
dispatch_loop-ends zero env client_id input offset n le h = absurd (omega arith)
dispatch_loop-ends (suc fuel) env client_id input offset n le h =
    elim (Bool-cases (ltb offset (length input))) [
      | inr over ↦ rw (over, dispatch_loop) (λ e. cc, λ e. cc)
      | inl more ↦ elim (next_frame-Cut input offset) [
        | inl e ↦ rw (more, dispatch_loop, e) (λ e. cc, λ e. cc)
        | inr (k, msg, e, pos, fits) ↦
            rw (more, dispatch_loop, e)
              (dispatch_loop-ends fuel env client_id input (offset + k)
                (dispatch env client_id msg n) fits (omega arith))
      ]
    ]

-- What the handlers make of messages, one after another.
unfoldable pub handle_message : Env → Bytes → Message → Node → Node
handle_message env client_id (open_request id host port token) n =
    handle_open env.net env.now client_id id host port token n
handle_message env client_id (open_ack id) n = n
handle_message env client_id (payload id bytes) n =
    handle_data env.now client_id id bytes (env.send bytes) n
handle_message env client_id (close id) n = handle_close env.now client_id id n
handle_message env client_id (failure id text) n = n

unfoldable pub handle_messages : Env → Bytes → List Message → Node → Node
handle_messages env client_id [] n = n
handle_messages env client_id (m ∷ ms) n =
    handle_messages env client_id ms (handle_message env client_id m n)

-- A client never sends an OPEN_ACK.
abbrev pub IsRequest : Message → Type 0
IsRequest (open_ack id) = ⊥
IsRequest (open_request id host port token) = Unit
IsRequest (payload id bytes) = Unit
IsRequest (close id) = Unit
IsRequest (failure id text) = Unit

abbrev pub IsSendable : Message → Type 0
IsSendable m = Fits m × IsRequest m

dispatch-decoded :
    (env : Env) (client_id : Bytes) (m : Message) (n : Node)
    → IsRequest m
    → (msg : DecodedMessage) × (decoded m ≡ some msg)
      × (dispatch env client_id msg n ≡ handle_message env client_id m n)
unfolding decoded dispatch handle_message
dispatch-decoded env client_id (open_request id host port token) n h = (_, refl, refl)
dispatch-decoded env client_id (open_ack id) n h = absurd h
dispatch-decoded env client_id (payload id bytes) n h = (_, refl, refl)
dispatch-decoded env client_id (close id) n h = (_, refl, refl)
dispatch-decoded env client_id (failure id text) n h = (_, refl, refl)

not_ack : (m : Message) → IsRequest m → (id : ℕ) → m ≢ open_ack id
not_ack m h id e = subst IsRequest e h

next_frame-frame :
    (pre rest : Bytes) (m : Message) (msg : DecodedMessage)
    → IsSendable m
    → decoded m ≡ some msg
    → next_frame (pre ++ frame m rest) (length pre) ≡ found (size m) msg
unfolding next_frame
next_frame-frame pre rest m msg h d =
    let k = size m - 1 in
    let ek : size m ≡ suc k = omega (arith, size_pos m) in
    let len : try_get_frame_length (pre ++ frame m rest) (length pre) ≡ some (suc k) =
      try_get_frame_length-frame pre rest m h.0 (not_ack m h.1) ∙ ap some ek in
    let cut : take (suc k) (drop (length pre) (pre ++ frame m rest)) ≡ wire m =
      ap (take (suc k)) (drop-append pre (frame m rest) (length pre) refl ∙ frame-append m rest)
      ∙ take-append (wire m) rest (suc k) (omega (arith, length-frame m [])) in
    let dec : decode_message (wire m) ≡ some msg =
      decode_message-frame m [] h.0 (λ id e. refl) ∙ d in
    rw (len, next_frame, cut, dec) (ap (λ t. found t msg) (sym ek))

-- The loop over a batch of requests behind any prefix hands each to its handler, in order.
dispatch_loop-batch :
    (fuel : ℕ) (env : Env) (client_id pre : Bytes) (ms : List Message) (n : Node)
    → All IsSendable ms
    → length (batch ms) < fuel
    → dispatch_loop fuel env client_id (pre ++ batch ms) (length pre) n
      ≡ (handle_messages env client_id ms n, exhausted)
unfolding dispatch_loop batch handle_messages
dispatch_loop-batch zero env client_id pre ms n h f = elim f [ ]
dispatch_loop-batch (suc fuel) env client_id pre [] n h f =
    let e : ltb (length pre) (length (pre ++ [])) ≡ false = ground (arith, length-append pre []) in
    rw (e, dispatch_loop)
dispatch_loop-batch (suc fuel) env client_id pre (m ∷ ms) n h f =
    let rest = batch ms in
    let (msg, d, same) = dispatch-decoded env client_id m n h.0.1 in
    let more : ltb (length pre) (length (pre ++ frame m rest)) ≡ true =
      ground (arith, length-append pre (frame m rest), length-frame m rest, size_pos m) in
    let whole : pre ++ frame m rest ≡ (pre ++ wire m) ++ rest =
      ap (◌++◌ pre) (frame-append m rest) ∙ sym (append_assoc pre (wire m) rest) in
    let behind : length pre + size m ≡ length (pre ++ wire m) =
      omega (arith, length-append pre (wire m), length-frame m []) in
    rw (more, dispatch_loop, next_frame-frame pre rest m msg h.0 d, same, whole, behind)
      (dispatch_loop-batch fuel env client_id (pre ++ wire m) ms (handle_message env client_id m n)
        h.1 (omega (arith, length-frame m rest, size_pos m)))

-- A payload of well-formed requests runs their handlers in order, and counts the payload's bytes.
pub on_adnl_message-batch :
    (env : Env) (client_id : Bytes) (ms : List Message) (n : Node)
    → All IsSendable ms
    → on_adnl_message env client_id (batch ms) n ≡ (
        let m = handle_messages env client_id ms (count_rx (length (batch ms)) n) in
        record m { counters = maybe_log_counters env.now m.counters })
unfolding on_adnl_message after_loop
on_adnl_message-batch env client_id ms n h = ap (after_loop env.now) (
    dispatch_loop-batch (suc (length (batch ms))) env client_id [] ms
      (count_rx (length (batch ms)) n) h (omega arith))

-- On any payload at all the loop ends by reaching the end or at a frame of bad format: never for
-- want of fuel, and never at a frame that was cut out but does not decode.
pub on_adnl_message_ends :
    (env : Env) (client_id input : Bytes) (n : Node)
    → Ended (dispatch_loop (suc (length input)) env client_id input 0 n)
on_adnl_message_ends env client_id input n =
    dispatch_loop-ends (suc (length input)) env client_id input 0 n (omega arith) (omega arith)
