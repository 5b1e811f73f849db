-- ===== src/AdnlClient/Sending.antt =====
-- What passes the filter of `send` in app/src/main/cpp/ton_adnl_client_backend.cpp, over the frame
-- formats of PROTOCOL.md.
use ton_tunnel.Base.{
  ℕ, ◌^◌, ◌<◌, ◌≡◌, [], ◌∷◌, ◌++◌, Bool, true, false, Bytes, length, if◌then◌else◌, arith,
}
use ton_tunnel.Wire.{digits_u32, read_u32, read_u32-digits}
use ton_tunnel.Hope.{Message, open_request, open_ack, payload, close, failure, frame, wire, Fits}
use ton_tunnel.AdnlClient.{Client, payload_len, send_message}

-- A DATA message without bytes.
abbrev pub is_empty_data : Message → Bool
is_empty_data (payload id []) = true
is_empty_data (payload id (b ∷ bytes)) = false
is_empty_data (open_request id host port token) = false
is_empty_data (open_ack id) = false
is_empty_data (close id) = false
is_empty_data (failure id message) = false

payload_len-wire :
    (id : ℕ) (bytes : Bytes)
    → length bytes < 2 ^ 32
    → payload_len (wire (payload id bytes)) ≡ length bytes
unfolding payload_len frame digits_u32 read_u32
payload_len-wire id bytes h = read_u32-digits (length bytes) (bytes ++ []) h

-- A client that is set up sends every whole frame unchanged, except a DATA frame without a payload,
-- which it drops, and reports success for both.
pub send_message-frame :
    (m : Message) (c : Client)
    → Fits m
    → c.ready ≡ true
    → c.attached ≡ true
    → send_message (wire m) c
      ≡ (if is_empty_data m then c else record c { sent = wire m ∷ c.sent }, true)
unfolding send_message
send_message-frame (open_request id host port token) c h r a = unfold frame in ground arith
send_message-frame (open_ack id) c h r a = unfold frame in ground arith
send_message-frame (payload id []) c h r a =
    unfold frame digits_u32 in ground (arith, payload_len-wire id [] h.1)
send_message-frame (payload id (b ∷ bytes)) c h r a =
    unfold frame digits_u32 in ground (arith, payload_len-wire id (b ∷ bytes) h.1)
send_message-frame (close id) c h r a = unfold frame in ground arith
send_message-frame (failure id message) c h r a = unfold frame in ground arith
