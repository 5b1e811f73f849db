-- ===== src/Hope/Server.antt =====
-- The egress node's codec (ton-egress-node/src/protocol.cpp) against the frame formats.
use ton_tunnel.Base.{
  ℕ, ◌%◌, ◌/◌, ◌^◌, ◌<◌, ◌≡◌, refl, [], ◌∷◌, append-nil, append_assoc, Option, none, some, Bytes,
  length, arith,
}
use ton_tunnel.Wire.{write_u16-digits, write_u32-digits, digits_u32, read_u32-digits}
use ton_tunnel.Protocol.{
  DecodedMessage, open_type, data_type, close_type, error_type, with_type, message_type,
  decode_message, decode_body, decode_open, encode_open, encode_data, encode_error, encode_close,
}
use ton_tunnel.Protocol.Fields.{decode_open-fields, decode_data-field, decode_error-field}
use ton_tunnel.Hope.{Message, open_request, open_ack, payload, close, failure, frame, wire, Fits}

-- The OPEN_ACK in the documented format.
pub encode_open-wire : (id : ℕ) → encode_open (record { stream_id = id }) ≡ wire (open_ack id)
unfolding encode_open frame digits_u32
encode_open-wire id = write_u32-digits (1 ∷ []) id

pub encode_close-wire : (id : ℕ) → encode_close (record { stream_id = id }) ≡ wire (close id)
unfolding encode_close frame digits_u32
encode_close-wire id = write_u32-digits (3 ∷ []) id

-- The node's DATA is in the documented format, for a payload of less than 2^32 bytes.
pub encode_data-wire :
    (id : ℕ) (bytes : Bytes)
    → length bytes < 2 ^ 32
    → encode_data (record { stream_id = id; payload = bytes }) ≡ wire (payload id bytes)
unfolding encode_data frame
encode_data-wire id bytes h =
    let e : length bytes % 2 ^ 32 ≡ length bytes = omega arith in
    rw (e, write_u32-digits (2 ∷ []) id, write_u32-digits (2 ∷ digits_u32 id) (length bytes))
      (simp (append_assoc, append-nil))

-- The node's ERROR is in the documented format, for a text of less than 65536 bytes.
pub encode_error-wire :
    (id : ℕ) (text : Bytes)
    → length text < 2 ^ 16
    → encode_error (record { stream_id = id; message = text }) ≡ wire (failure id text)
unfolding encode_error frame
encode_error-wire id text h =
    let e : length text % 2 ^ 16 ≡ length text = omega arith in
    rw (e, write_u32-digits (4 ∷ []) id, write_u16-digits (4 ∷ digits_u32 id) (length text))
      (simp (append_assoc, append-nil))

-- The node's view of a message. An OPEN_ACK has no body to decode.
unfoldable pub decoded : Message → Option DecodedMessage
decoded (open_request id host port token) = some (record (with_type open_type) {
  open_part = some (record { stream_id = id; host = host; port = port; token = token });
})
decoded (open_ack id) = none
decoded (payload id bytes) =
    some (record (with_type data_type) {
      data_part = some (record { stream_id = id; payload = bytes });
    })
decoded (close id) =
    some (record (with_type close_type) { close_part = some (record { stream_id = id }) })
decoded (failure id text) = some (record (with_type error_type) {
  error_part = some (record { stream_id = id; message = text });
})

-- The node decodes a whole frame to its message, whatever stands behind it; a lone OPEN_ACK does
-- not decode.
pub decode_message-frame :
    (m : Message) (rest : Bytes)
    → Fits m
    → ((id : ℕ) → m ≡ open_ack id → rest ≡ [])
    → decode_message (frame m rest) ≡ decoded m
unfolding decode_message decode_body message_type frame decoded digits_u32
decode_message-frame (open_request id host port token) rest h k = rw (read_u32-digits id _ h.0) (
    ground (
      arith,
      decode_open-fields 1 (id / 16777216 % 256) (id / 65536 % 256) (id / 256 % 256) (id % 256) id
          port host token rest h.1 h.2 h.3,
    ))
decode_message-frame (open_ack id) rest h k = rw (k id refl) (unfold decode_open in refl)
decode_message-frame (payload id bytes) rest h k = rw (read_u32-digits id _ h.0) (
    ground (
      arith,
      decode_data-field 2 (id / 16777216 % 256) (id / 65536 % 256) (id / 256 % 256) (id % 256) id
          bytes rest h.1,
    ))
decode_message-frame (close id) rest h k = rw (read_u32-digits id _ h) (ground arith)
decode_message-frame (failure id text) rest h k = rw (read_u32-digits id _ h.0) (
    ground (
      arith,
      decode_error-field 4 (id / 16777216 % 256) (id / 65536 % 256) (id / 256 % 256) (id % 256) id
          text rest h.1,
    ))
