-- ===== src/Egress/Frames/Split.antt =====
-- `tryGetFrameLength` against the frame formats, and against `decodeMessage`.
use ton_tunnel.Base.{
  ℕ, ◌+◌, ◌/◌, ◌%◌, ◌≡◌, ◌≢◌, refl, ap, ◌∙◌, ◌++◌, some, Bytes, length, length-append, get_or-past,
  arith,
}
use ton_tunnel.Wire.{read_u16, digits_u16, digits_u32, read_u16-digits, read_u32-digits}
use ton_tunnel.Protocol.Fields.{field16, drop-port}
use ton_tunnel.Hope.{
  Message, open_request, open_ack, payload, close, failure, frame, size, Fits, length-frame,
}
use ton_tunnel.Egress.Frames.{
  field_u16, field_u16-past, field_u32-past, open_length, data_length, error_length,
  try_get_frame_length,
}

-- Behind any prefix a whole frame that is no OPEN_ACK has the length of its message.
pub try_get_frame_length-frame :
    (pre rest : Bytes) (m : Message)
    → Fits m
    → ((id : ℕ) → m ≢ open_ack id)
    → try_get_frame_length (pre ++ frame m rest) (length pre) ≡ some (size m)
unfolding try_get_frame_length frame size digits_u32
try_get_frame_length-frame pre rest (open_request id host port token) h k =
    let ys = frame (open_request id host port token) rest in
    let n = length host in
    let k = length token in
    let start = length pre + 5 in
    let e1 : field_u16 (pre ++ ys) start ≡ n =
      field_u16-past pre ys 5 start refl
      ∙ read_u16-digits n (host ++ (digits_u16 port ++ field16 token rest)) h.1 in
    let e2 : field_u16 (pre ++ ys) (start + 2 + n + 2) ≡ k =
      field_u16-past pre ys (9 + n) (start + 2 + n + 2) (omega arith)
      ∙ ap read_u16 (
          drop-port 1 (id / 16777216 % 256) (id / 65536 % 256) (id / 256 % 256) (id % 256) id port
            host token rest)
      ∙ read_u16-digits k (token ++ rest) h.3 in
    unfold open_length in
    rw e1 (
      ground (
        arith,
        length-append pre ys,
        length-frame (open_request id host port token) rest,
        get_or-past pre ys 0 (length pre) 0 (omega arith),
        e2,
      ))
try_get_frame_length-frame pre rest (open_ack id) h k = absurd (k id refl)
try_get_frame_length-frame pre rest (payload id bytes) h k =
    let ys = frame (payload id bytes) rest in
    unfold data_length in
    ground (
      arith,
      length-append pre ys,
      length-frame (payload id bytes) rest,
      get_or-past pre ys 0 (length pre) 0 (omega arith),
      field_u32-past pre ys 5 (length pre + 5) refl,
      read_u32-digits (length bytes) (bytes ++ rest) h.1,
    )
try_get_frame_length-frame pre rest (close id) h k =
    let ys = frame (close id) rest in
    ground (
      arith,
      length-append pre ys,
      length-frame (close id) rest,
      get_or-past pre ys 0 (length pre) 0 (omega arith),
    )
try_get_frame_length-frame pre rest (failure id text) h k =
    let ys = frame (failure id text) rest in
    unfold error_length in
    ground (
      arith,
      length-append pre ys,
      length-frame (failure id text) rest,
      get_or-past pre ys 0 (length pre) 0 (omega arith),
      field_u16-past pre ys 5 (length pre + 5) refl,
      read_u16-digits (length text) (text ++ rest) h.1,
    )
