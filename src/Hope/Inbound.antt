-- ===== src/Hope/Inbound.antt =====
-- The decoder of the desktop client's codec (TON-Tunnel/TonProtocol.cpp) against the frame formats.
use ton_tunnel.Base.{
  All, ℕ, zero, suc, ◌+◌, ◌-◌, ◌%◌, ◌/◌, ◌^◌, ◌<◌, ◌≡◌, refl, sym, ap, ◌∙◌, List, [], ◌∷◌, ◌++◌,
  append-nil, append_assoc, some, true, false, Bytes, length, length-append, take, drop, drop-past,
  drop-append, take-append, get_or, get_or-past, leb, arith,
}
use ton_tunnel.Wire.{digits_u32, digits_u16, read_u32-digits, read_u16-digits, read_u16, read_u32}
use ton_tunnel.Desktop.Codec.{
  FrameType, open_type, data_type, close_type, error_type, InboundFrame, new_frame, frame_type,
  skip_open_body, decode_body, decode_frame, decode_loop, decode_inbound_frames,
}
use ton_tunnel.Protocol.Fields.{field16, drop-field16, drop-field32, drop-port}
use ton_tunnel.Hope.{
  Message, open_request, open_ack, payload, close, failure, frame, frame-append, wire, batch, size,
  size_pos, length-frame, Fits,
}

-- The client's view of a message.
unfoldable pub inbound : Message → InboundFrame
inbound (open_request id host port token) = record (new_frame open_type id) {
  raw_frame = wire (open_request id host port token);
}
inbound (open_ack id) = record (new_frame open_type id) { raw_frame = wire (open_ack id) }
inbound (payload id bytes) = record (new_frame data_type id) {
  payload = bytes;
  raw_frame = wire (payload id bytes);
}
inbound (close id) = record (new_frame close_type id) { raw_frame = wire (close id) }
inbound (failure id text) = record (new_frame error_type id) {
  error_message = text;
  raw_frame = wire (failure id text);
}

kind : Message → FrameType
kind (open_request id host port token) = open_type
kind (open_ack id) = open_type
kind (payload id bytes) = data_type
kind (close id) = close_type
kind (failure id text) = error_type

ident : Message → ℕ
ident (open_request id host port token) = id
ident (open_ack id) = id
ident (payload id bytes) = id
ident (close id) = id
ident (failure id text) = id

inbound_raw :
    (m : Message) → ◌≡◌ {A = InboundFrame} (record (inbound m) { raw_frame = wire m }) (inbound m)
unfolding inbound
inbound_raw (open_request id host port token) = refl
inbound_raw (open_ack id) = refl
inbound_raw (payload id bytes) = refl
inbound_raw (close id) = refl
inbound_raw (failure id text) = refl

-- The bytes of the frame at its place.
raw_bytes :
    (pre rest : Bytes) (m : Message) (next : ℕ)
    → next ≡ length pre + size m
    → take (next - length pre) (drop (length pre) (pre ++ frame m rest)) ≡ wire m
raw_bytes pre rest m next e =
    let l : next - length pre ≡ length (wire m) = omega (arith, length-frame m []) in
    rw (drop-append pre (frame m rest) (length pre) refl, frame-append m rest)
      (take-append (wire m) rest (next - length pre) l)

first_byte : (m : Message) (rest : Bytes) → frame_type (get_or (frame m rest) 0 0) ≡ kind m
unfolding frame frame_type kind
first_byte (open_request id host port token) rest = refl
first_byte (open_ack id) rest = refl
first_byte (payload id bytes) rest = refl
first_byte (close id) rest = refl
first_byte (failure id text) rest = refl

read_id : (m : Message) (rest : Bytes) → Fits m → read_u32 (drop 1 (frame m rest)) ≡ ident m
unfolding frame ident
read_id (open_request id host port token) rest h = read_u32-digits id _ h.0
read_id (open_ack id) rest h = read_u32-digits id _ h
read_id (payload id bytes) rest h = read_u32-digits id _ h.0
read_id (close id) rest h = read_u32-digits id _ h
read_id (failure id text) rest h = read_u32-digits id _ h.0

module _ (pre rest : Bytes) where
  skip_request :
      (id : ℕ) (host : Bytes) (port : ℕ) (token : Bytes)
      → length host < 2 ^ 16
      → length token < 2 ^ 16
      → let m = open_request id host port token in
        skip_open_body (pre ++ frame m rest) (length pre + 5) ≡ length pre + size m
  unfolding skip_open_body frame size digits_u32
  skip_request id host port token hh ht =
      let ys = frame (open_request id host port token) rest in
      let n = length host in
      let start = length pre + 5 in
      let e1 : read_u16 (drop start (pre ++ ys)) ≡ n =
        ap read_u16 (drop-past pre ys 5 start refl)
        ∙ read_u16-digits n (host ++ (digits_u16 port ++ field16 token rest)) hh in
      let e2 : read_u16 (drop (start + 2 + n + 2) (pre ++ ys)) ≡ length token =
        ap read_u16 (drop-past pre ys (9 + n) (start + 2 + n + 2) (omega arith))
        ∙ ap read_u16 (
            drop-port 1 (id / 16777216 % 256) (id / 65536 % 256) (id / 256 % 256) (id % 256) id port
              host token rest)
        ∙ read_u16-digits (length token) (token ++ rest) ht in
      rw e1 (
        ground
          (arith, e2, length-append pre ys, length-frame (open_request id host port token) rest))

  skip_ack :
      (id : ℕ)
      → rest ≡ []
      → skip_open_body (pre ++ frame (open_ack id) rest) (length pre + 5) ≡ length pre + 5
  unfolding skip_open_body size
  skip_ack id e =
      ground
        (arith, e, length-append pre (frame (open_ack id) rest), length-frame (open_ack id) rest)

  body_at :
      (m : Message)
      → Fits m
      → ((id : ℕ) → m ≡ open_ack id → rest ≡ [])
      → decode_body (kind m) (ident m) (pre ++ frame m rest) (length pre + 5)
        ≡ some (record (inbound m) { raw_frame = [] }, length pre + size m)
  unfolding decode_body kind ident inbound size frame digits_u32
  body_at (open_request id host port token) h k = rw (skip_request id host port token h.1 h.3) refl
  body_at (open_ack id) h k = rw (skip_ack id (k id refl)) refl
  body_at (payload id bytes) h k =
      let ys = frame (payload id bytes) rest in
      let len : read_u32 (drop (length pre + 5) (pre ++ ys)) ≡ length bytes =
        ap read_u32 (drop-past pre ys 5 (length pre + 5) refl)
        ∙ read_u32-digits (length bytes) (bytes ++ rest) h.1 in
      let body : drop (length pre + 5 + 4) (pre ++ ys) ≡ bytes ++ rest =
        drop-past pre ys 9 (length pre + 5 + 4) (omega arith)
        ∙ drop-field32 (length bytes) (bytes ++ rest) in
      rw (len, body)
        (ground (
          arith,
          length-append pre ys,
          length-frame (payload id bytes) rest,
          take-append bytes rest (length bytes) refl,
        ))
  body_at (close id) h k = refl
  body_at (failure id text) h k =
      let ys = frame (failure id text) rest in
      let len : read_u16 (drop (length pre + 5) (pre ++ ys)) ≡ length text =
        ap read_u16 (drop-past pre ys 5 (length pre + 5) refl)
        ∙ read_u16-digits (length text) (text ++ rest) h.1 in
      let body : drop (length pre + 5 + 2) (pre ++ ys) ≡ text ++ rest =
        drop-past pre ys 7 (length pre + 5 + 2) (omega arith)
        ∙ drop-field16 (length text) (text ++ rest) in
      rw (len, body)
        (ground (
          arith,
          length-append pre ys,
          length-frame (failure id text) rest,
          take-append text rest (length text) refl,
        ))

  -- Behind any prefix a whole frame is read as its message; an OPEN_ACK only at the end.
  pub decode_frame-frame :
      (m : Message)
      → Fits m
      → ((id : ℕ) → m ≡ open_ack id → rest ≡ [])
      → decode_frame (pre ++ frame m rest) (length pre) ≡ some (inbound m, length pre + size m)
  unfolding decode_frame
  decode_frame-frame m h k =
      let type_at : frame_type (get_or (pre ++ frame m rest) (length pre) 0) ≡ kind m =
        ap frame_type (get_or-past pre (frame m rest) 0 (length pre) 0 (omega arith))
        ∙ first_byte m rest in
      let id_at : read_u32 (drop (length pre + 1) (pre ++ frame m rest)) ≡ ident m =
        ap read_u32 (drop-past pre (frame m rest) 1 (length pre + 1) refl) ∙ read_id m rest h in
      rw
        (
          type_at,
          decode_frame,
          id_at,
          body_at m h k,
          raw_bytes pre rest m (length pre + size m) refl,
        )
        (ap (λ f. some (f, length pre + size m)) (inbound_raw m))

-- An OPEN_ACK stands at the end of a payload only.
abbrev pub AckLast : List Message → Type 0
AckLast [] = Unit
AckLast (m ∷ ms) = ((id : ℕ) → m ≡ open_ack id → ms ≡ []) × AckLast ms

unfoldable pub inbounds : List Message → List InboundFrame
inbounds [] = []
inbounds (m ∷ ms) = inbound m ∷ inbounds ms

decode_loop-batch :
    (fuel : ℕ) (pre : Bytes) (ms : List Message) (out : List InboundFrame)
    → length (batch ms) < fuel
    → All Fits ms
    → AckLast ms
    → decode_loop fuel (pre ++ batch ms) (length pre) out ≡ some (out ++ inbounds ms)
unfolding decode_loop batch inbounds
decode_loop-batch zero pre ms out h fits last = absurd (omega arith)
decode_loop-batch (suc fuel) pre [] out h fits last =
    let over : leb (length pre + 5) (length (pre ++ [])) ≡ false =
      ground (arith, length-append pre []) in
    rw (over, decode_loop, append-nil out) refl
decode_loop-batch (suc fuel) pre (m ∷ ms) out h fits last =
    let len = length-frame m (batch ms) in
    let more : leb (length pre + 5) (length (pre ++ frame m (batch ms))) ≡ true =
      ground (arith, length-append pre (frame m (batch ms)), len, size_pos m) in
    let split : pre ++ frame m (batch ms) ≡ (pre ++ wire m) ++ batch ms =
      ap (λ t. pre ++ t) (frame-append m (batch ms)) ∙ sym (append_assoc pre (wire m) (batch ms)) in
    let at : length pre + size m ≡ length (pre ++ wire m) =
      omega (arith, length-append pre (wire m), length-frame m []) in
    let one = decode_frame-frame pre (batch ms) m fits.0 (λ id e. ap batch (last.0 id e)) in
    let rest =
      decode_loop-batch fuel (pre ++ wire m) ms (out ++ inbound m ∷ [])
        (omega (arith, size_pos m, len)) fits.1 last.1 in
    rw (more, decode_loop, one, split, at, rest, append_assoc out (inbound m ∷ []) (inbounds ms))
      refl

-- A payload of whole frames, an OPEN_ACK at most at its end, is read by the desktop client as its
-- messages, in order.
pub decode_inbound_frames-batch :
    (ms : List Message) → All Fits ms → AckLast ms → decode_inbound_frames (batch ms) ≡ inbounds ms
unfolding decode_inbound_frames
decode_inbound_frames-batch ms fits last =
    rw
      (
        decode_loop-batch (suc (length (batch ms))) [] ms [] (omega arith) fits last,
        decode_inbound_frames,
      )
      refl
