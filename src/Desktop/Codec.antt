-- ===== src/Desktop/Codec.antt =====
-- TON-Tunnel/TonProtocol.hpp and TonProtocol.cpp: the desktop client's codec. The readers and
-- writers at its top are those of the module Wire.
use ton_tunnel.Base.{
  ℕ, zero, suc, ◌+◌, ◌-◌, List, [], ◌∷◌, ◌++◌, Option, none, some, Bytes, length, take, drop,
  get_or, ltb, leb, true, false, ◌==◌, if◌then◌else◌, u16, u32,
}
use ton_tunnel.Wire.{read_u16, read_u32, write_u16, write_u32}

-- `unnamed` is the enum's value after a cast of a byte that has no enumerator.
pub data FrameType : Type 0 where
  unknown open_type data_type close_type error_type : FrameType
  unnamed : ℕ → FrameType

pub record InboundFrame : Type 0 where
  pub type : FrameType
  pub stream_id : ℕ
  pub payload : Bytes
  pub error_message : Bytes
  pub raw_frame : Bytes

-- static_cast<FrameType>(byte)
unfoldable pub frame_type : ℕ → FrameType
frame_type b =
    if b == 0
    then unknown
    else if b == 1
    then open_type
    else if b == 2
    then data_type
    else if b == 3
    then close_type
    else if b == 4
    then error_type
    else unnamed b

unfoldable pub encode_open_frame : ℕ → Bytes → ℕ → Bytes → Bytes
encode_open_frame stream_id host port token =
    let out = write_u32 (1 ∷ []) stream_id in
    let out = write_u16 out (u16 (length host)) ++ host in
    let out = write_u16 out port in write_u16 out (u16 (length token)) ++ token

unfoldable pub encode_open_ack_frame : ℕ → Bytes
encode_open_ack_frame stream_id = write_u32 (1 ∷ []) stream_id

unfoldable pub encode_data_frame : ℕ → Bytes → Bytes
encode_data_frame stream_id payload =
    write_u32 (write_u32 (2 ∷ []) stream_id) (u32 (length payload)) ++ payload

unfoldable pub encode_close_frame : ℕ → Bytes
encode_close_frame stream_id = write_u32 (3 ∷ []) stream_id

unfoldable pub encode_error_frame : ℕ → Bytes → Bytes
encode_error_frame stream_id message =
    write_u16 (write_u32 (4 ∷ []) stream_id) (u16 (length message)) ++ message

-- The OPEN case: the cursor behind a whole request body, or the cursor as it was.
unfoldable pub skip_open_body : Bytes → ℕ → ℕ
skip_open_body bytes cursor =
    let host_len = read_u16 (drop cursor bytes) in
    let behind_port = cursor + 2 + host_len + 2 in
    let token_len = read_u16 (drop behind_port bytes) in
    let behind_token = behind_port + 2 + token_len in
    if leb (cursor + 2) (length bytes)
    then if leb (cursor + 2 + host_len + 2 + 2) (length bytes)
      then if leb behind_token (length bytes) then behind_token else cursor
      else cursor
    else cursor

abbrev pub new_frame : FrameType → ℕ → InboundFrame
new_frame t id = record {
  type = t;
  stream_id = id;
  payload = [];
  error_message = [];
  raw_frame = [];
}

-- The switch: the frame without its raw bytes, and the cursor behind it; `none` is `return {}`.
unfoldable pub decode_body : FrameType → ℕ → Bytes → ℕ → Option (InboundFrame × ℕ)
decode_body open_type id bytes cursor = some (new_frame open_type id, skip_open_body bytes cursor)
decode_body close_type id bytes cursor = some (new_frame close_type id, cursor)
decode_body data_type id bytes cursor =
    if ltb (length bytes) (cursor + 4)
    then none
    else let payload_len = read_u32 (drop cursor bytes) in
      let behind_len = cursor + 4 in
      if ltb (length bytes) (behind_len + payload_len)
      then none
      else some (
        record (new_frame data_type id) { payload = take payload_len (drop behind_len bytes) },
        behind_len + payload_len,
      )
decode_body error_type id bytes cursor =
    if ltb (length bytes) (cursor + 2)
    then none
    else let msg_len = read_u16 (drop cursor bytes) in
      let behind_len = cursor + 2 in
      if ltb (length bytes) (behind_len + msg_len)
      then none
      else some (
        record (new_frame error_type id) { error_message = take msg_len (drop behind_len bytes) },
        behind_len + msg_len,
      )
decode_body unknown id bytes cursor = none
decode_body (unnamed b) id bytes cursor = none

-- One round of the loop: the frame at the cursor with its raw bytes, and the next cursor.
unfoldable pub decode_frame : Bytes → ℕ → Option (InboundFrame × ℕ)
decode_frame bytes start =
    elim (decode_body (frame_type (get_or bytes start 0)) (read_u32 (drop (start + 1) bytes)) bytes
      (start + 5)) [
        | none ↦ none
        | some (f, cursor) ↦
            some (record f { raw_frame = take (cursor - start) (drop start bytes) }, cursor)
      ]

-- The while loop, on fuel; the outer `none` means that the fuel ran out.
unfoldable pub decode_loop : ℕ → Bytes → ℕ → List InboundFrame → Option (List InboundFrame)
decode_loop zero bytes cursor out = none
decode_loop (suc fuel) bytes cursor out = elim (leb (cursor + 5) (length bytes)) [
  | false ↦ some out
  | true ↦ elim (decode_frame bytes cursor) [
    | none ↦ some []
    | some (f, next) ↦ decode_loop fuel bytes next (out ++ f ∷ [])
  ]
]

-- Every round moves the cursor on, so the buffer's length is fuel enough.
unfoldable pub decode_inbound_frames : Bytes → List InboundFrame
decode_inbound_frames bytes = elim (decode_loop (suc (length bytes)) bytes 0 []) [
  | none ↦ []
  | some frames ↦ frames
]
