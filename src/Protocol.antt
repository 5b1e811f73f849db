-- ===== src/Protocol.antt =====
-- ton-egress-node/include/protocol.hpp and src/protocol.cpp: the egress node's codec. size_t sums
-- of lengths stay far below 2 ^ 64 and are plain numbers.
pub mod Fields
use ton_tunnel.Base.{
  ℕ, ◌+◌, ◌%◌, ◌^◌, [], ◌∷◌, ◌++◌, Option, none, some, Bytes, length, take, drop, get_or, ltb, ◌==◌,
  if◌then◌else◌, u16, u32, u8,
}
use ton_tunnel.Wire.{read_u16, read_u32, write_u16, write_u32}

-- `unnamed` is the enum's value after a cast of a byte that has no enumerator.
pub data MessageType : Type 0 where
  open_type data_type close_type error_type : MessageType
  unnamed : ℕ → MessageType

pub record OpenMessage : Type 0 where
  pub stream_id : ℕ
  pub host : Bytes
  pub port : ℕ
  pub token : Bytes

pub record DataMessage : Type 0 where
  pub stream_id : ℕ
  pub payload : Bytes

pub record CloseMessage : Type 0 where
  pub stream_id : ℕ

pub record ErrorMessage : Type 0 where
  pub stream_id : ℕ
  pub message : Bytes

-- The fields `open`, `data`, `close` and `error`.
pub record DecodedMessage : Type 0 where
  pub type : MessageType
  pub open_part : Option OpenMessage
  pub data_part : Option DataMessage
  pub close_part : Option CloseMessage
  pub error_part : Option ErrorMessage

-- static_cast<MessageType>(byte)
unfoldable pub message_type : ℕ → MessageType
message_type b =
    if b == 1
    then open_type
    else if b == 2
    then data_type
    else if b == 3
    then close_type
    else if b == 4
    then error_type
    else unnamed b

abbrev pub with_type : MessageType → DecodedMessage
with_type t = record {
  type = t;
  open_part = none;
  data_part = none;
  close_part = none;
  error_part = none;
}

-- The three branches with a body, from `cursor = 5` on.
unfoldable pub decode_open : Bytes → ℕ → Option OpenMessage
decode_open input stream_id =
    if ltb (length input) (5 + 2)
    then none
    else let host_len = read_u16 (drop 5 input) in
      if ltb (length input) (7 + host_len + 2 + 2)
      then none
      else let host = take host_len (drop 7 input) in
        let port = read_u16 (drop (7 + host_len) input) in
        let token_len = read_u16 (drop (9 + host_len) input) in
        if ltb (length input) (11 + host_len + token_len)
        then none
        else some (record {
          stream_id = stream_id;
          host = host;
          port = port;
          token = take token_len (drop (11 + host_len) input);
        })

unfoldable pub decode_data : Bytes → ℕ → Option DataMessage
decode_data input stream_id =
    if ltb (length input) (5 + 4)
    then none
    else let payload_len = read_u32 (drop 5 input) in
      if ltb (length input) (9 + payload_len)
      then none
      else some (record { stream_id = stream_id; payload = take payload_len (drop 9 input) })

unfoldable pub decode_error : Bytes → ℕ → Option ErrorMessage
decode_error input stream_id =
    if ltb (length input) (5 + 2)
    then none
    else let msg_len = read_u16 (drop 5 input) in
      if ltb (length input) (7 + msg_len)
      then none
      else some (record { stream_id = stream_id; message = take msg_len (drop 7 input) })

unfoldable pub decode_body : MessageType → Bytes → ℕ → Option DecodedMessage
decode_body open_type input id = elim (decode_open input id) [
  | none ↦ none
  | some m ↦ some (record (with_type open_type) { open_part = some m })
]
decode_body data_type input id = elim (decode_data input id) [
  | none ↦ none
  | some m ↦ some (record (with_type data_type) { data_part = some m })
]
decode_body close_type input id =
    some (record (with_type close_type) { close_part = some (record { stream_id = id }) })
decode_body error_type input id = elim (decode_error input id) [
  | none ↦ none
  | some m ↦ some (record (with_type error_type) { error_part = some m })
]
decode_body (unnamed b) input id = none

unfoldable pub decode_message : Bytes → Option DecodedMessage
decode_message input =
    if ltb (length input) 5
    then none
    else decode_body (message_type (get_or input 0 0)) input (read_u32 (drop 1 input))

-- The node's OPEN_ACK: the header alone.
unfoldable pub encode_open : CloseMessage → Bytes
encode_open msg = write_u32 (1 ∷ []) msg.stream_id

unfoldable pub encode_data : DataMessage → Bytes
encode_data msg =
    write_u32 (write_u32 (2 ∷ []) msg.stream_id) (u32 (length msg.payload)) ++ msg.payload

unfoldable pub encode_error : ErrorMessage → Bytes
encode_error msg =
    write_u16 (write_u32 (4 ∷ []) msg.stream_id) (u16 (length msg.message)) ++ msg.message

unfoldable pub encode_close : CloseMessage → Bytes
encode_close msg = write_u32 (3 ∷ []) msg.stream_id
