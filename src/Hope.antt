-- ===== src/Hope.antt =====
-- The frame formats of PROTOCOL.md (sections 2 to 4), as the codecs' specification: messages, their
-- bytes and their ranges, independent of either codec.
pub mod Server
pub mod Client
pub mod Inbound
use ton_tunnel.Base.{
  ℕ, ◌+◌, ◌^◌, ◌<◌, ◌≤◌, ◌≡◌, refl, [], ◌∷◌, ◌++◌, append_assoc, Bytes, length, length-append,
  arith, List,
}
use ton_tunnel.Wire.{digits_u16, digits_u32, length-digits_u16, length-digits_u32}
use ton_tunnel.Protocol.Fields.{field16, field32, length-open_frame}

pub data Message : Type 0 where
  open_request : (id : ℕ) (host : Bytes) (port : ℕ) (token : Bytes) → Message
  open_ack : (id : ℕ) → Message
  payload : (id : ℕ) (bytes : Bytes) → Message
  close : (id : ℕ) → Message
  failure : (id : ℕ) (message : Bytes) → Message

-- The frame of a message, with `rest` behind it.
unfoldable pub frame : Message → Bytes → Bytes
frame (open_request id host port token) rest =
    1 ∷ digits_u32 id ++ field16 host (digits_u16 port ++ field16 token rest)
frame (open_ack id) rest = 1 ∷ digits_u32 id ++ rest
frame (payload id bytes) rest = 2 ∷ digits_u32 id ++ field32 bytes rest
frame (close id) rest = 3 ∷ digits_u32 id ++ rest
frame (failure id message) rest = 4 ∷ digits_u32 id ++ field16 message rest

abbrev pub wire : Message → Bytes
wire m = frame m []

-- Frames one after another, as in one ADNL payload.
unfoldable pub batch : List Message → Bytes
batch [] = []
batch (m ∷ ms) = frame m (batch ms)

unfoldable pub size : Message → ℕ
size (open_request id host port token) = 11 + length host + length token
size (open_ack id) = 5
size (payload id bytes) = 9 + length bytes
size (close id) = 5
size (failure id message) = 7 + length message

-- Every number fits its field.
abbrev pub Fits : Message → Type 0
Fits (open_request id host port token) =
    (id < 2 ^ 32) × (length host < 2 ^ 16) × (port < 2 ^ 16) × (length token < 2 ^ 16)
Fits (open_ack id) = id < 2 ^ 32
Fits (payload id bytes) = (id < 2 ^ 32) × (length bytes < 2 ^ 32)
Fits (close id) = id < 2 ^ 32
Fits (failure id message) = (id < 2 ^ 32) × (length message < 2 ^ 16)

pub frame-append : (m : Message) (rest : Bytes) → frame m rest ≡ wire m ++ rest
unfolding frame digits_u32 digits_u16
frame-append (open_request id host port token) rest = simp append_assoc
frame-append (open_ack id) rest = refl
frame-append (payload id bytes) rest = simp append_assoc
frame-append (close id) rest = refl
frame-append (failure id message) rest = simp append_assoc

pub length-frame : (m : Message) (rest : Bytes) → length (frame m rest) ≡ size m + length rest
unfolding frame size digits_u32
length-frame (open_request id host port token) rest =
    omega (arith, length-open_frame 1 0 0 0 0 id port host token rest)
length-frame (open_ack id) rest = omega arith
length-frame (payload id bytes) rest = omega (arith, length-append bytes rest)
length-frame (close id) rest = omega arith
length-frame (failure id message) rest = omega (
  arith,
  length-append (digits_u16 (length message)) (message ++ rest),
  length-append message rest,
  length-digits_u16 (length message),
)

pub size_pos : (m : Message) → 5 ≤ size m
unfolding size
size_pos (open_request id host port token) = omega arith
size_pos (open_ack id) = omega arith
size_pos (payload id bytes) = omega arith
size_pos (close id) = omega arith
size_pos (failure id message) = omega arith
