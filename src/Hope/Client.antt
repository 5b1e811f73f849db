-- ===== src/Hope/Client.antt =====
-- The encoders of the desktop client's codec (TON-Tunnel/TonProtocol.cpp) against the frame formats.
use ton_tunnel.Base.{
  ℕ, ◌%◌, ◌^◌, ◌<◌, ◌≡◌, [], ◌∷◌, ◌++◌, append-nil, append_assoc, Bytes, length, arith,
}
use ton_tunnel.Wire.{write_u16-digits, write_u32-digits, digits_u32, digits_u16}
use ton_tunnel.Desktop.Codec.{
  encode_open_frame, encode_open_ack_frame, encode_data_frame, encode_close_frame,
  encode_error_frame,
}
use ton_tunnel.Hope.{open_request, open_ack, payload, close, failure, frame, wire}

-- The desktop client's OPEN is in the documented format, for a host and a token of less than 65536
-- bytes.
pub encode_open_frame-wire :
    (id : ℕ) (host : Bytes) (port : ℕ) (token : Bytes)
    → length host < 2 ^ 16
    → length token < 2 ^ 16
    → encode_open_frame id host port token ≡ wire (open_request id host port token)
unfolding encode_open_frame frame
encode_open_frame-wire id host port token hh ht =
    let eh : length host % 2 ^ 16 ≡ length host = omega arith in
    let et : length token % 2 ^ 16 ≡ length token = omega arith in
    let head = (1 ∷ digits_u32 id) ++ digits_u16 (length host) ++ host in
    rw
      (
        eh,
        et,
        write_u32-digits (1 ∷ []) id,
        write_u16-digits (1 ∷ digits_u32 id) (length host),
        write_u16-digits head port,
        write_u16-digits (head ++ digits_u16 port) (length token),
      )
      (simp (append_assoc, append-nil))

pub encode_open_ack_frame-wire : (id : ℕ) → encode_open_ack_frame id ≡ wire (open_ack id)
unfolding encode_open_ack_frame frame digits_u32
encode_open_ack_frame-wire id = write_u32-digits (1 ∷ []) id

pub encode_close_frame-wire : (id : ℕ) → encode_close_frame id ≡ wire (close id)
unfolding encode_close_frame frame digits_u32
encode_close_frame-wire id = write_u32-digits (3 ∷ []) id

pub encode_data_frame-wire :
    (id : ℕ) (bytes : Bytes)
    → length bytes < 2 ^ 32
    → encode_data_frame id bytes ≡ wire (payload id bytes)
unfolding encode_data_frame frame
encode_data_frame-wire id bytes h =
    let e : length bytes % 2 ^ 32 ≡ length bytes = omega arith in
    rw (e, write_u32-digits (2 ∷ []) id, write_u32-digits (2 ∷ digits_u32 id) (length bytes))
      (simp (append_assoc, append-nil))

pub encode_error_frame-wire :
    (id : ℕ) (text : Bytes)
    → length text < 2 ^ 16
    → encode_error_frame id text ≡ wire (failure id text)
unfolding encode_error_frame frame
encode_error_frame-wire id text h =
    let e : length text % 2 ^ 16 ≡ length text = omega arith in
    rw (e, write_u32-digits (4 ∷ []) id, write_u16-digits (4 ∷ digits_u32 id) (length text))
      (simp (append_assoc, append-nil))
