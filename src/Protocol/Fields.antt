-- ===== src/Protocol/Fields.antt =====
-- The bodies that `decode_message` of ton-egress-node/src/protocol.cpp reads, field by field. A
-- frame is a header of five bytes and a body; whatever stands behind the frame is not looked at.
use ton_tunnel.Base.{
  ℕ, ◌+◌, ◌^◌, ◌<◌, ◌≡◌, refl, sym, ap, ◌∙◌, ◌∷◌, ◌++◌, some, Bytes, length, length-append,
  drop-append, take-append, drop-drop, drop, arith,
}
use ton_tunnel.Wire.{
  digits_u16, digits_u32, read_u16-digits, read_u32-digits, length-digits_u16, length-digits_u32,
}
use ton_tunnel.Protocol.{decode_open, decode_data, decode_error}

-- A length field followed by that many bytes, with more behind.
abbrev pub field16 : Bytes → Bytes → Bytes
field16 xs rest = digits_u16 (length xs) ++ (xs ++ rest)

abbrev pub field32 : Bytes → Bytes → Bytes
field32 xs rest = digits_u32 (length xs) ++ (xs ++ rest)

pub drop-field16 : (v : ℕ) (p : Bytes) → drop 2 (digits_u16 v ++ p) ≡ p
drop-field16 v p = drop-append (digits_u16 v) p 2 (sym (length-digits_u16 v))

pub drop-field32 : (v : ℕ) (p : Bytes) → drop 4 (digits_u32 v ++ p) ≡ p
drop-field32 v p = drop-append (digits_u32 v) p 4 (sym (length-digits_u32 v))

module _ (t a b c d id : ℕ) (xs rest : Bytes) where
  pub decode_data-field :
      length xs < 2 ^ 32
      → decode_data (t ∷ a ∷ b ∷ c ∷ d ∷ field32 xs rest) id
        ≡ some (record { stream_id = id; payload = xs })
  unfolding decode_data
  decode_data-field h = ground (
    arith,
    read_u32-digits (length xs) (xs ++ rest) h,
    drop-field32 (length xs) (xs ++ rest),
    take-append xs rest (length xs) refl,
    length-append (digits_u32 (length xs)) (xs ++ rest),
    length-append xs rest,
    length-digits_u32 (length xs),
  )

  pub decode_error-field :
      length xs < 2 ^ 16
      → decode_error (t ∷ a ∷ b ∷ c ∷ d ∷ field16 xs rest) id
        ≡ some (record { stream_id = id; message = xs })
  unfolding decode_error
  decode_error-field h = ground (
    arith,
    read_u16-digits (length xs) (xs ++ rest) h,
    drop-field16 (length xs) (xs ++ rest),
    take-append xs rest (length xs) refl,
    length-append (digits_u16 (length xs)) (xs ++ rest),
    length-append xs rest,
    length-digits_u16 (length xs),
  )

-- The same for the three fields of an OPEN body.
module _ (t a b c d id port : ℕ) (host token rest : Bytes) where
  abbrev pub open_tail : Bytes
  open_tail = digits_u16 port ++ field16 token rest

  abbrev pub open_frame : Bytes
  open_frame = t ∷ a ∷ b ∷ c ∷ d ∷ field16 host open_tail

  pub drop-host : drop (7 + length host) open_frame ≡ open_tail
  drop-host =
      let n = length host in
      sym (drop-drop 5 (2 + n) (7 + n) open_frame (omega arith))
      ∙ sym (drop-drop 2 n (2 + n) (field16 host open_tail) refl)
      ∙ ap (drop n) (drop-field16 n (host ++ open_tail))
      ∙ drop-append host open_tail n refl

  pub drop-port : drop (9 + length host) open_frame ≡ field16 token rest
  drop-port =
      let n = length host in
      sym (drop-drop (7 + n) 2 (9 + n) open_frame (omega arith))
      ∙ ap (drop 2) drop-host
      ∙ drop-field16 port (field16 token rest)

  pub drop-token_len : drop (11 + length host) open_frame ≡ token ++ rest
  drop-token_len =
      let n = length host in
      sym (drop-drop (9 + n) 2 (11 + n) open_frame (omega arith))
      ∙ ap (drop 2) drop-port
      ∙ drop-field16 (length token) (token ++ rest)

  pub length-open_frame : length open_frame ≡ 11 + length host + length token + length rest
  length-open_frame = omega (
    arith,
    length-append (digits_u16 (length host)) (host ++ open_tail),
    length-append host open_tail,
    length-append (digits_u16 port) (field16 token rest),
    length-append (digits_u16 (length token)) (token ++ rest),
    length-append token rest,
    length-digits_u16 (length host),
    length-digits_u16 port,
    length-digits_u16 (length token),
  )

  pub decode_open-fields :
      length host < 2 ^ 16
      → port < 2 ^ 16
      → length token < 2 ^ 16
      → decode_open open_frame id
        ≡ some (record { stream_id = id; host = host; port = port; token = token })
  unfolding decode_open
  decode_open-fields hh hp ht =
      let n = length host in
      let k = length token in
      rw (read_u16-digits n (host ++ open_tail) hh, drop-host, drop-port, drop-token_len)
        (ground (
          arith,
          length-open_frame,
          read_u16-digits port (field16 token rest) hp,
          read_u16-digits k (token ++ rest) ht,
          take-append token rest k refl,
          drop-field16 n (host ++ open_tail),
          take-append host open_tail n refl,
        ))
