-- ===== src/Adnl/Keys.antt =====
-- The private key's text in ton-egress-node/src/ton_adnl_backend.cpp.
use ton_tunnel.Base.{
  ℕ, ◌+◌, ◌-◌, ◌/◌, ◌%◌, ◌≤◌, ◌<◌, ◌≡◌, refl, ap, [], ◌∷◌, ◌++◌, some, Bytes, length, ltb, ◌==◌,
  if◌then◌else◌, AreBytes, bit_or-fields, arith,
}
use ton_tunnel.Adnl.{hex_to_int, hex_byte, decode_pairs, maybe_decode_hex, normalize_private_key}

-- The lower-case hexadecimal form of bytes.
unfoldable pub hex_digit : ℕ → ℕ
hex_digit d = if ltb d 10 then b'0' + d else b'a' + (d - 10)

unfoldable pub hex_encode : Bytes → Bytes
hex_encode [] = []
hex_encode (b ∷ bs) = hex_digit (b / 16) ∷ hex_digit (b % 16) ∷ hex_encode bs

hex_to_int-hex_digit : (d : ℕ) → d < 16 → hex_to_int (hex_digit d) ≡ some d
unfolding hex_to_int hex_digit
hex_to_int-hex_digit d h = ground arith

hex_byte-hex_digits :
    (b : ℕ) → b < 256 → hex_byte (hex_digit (b / 16)) (hex_digit (b % 16)) ≡ some b
unfolding hex_byte
hex_byte-hex_digits b h =
    rw
      (
        hex_to_int-hex_digit (b / 16) (omega arith),
        hex_byte,
        hex_to_int-hex_digit (b % 16) (omega arith),
        bit_or-fields 4 (b / 16) (b % 16) (omega arith),
      )
      (ap some (omega arith))

decode_pairs-hex_encode : (bs : Bytes) → AreBytes bs → decode_pairs (hex_encode bs) ≡ some bs
unfolding decode_pairs hex_encode
decode_pairs-hex_encode [] h = refl
decode_pairs-hex_encode (b ∷ bs) h =
    rw (hex_byte-hex_digits b h.0, decode_pairs, decode_pairs-hex_encode bs h.1) refl

-- The hexadecimal text of a non-empty key is imported as the key's bytes, behind the TL id if
-- there are 32 of them.
pub normalize_private_key-hex :
    (tl_id bs : Bytes)
    → AreBytes bs
    → 1 ≤ length bs
    → normalize_private_key tl_id (hex_encode bs) ≡ (if length bs == 32 then tl_id ++ bs else bs)
unfolding normalize_private_key maybe_decode_hex
normalize_private_key-hex tl_id [] h p = absurd (omega arith)
normalize_private_key-hex tl_id (b ∷ bs) h p =
    rw (decode_pairs-hex_encode (b ∷ bs) h, normalize_private_key) (ground arith)
