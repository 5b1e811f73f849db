-- ===== src/Egress/Frames/Agree.antt =====
-- `tryGetFrameLength` (ton-egress-node/src/egress_node.cpp) and `decodeMessage`
-- (ton-egress-node/src/protocol.cpp) on arbitrary input: what the one cuts out the other decodes.
use ton_tunnel.Base.{
  ℕ, ◌+◌, ◌≤◌, ◌<◌, ◌≡◌, ◌≢◌, refl, sym, ap, ◌∙◌, Option, none, some, Bytes, length, length-take,
  length-drop, take, drop, drop-drop, get_or, get_or-take, get_or-drop, arith,
}
use ton_tunnel.Wire.{read_u16, read_u32, read_u16-take, read_u32-take}
use ton_tunnel.Protocol.{
  decode_open, decode_data, decode_error, decode_body, decode_message, message_type,
}
use ton_tunnel.Egress.Frames.{
  field_u16, field_u32, field_u16-read, field_u32-read, open_length, data_length, error_length,
  try_get_frame_length,
}

module _ (input : Bytes) (offset n : ℕ) where
  abbrev cut : Bytes
  cut = take n (drop offset input)

  length-cut : offset + n ≤ length input → length cut ≡ n
  length-cut h = omega (arith, length-take n (drop offset input), length-drop offset input)

  field_u16-cut : (k c : ℕ) → offset + k ≡ c → k + 2 ≤ n → read_u16 (drop k cut) ≡ field_u16 input c
  field_u16-cut k c at h =
      read_u16-take k n (drop offset input) h
      ∙ ap read_u16 (drop-drop offset k c input at)
      ∙ sym (field_u16-read input c)

  field_u32-cut : (k c : ℕ) → offset + k ≡ c → k + 4 ≤ n → read_u32 (drop k cut) ≡ field_u32 input c
  field_u32-cut k c at h =
      read_u32-take k n (drop offset input) h
      ∙ ap read_u32 (drop-drop offset k c input at)
      ∙ sym (field_u32-read input c)

  type-cut : 0 < n → get_or cut 0 0 ≡ get_or input offset 0
  type-cut h =
      get_or-take 0 n 0 (drop offset input) 0 h ∙ get_or-drop offset 0 offset input 0 (omega arith)

  abbrev Agrees {ℓ} : {A : Type ℓ} → Option A → Type ℓ
  Agrees r = (5 ≤ n) × (offset + n ≤ length input) × (r ≢ none)

  open-Agrees :
      (id : ℕ) → open_length input offset (offset + 5) ≡ some n → Agrees (decode_open cut id)
  unfolding open_length decode_open
  open-Agrees id h =
      let host_len = field_u16 input (offset + 5) in
      ground (
        arith,
        length-cut,
        field_u16-cut 5 (offset + 5) refl,
        field_u16-cut (9 + host_len) (offset + 5 + 2 + host_len + 2) (omega arith),
      )

  data-Agrees :
      (id : ℕ) → data_length input offset (offset + 5) ≡ some n → Agrees (decode_data cut id)
  unfolding data_length decode_data
  data-Agrees id h = ground (arith, length-cut, field_u32-cut 5 (offset + 5) refl)

  error-Agrees :
      (id : ℕ) → error_length input offset (offset + 5) ≡ some n → Agrees (decode_error cut id)
  unfolding error_length decode_error
  error-Agrees id h = ground (arith, length-cut, field_u16-cut 5 (offset + 5) refl)

  -- A frame that the length function accepts has a header, lies within the input, and decodes.
  pub framed-decodes :
      try_get_frame_length input offset ≡ some n
      → (5 ≤ n) × (offset + n ≤ length input) × (decode_message cut ≢ none)
  unfolding try_get_frame_length decode_message decode_body message_type
  framed-decodes h =
      let id = read_u32 (drop 1 cut) in
      ground (arith, open-Agrees id, data-Agrees id, error-Agrees id, length-cut, type-cut)
