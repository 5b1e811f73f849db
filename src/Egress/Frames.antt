-- ===== src/Egress/Frames.antt =====
-- `tryGetFrameLength` of ton-egress-node/src/egress_node.cpp: the length of the frame at an offset.
pub mod Split
pub mod Agree
use ton_tunnel.Base.{
  ℕ, ◌+◌, ◌-◌, ◌*◌, ◌^◌, bit_or, ◌≡◌, sym, ap, ◌∙◌, ◌++◌, Option, none, some, Bytes, length, get_or,
  ltb, ◌==◌, if◌then◌else◌, u16, u32, drop, get_or-drop, drop-past, arith,
}
use ton_tunnel.Wire.{read_u16, read_u32}

-- The two inlined big-endian reads.
pub field_u16 : Bytes → ℕ → ℕ
field_u16 input cursor = u16 (bit_or (get_or input cursor 0 * 2 ^ 8) (get_or input (cursor + 1) 0))

pub field_u32 : Bytes → ℕ → ℕ
field_u32 input cursor =
    bit_or
      (bit_or
        (bit_or (u32 (get_or input cursor 0 * 2 ^ 24)) (u32 (get_or input (cursor + 1) 0 * 2 ^ 16)))
        (u32 (get_or input (cursor + 2) 0 * 2 ^ 8)))
      (get_or input (cursor + 3) 0)

unfoldable pub open_length : Bytes → ℕ → ℕ → Option ℕ
open_length input offset cursor =
    let host_len = field_u16 input cursor in
    let behind_host = cursor + 2 + host_len + 2 in
    let token_len = field_u16 input behind_host in
    if ltb (length input) (cursor + 2)
    then none
    else if ltb (length input) (cursor + 2 + host_len + 2 + 2)
    then none
    else if ltb (length input) (behind_host + 2 + token_len)
    then none
    else some (behind_host + 2 + token_len - offset)

unfoldable pub data_length : Bytes → ℕ → ℕ → Option ℕ
data_length input offset cursor =
    let payload_len = field_u32 input cursor in
    if ltb (length input) (cursor + 4)
    then none
    else if ltb (length input) (cursor + 4 + payload_len)
    then none
    else some (cursor + 4 + payload_len - offset)

unfoldable pub error_length : Bytes → ℕ → ℕ → Option ℕ
error_length input offset cursor =
    let msg_len = field_u16 input cursor in
    if ltb (length input) (cursor + 2)
    then none
    else if ltb (length input) (cursor + 2 + msg_len)
    then none
    else some (cursor + 2 + msg_len - offset)

-- `none` is the answer false; outLen is not read then.
unfoldable pub try_get_frame_length : Bytes → ℕ → Option ℕ
try_get_frame_length input offset =
    let type = get_or input offset 0 in
    let cursor = offset + 5 in
    if ltb (length input) (offset + 5)
    then none
    else if type == 1
    then open_length input offset cursor
    else if type == 2
    then data_length input offset cursor
    else if type == 3
    then some 5
    else if type == 4
    then error_length input offset cursor
    else none

pub field_u16-read : (input : Bytes) (c : ℕ) → field_u16 input c ≡ read_u16 (drop c input)
unfolding field_u16 read_u16
field_u16-read input c =
    rw (get_or-drop c 0 c input 0 (omega arith), get_or-drop c 1 (c + 1) input 0 (omega arith))

pub field_u32-read : (input : Bytes) (c : ℕ) → field_u32 input c ≡ read_u32 (drop c input)
unfolding field_u32 read_u32
field_u32-read input c = rw (
  get_or-drop c 0 c input 0 (omega arith),
  get_or-drop c 1 (c + 1) input 0 (omega arith),
  get_or-drop c 2 (c + 2) input 0 (omega arith),
  get_or-drop c 3 (c + 3) input 0 (omega arith),
)

-- The fields of what stands behind a prefix.
module _ (pre ys : Bytes) (k n : ℕ) (at : length pre + k ≡ n) where
  pub field_u16-past : field_u16 (pre ++ ys) n ≡ read_u16 (drop k ys)
  field_u16-past = field_u16-read (pre ++ ys) n ∙ ap read_u16 (drop-past pre ys k n at)

  pub field_u32-past : field_u32 (pre ++ ys) n ≡ read_u32 (drop k ys)
  field_u32-past = field_u32-read (pre ++ ys) n ∙ ap read_u32 (drop-past pre ys k n at)
