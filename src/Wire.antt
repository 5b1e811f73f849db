-- ===== src/Wire.antt =====
-- The big-endian readers and writers at the top of ton-egress-node/src/protocol.cpp, which
-- TON-Tunnel/TonProtocol.cpp repeats word for word. A pointer into a buffer is the buffer's suffix.
use ton_tunnel.Base.{
  ℕ, ◌+◌, ◌*◌, ◌/◌, ◌%◌, ◌^◌, ◌≤◌, ◌<◌, bit_and, bit_or, ◌≡◌, refl, ap, ◌∙◌, [], ◌∷◌, ◌++◌, arith,
  Bytes, get_or, take, drop, length, u8, u16, u32, AreBytes, append_assoc, get_or-take,
  bit_or-fields, bit_and-mask,
}

unfoldable pub read_u16 : Bytes → ℕ
read_u16 p = u16 (bit_or (get_or p 0 0 * 2 ^ 8) (get_or p 1 0))

unfoldable pub read_u32 : Bytes → ℕ
read_u32 p =
    bit_or
      (bit_or (bit_or (u32 (get_or p 0 0 * 2 ^ 24)) (u32 (get_or p 1 0 * 2 ^ 16)))
        (u32 (get_or p 2 0 * 2 ^ 8)))
      (get_or p 3 0)

unfoldable pub write_u16 : Bytes → ℕ → Bytes
write_u16 out v = (out ++ u8 (bit_and (v / 2 ^ 8) 0xff) ∷ []) ++ u8 (bit_and v 0xff) ∷ []

unfoldable pub write_u32 : Bytes → ℕ → Bytes
write_u32 out v =
    (((out ++ u8 (bit_and (v / 2 ^ 24) 0xff) ∷ []) ++ u8 (bit_and (v / 2 ^ 16) 0xff) ∷ [])
      ++ u8 (bit_and (v / 2 ^ 8) 0xff) ∷ [])
    ++ u8 (bit_and v 0xff) ∷ []

-- On bytes the readers are sums.
pub read_u16-sum : (a b : ℕ) (p : Bytes) → a < 256 → b < 256 → read_u16 (a ∷ b ∷ p) ≡ a * 256 + b
unfolding read_u16
read_u16-sum a b p ha hb = omega (arith, bit_or-fields 8 a b hb)

pub read_u32-sum :
    (a b c d : ℕ) (p : Bytes)
    → a < 256
    → b < 256
    → c < 256
    → d < 256
    → read_u32 (a ∷ b ∷ c ∷ d ∷ p) ≡ ((a * 256 + b) * 256 + c) * 256 + d
unfolding read_u32
read_u32-sum a b c d p ha hb hc hd =
    let ea : a * 2 ^ 24 % 2 ^ 32 ≡ a * 256 * 2 ^ 16 = omega arith in
    let eb : b * 2 ^ 16 % 2 ^ 32 ≡ b * 2 ^ 16 = omega arith in
    let ec : c * 2 ^ 8 % 2 ^ 32 ≡ c * 2 ^ 8 = omega arith in
    let e1 : bit_or (a * 256 * 2 ^ 16) (b * 2 ^ 16) ≡ (a * 256 + b) * 256 * 2 ^ 8 =
      ap (λ t. bit_or t (b * 2 ^ 16)) (omega arith)
      ∙ bit_or-fields 24 a (b * 2 ^ 16) (omega arith)
      ∙ omega arith in
    let e2 : bit_or ((a * 256 + b) * 256 * 2 ^ 8) (c * 2 ^ 8) ≡ ((a * 256 + b) * 256 + c) * 2 ^ 8 =
      ap (λ t. bit_or t (c * 2 ^ 8)) (omega arith)
      ∙ bit_or-fields 16 (a * 256 + b) (c * 2 ^ 8) (omega arith)
      ∙ omega arith in
    rw (ea, eb, ec, e1, e2)
      (bit_or-fields 8 ((a * 256 + b) * 256 + c) d (omega arith) ∙ omega arith)

byte_of : (v : ℕ) → u8 (bit_and v 0xff) ≡ v % 256
byte_of v = omega (arith, bit_and-mask 8 v)

-- What the writers append, as digits to the base 256.
unfoldable pub digits_u16 : ℕ → Bytes
digits_u16 v = (v / 256 % 256) ∷ (v % 256) ∷ []

unfoldable pub digits_u32 : ℕ → Bytes
digits_u32 v = (v / 16777216 % 256) ∷ (v / 65536 % 256) ∷ (v / 256 % 256) ∷ (v % 256) ∷ []

pub write_u16-digits : (out : Bytes) (v : ℕ) → write_u16 out v ≡ out ++ digits_u16 v
unfolding write_u16 digits_u16
write_u16-digits out v = rw (byte_of (v / 2 ^ 8), byte_of v) (simp append_assoc)

pub write_u32-digits : (out : Bytes) (v : ℕ) → write_u32 out v ≡ out ++ digits_u32 v
unfolding write_u32 digits_u32
write_u32-digits out v =
    rw (byte_of (v / 2 ^ 24), byte_of (v / 2 ^ 16), byte_of (v / 2 ^ 8), byte_of v)
      (simp append_assoc)

pub length-digits_u16 : (v : ℕ) → length (digits_u16 v) ≡ 2
unfolding digits_u16
length-digits_u16 v = refl

pub length-digits_u32 : (v : ℕ) → length (digits_u32 v) ≡ 4
unfolding digits_u32
length-digits_u32 v = refl

pub digits_u16-AreBytes : (v : ℕ) → AreBytes (digits_u16 v)
unfolding digits_u16
digits_u16-AreBytes v = omega arith

pub digits_u32-AreBytes : (v : ℕ) → AreBytes (digits_u32 v)
unfolding digits_u32
digits_u32-AreBytes v = omega arith

-- A reader at what a writer appended gives the value back.
pub read_u16-digits : (v : ℕ) (p : Bytes) → v < 2 ^ 16 → read_u16 (digits_u16 v ++ p) ≡ v
unfolding digits_u16
read_u16-digits v p h = read_u16-sum _ _ p (omega arith) (omega arith) ∙ omega arith

pub read_u32-digits : (v : ℕ) (p : Bytes) → v < 2 ^ 32 → read_u32 (digits_u32 v ++ p) ≡ v
unfolding digits_u32
read_u32-digits v p h =
    read_u32-sum _ _ _ _ p (omega arith) (omega arith) (omega arith) (omega arith) ∙ omega arith

-- A reader looks at the two or four bytes at its pointer only.
pub read_u16-take :
    (c n : ℕ) (xs : Bytes) → c + 2 ≤ n → read_u16 (drop c (take n xs)) ≡ read_u16 (drop c xs)
unfolding read_u16
read_u16-take c n xs h =
    rw (get_or-take c n 0 xs 0 (omega arith), get_or-take c n 1 xs 0 (omega arith))

pub read_u32-take :
    (c n : ℕ) (xs : Bytes) → c + 4 ≤ n → read_u32 (drop c (take n xs)) ≡ read_u32 (drop c xs)
unfolding read_u32
read_u32-take c n xs h = rw (
  get_or-take c n 0 xs 0 (omega arith),
  get_or-take c n 1 xs 0 (omega arith),
  get_or-take c n 2 xs 0 (omega arith),
  get_or-take c n 3 xs 0 (omega arith),
)

-- A reader never exceeds its width.
pub read_u16-lt : (p : Bytes) → read_u16 p < 2 ^ 16
unfolding read_u16
read_u16-lt p = omega arith
