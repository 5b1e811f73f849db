-- ===== src/Base/Chunks.antt =====
-- A buffer cut into chunks of a size, as the senders cut it.
use Prim.Native.Nat.{ℕ, ◌+◌, ◌-◌, ◌≤◌, ◌<◌, min}
use native.Mathlib.Omega.{arith}
use mathlib.Core.Path.{◌≡◌, refl, sym}
use mathlib.Core.Logic.{inl, inr}
use mathlib.Core.List.{List, [], ◌∷◌, ◌++◌, append-nil}
use ton_tunnel.Base.Tests.{ltb, Bool-cases}
use ton_tunnel.Base.Lists.{
  Bytes, length, take, drop, drop-drop, drop_all, take_all, take-append-drop, length-take,
  length-drop,
}

-- The chunks, one after another.
unfoldable pub join : List Bytes → Bytes
join [] = []
join (c ∷ cs) = c ++ join cs

unfoldable pub chunk_at : ℕ → Bytes → ℕ → Bytes
chunk_at size buf offset = take (min size (length buf - offset)) (drop offset buf)

pub chunk_at-rest :
    (size : ℕ) (buf : Bytes) (offset : ℕ)
    → offset < length buf
    → chunk_at size buf offset ++ drop (offset + size) buf ≡ drop offset buf
unfolding chunk_at
chunk_at-rest size buf offset h = elim (Bool-cases (ltb size (length buf - offset))) [
  | inl more ↦
      let full : min size (length buf - offset) ≡ size = ground (arith, more) in
      rw (full, sym (drop-drop offset size (offset + size) buf refl))
        (take-append-drop size (drop offset buf))
  | inr last ↦
      let short : min size (length buf - offset) ≡ length buf - offset = ground (arith, last) in
      let fits : length buf ≤ offset + size = ground (arith, last) in
      rw
        (
          short,
          drop_all (offset + size) buf fits,
          take_all (length buf - offset) (drop offset buf) (omega (arith, length-drop offset buf)),
        )
        (append-nil (drop offset buf))
]

pub chunk_at-sizes :
    (size : ℕ) (buf : Bytes) (offset : ℕ)
    → 1 ≤ size
    → offset < length buf
    → (1 ≤ length (chunk_at size buf offset)) × (length (chunk_at size buf offset) ≤ size)
unfolding chunk_at
chunk_at-sizes size buf offset p h =
    ground (
      arith,
      length-take (min size (length buf - offset)) (drop offset buf),
      length-drop offset buf,
    )
