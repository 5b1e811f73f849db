-- ===== src/Base/Text.antt =====
-- Operations of std::string on the bytes of a text.
use Prim.Native.Nat.{ℕ, suc}
use mathlib.Core.Bool.{Bool, true, false, ◌&&◌, ◌||◌}
use mathlib.Core.List.{List, [], ◌∷◌}
use mathlib.Core.Option.{Option, none, some}
use ton_tunnel.Base.Tests.{leb, ◌==◌, if◌then◌else◌}
use ton_tunnel.Base.Lists.{Bytes}

-- An int of the C++ code; `negsuc n` is -(n + 1).
pub data ℤ : Type 0 where
  pos : ℕ → ℤ
  negsuc : ℕ → ℤ

abbrev pub is_nil {ℓ} : {A : Type ℓ} → List A → Bool
is_nil [] = true
is_nil (x ∷ xs) = false

-- s.find(c), the place of the first c
unfoldable pub find : ℕ → Bytes → Option ℕ
find c [] = none
find c (x ∷ xs) = elim (x == c) [
  | true ↦ some 0
  | false ↦ elim (find c xs) [ none ↦ none | some i ↦ some (suc i) ]
]

-- std::isspace in the C locale
unfoldable pub is_space : ℕ → Bool
is_space c = (c == b' ') || (leb 9 c && leb c 13)

-- pop_back while the last byte is a space
unfoldable pub trim_back : Bytes → Bytes
trim_back [] = []
trim_back (x ∷ xs) = elim (trim_back xs) [
  | [] ↦ if is_space x then [] else x ∷ []
  | y ∷ ys ↦ x ∷ y ∷ ys
]

-- the index that moves over the leading spaces, and substr from there
unfoldable pub trim_front : Bytes → Bytes
trim_front [] = []
trim_front (x ∷ xs) = elim (is_space x) [ true ↦ trim_front xs | false ↦ x ∷ xs ]
