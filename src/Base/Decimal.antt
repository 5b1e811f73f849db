-- ===== src/Base/Decimal.antt =====
-- std::to_string of an unsigned number, and its inverse.
use Prim.Native.Nat.{ℕ, zero, suc, ◌+◌, ◌-◌, ◌*◌, ◌/◌, ◌%◌, ◌≤◌, ◌<◌}
use mathlib.Core.Path.{◌≡◌, refl, sym, ap, ◌∙◌}
use mathlib.Core.Logic.{inl, inr}
use mathlib.Core.List.{[], ◌∷◌, ◌++◌}
use native.Mathlib.Omega.{arith}
use ton_tunnel.Base.Tests.{ltb, ltb→lt, Bool-cases, if◌then◌else◌}
use ton_tunnel.Base.Lists.{Bytes, All, All-append}

decimal_digits : ℕ → ℕ → Bytes
decimal_digits zero n = []
decimal_digits (suc fuel) n =
    let rest = decimal_digits fuel (n / 10) ++ (48 + n % 10) ∷ [] in
    if ltb n 10 then (48 + n) ∷ [] else rest

unfoldable pub to_decimal : ℕ → Bytes
unfolding decimal_digits
to_decimal n = decimal_digits (suc n) n

unfoldable pub decimal_value : ℕ → Bytes → ℕ
decimal_value acc [] = acc
decimal_value acc (c ∷ cs) = decimal_value (acc * 10 + (c - 48)) cs

decimal_value-snoc :
    (acc c : ℕ) (cs : Bytes)
    → decimal_value acc (cs ++ c ∷ []) ≡ decimal_value acc cs * 10 + (c - 48)
unfolding decimal_value
decimal_value-snoc acc c [] = refl
decimal_value-snoc acc c (d ∷ cs) = decimal_value-snoc (acc * 10 + (d - 48)) c cs

decimal_value-digits : (fuel n : ℕ) → n < fuel → decimal_value 0 (decimal_digits fuel n) ≡ n
unfolding decimal_value decimal_digits
decimal_value-digits zero n h = elim h [ ]
decimal_value-digits (suc fuel) n h = elim (Bool-cases (ltb n 10)) [
  | inl small ↦ rw small (omega arith)
  | inr large ↦ rw (large, decimal_value-snoc) (ground (arith, decimal_value-digits fuel (n / 10)))
]

pub decimal_value-to_decimal : (n : ℕ) → decimal_value 0 (to_decimal n) ≡ n
unfolding to_decimal
decimal_value-to_decimal n = decimal_value-digits (suc n) n (omega arith)

pub to_decimal-injective : (m n : ℕ) → to_decimal m ≡ to_decimal n → m ≡ n
to_decimal-injective m n e =
    sym (decimal_value-to_decimal m) ∙ ap (decimal_value 0) e ∙ decimal_value-to_decimal n

abbrev pub IsDigit : ℕ → Type 0
IsDigit c = (48 ≤ c) × (c < 58)

decimal_digits-IsDigit : (fuel n : ℕ) → All IsDigit (decimal_digits fuel n)
unfolding decimal_digits
decimal_digits-IsDigit zero n = tt
decimal_digits-IsDigit (suc fuel) n = elim (Bool-cases (ltb n 10)) [
  | inl small ↦ rw small (omega (arith, ltb→lt))
  | inr large ↦
      rw large (All-append IsDigit _ _ (decimal_digits-IsDigit fuel (n / 10)) (omega arith))
]

pub to_decimal-IsDigit : (n : ℕ) → All IsDigit (to_decimal n)
unfolding to_decimal
to_decimal-IsDigit n = decimal_digits-IsDigit (suc n) n

snoc_cons : (xs : Bytes) (y : ℕ) → (c : ℕ) × (cs : Bytes) × (xs ++ y ∷ [] ≡ c ∷ cs)
snoc_cons [] y = (y, [], refl)
snoc_cons (x ∷ xs) y = (x, xs ++ y ∷ [], refl)

-- A number has a digit.
pub to_decimal_cons : (n : ℕ) → (c : ℕ) × (cs : Bytes) × (to_decimal n ≡ c ∷ cs)
unfolding to_decimal decimal_digits
to_decimal_cons n = elim (Bool-cases (ltb n 10)) [
  | inl small ↦ rw small (48 + n, [], refl)
  | inr large ↦ rw large (snoc_cons (decimal_digits n (n / 10)) (48 + n % 10))
]
