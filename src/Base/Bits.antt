-- ===== src/Base/Bits.antt =====
-- `|` of disjoint fields and `&` with a mask, as the arithmetic that the tactics read. A shift by
-- k is written `* 2 ^ k` or `/ 2 ^ k`, a cast to w bits `% 2 ^ w`.
use Prim.Native.Nat.{
  ℕ, zero, suc, ◌+◌, ◌-◌, ◌*◌, ◌/◌, ◌%◌, ◌^◌, ◌≤◌, ◌<◌, min, max, bit_and, bit_or, digits,
  bit_and-bitwise, bit_or-bitwise,
}
use mathlib.Core.Path.{◌≡◌, refl, ap}
use native.Mathlib.Nat.{pow-suc, one-le-pow, mul_comm, div-add-mod', div-div-eq-div-mul}
use native.Mathlib.Omega.{arith}

abbrev pub u8 : ℕ → ℕ
u8 n = n % 2 ^ 8

abbrev pub u16 : ℕ → ℕ
u16 n = n % 2 ^ 16

abbrev pub u32 : ℕ → ℕ
u32 n = n % 2 ^ 32

-- The native operations go through the digits on a count of rounds; any count that covers the
-- first number gives the same.
module _ (base : ℕ → ℕ) (combine : ℕ → ℕ → ℕ) where
  same_digits :
      (x y i j : ℕ) → x ≤ i → x ≤ j → digits base combine i x y ≡ digits base combine j x y
  same_digits zero y zero zero hi hj = refl
  same_digits zero y zero (suc j) hi hj = refl
  same_digits zero y (suc i) zero hi hj = refl
  same_digits zero y (suc i) (suc j) hi hj = refl
  same_digits (suc x) y zero j hi hj = absurd (omega arith)
  same_digits (suc x) y (suc i) zero hi hj = absurd (omega arith)
  same_digits (suc x) y (suc i) (suc j) hi hj =
      let half = same_digits (suc x / 2) (y / 2) i j (omega arith) (omega arith) in
      omega (arith, half)

bit_or_digit : (a b : ℕ) → bit_or a b ≡ bit_or (a / 2) (b / 2) * 2 + max (a % 2) (b % 2)
bit_or_digit zero b =
    let whole = bit_or-bitwise 0 b in
    let half = bit_or-bitwise 0 (b / 2) in omega (arith, whole, half)
bit_or_digit (suc a) b =
    let whole = bit_or-bitwise (suc a) b in
    let half = bit_or-bitwise (suc a / 2) (b / 2) in
    let same =
      same_digits (λ y. y) max (suc a / 2) (b / 2) a (suc a / 2) (omega arith) (omega arith) in
    omega (arith, whole, half, same)

bit_and_digit : (a b : ℕ) → bit_and a b ≡ bit_and (a / 2) (b / 2) * 2 + min (a % 2) (b % 2)
bit_and_digit zero b =
    let whole = bit_and-bitwise 0 b in
    let half = bit_and-bitwise 0 (b / 2) in omega (arith, whole, half)
bit_and_digit (suc a) b =
    let whole = bit_and-bitwise (suc a) b in
    let half = bit_and-bitwise (suc a / 2) (b / 2) in
    let same =
      same_digits (λ y. zero) min (suc a / 2) (b / 2) a (suc a / 2) (omega arith) (omega arith) in
    omega (arith, whole, half, same)

or_nothing : (rounds x : ℕ) → x ≤ rounds → bit_or x 0 ≡ x
or_nothing rounds zero h = refl
or_nothing zero (suc x) h = absurd (omega arith)
or_nothing (suc rounds) (suc x) h =
    let half = or_nothing rounds (suc x / 2) (omega arith) in
    omega (arith, half, bit_or_digit (suc x) 0)

and_nothing : (rounds x : ℕ) → x ≤ rounds → bit_and x 0 ≡ 0
and_nothing rounds zero h = refl
and_nothing zero (suc x) h = absurd (omega arith)
and_nothing (suc rounds) (suc x) h =
    let half = and_nothing rounds (suc x / 2) (omega arith) in
    omega (arith, half, bit_and_digit (suc x) 0)

field_double : (hi k : ℕ) → hi * 2 ^ suc k ≡ 2 * (hi * 2 ^ k)
field_double hi k = omega (arith, ap (λ (t : ℕ). hi * t) (pow-suc 2 k))

half_field : (hi k : ℕ) → hi * 2 ^ suc k / 2 ≡ hi * 2 ^ k
half_field hi k = omega (arith, field_double hi k)

half_mask : (k : ℕ) → (2 ^ suc k - 1) / 2 ≡ 2 ^ k - 1
half_mask k = omega (arith, pow-suc 2 k, one-le-pow k 2)

quotient_digits : (k a : ℕ) → a / 2 / 2 ^ k ≡ a / 2 ^ suc k
quotient_digits k a = rw (pow-suc 2 k, mul_comm (2 ^ k) 2) (div-div-eq-div-mul a 2 (2 ^ k))

rest_digits : (k a : ℕ) → a % 2 ^ suc k ≡ a / 2 % 2 ^ k * 2 + a % 2
rest_digits k a = omega (
  arith,
  quotient_digits k a,
  field_double (a / 2 ^ suc k) k,
  ap (λ (t : ℕ). t * 2 ^ k) (quotient_digits k a),
  div-add-mod' a (2 ^ suc k),
  div-add-mod' (a / 2) (2 ^ k),
)

-- (hi << k) | lo is a sum if `lo` has at most k bits.
pub bit_or-fields : (k hi lo : ℕ) → lo < 2 ^ k → bit_or (hi * 2 ^ k) lo ≡ hi * 2 ^ k + lo
bit_or-fields zero hi lo h =
    let e : lo ≡ 0 = omega arith in rw e (omega (arith, or_nothing (hi * 1) (hi * 1) (omega arith)))
bit_or-fields (suc k) hi lo h = omega (
  arith,
  pow-suc 2 k,
  field_double hi k,
  ap (λ t. bit_or t (lo / 2)) (half_field hi k),
  bit_or_digit (hi * 2 ^ suc k) lo,
  bit_or-fields k hi (lo / 2) (omega (arith, pow-suc 2 k)),
)

-- A mask of k ones is the remainder by 2 ^ k.
pub bit_and-mask : (k a : ℕ) → bit_and a (2 ^ k - 1) ≡ a % 2 ^ k
bit_and-mask zero a = omega (arith, and_nothing a a (omega arith))
bit_and-mask (suc k) a = omega (
  arith,
  pow-suc 2 k,
  one-le-pow k 2,
  ap (bit_and (a / 2)) (half_mask k),
  bit_and_digit a (2 ^ suc k - 1),
  bit_and-mask k (a / 2),
  rest_digits k a,
)

-- A mask whose low k bits are clear reads the bits above.
pub bit_and-high : (k v m : ℕ) → bit_and v (m * 2 ^ k) ≡ bit_and (v / 2 ^ k) m * 2 ^ k
bit_and-high zero v m =
    let e : m * 1 ≡ m = omega arith in let d : v / 1 ≡ v = omega arith in rw (e, d) (omega arith)
bit_and-high (suc k) v m = omega (
  arith,
  bit_and_digit v (m * 2 ^ suc k),
  ap (bit_and (v / 2)) (half_field m k),
  bit_and-high k (v / 2) m,
  ap (λ t. bit_and t m * 2 ^ k) (quotient_digits k v),
  field_double (bit_and (v / 2 ^ suc k) m) k,
  field_double m k,
)
