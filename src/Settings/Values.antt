-- ===== src/Settings/Values.antt =====
-- The values of a printed configuration, and what the expressions of ton-egress-node/src/config.cpp
-- read where one stands.
use ton_tunnel.Base.{
  ℕ, ◌<◌, ◌≡◌, ◌⊎◌, inl, inr, refl, subst, [], ◌∷◌, ◌++◌, append_assoc, Bool, true, false, Option,
  some, Bytes, codes, All, bytes_eq, is_space, if◌then◌else◌, to_decimal, to_decimal-IsDigit,
  to_decimal_cons, IsDigit, arith,
}
use ton_tunnel.Settings.{
  strip, until, quoted, string_value, is_digit, take_digits, digits_value, bool_value,
}
use ton_tunnel.Settings.Keys.{NoQuote, IsEnd}

-- A value as it is printed.
pub data Value : Type 0 where
  text : (s : Bytes) → Value
  number : (n : ℕ) → Value
  truth : (b : Bool) → Value

unfoldable pub print_value : Value → Bytes
print_value (text s) = quoted s
print_value (number n) = to_decimal n
print_value (truth b) = if b then codes "true" else codes "false"

abbrev pub IsValue : Value → Type 0
IsValue (text s) = All NoQuote s
IsValue (number n) = Unit
IsValue (truth b) = Unit

pub word_NoQuote : (w : Bytes) → All IsDigit w → All NoQuote w
word_NoQuote [] h = tt
word_NoQuote (c ∷ w) h = ((λ e. omega (arith, e, h.0)), word_NoQuote w h.1)

-- What the expression of a value's type finds.
abbrev pub found : Value → Bytes
found (text s) = s
found (number n) = to_decimal n
found (truth b) = if b then codes "true" else codes "false"

-- An expression that reads a value where it is printed, up to its end.
abbrev pub Reads : (Bytes → Option Bytes) → Value → Type 0
Reads value v =
    (t : ℕ) (rest : Bytes) → IsEnd t → value (print_value v ++ t ∷ rest) ≡ some (found v)

until-NoQuote : (s rest : Bytes) → All NoQuote s → until b'"' (s ++ b'"' ∷ rest) ≡ some (s, rest)
unfolding until
until-NoQuote [] rest h = refl
until-NoQuote (c ∷ s) rest h = ground (arith, h.0, until-NoQuote s rest h.1)

pub text-Reads : (s : Bytes) → All NoQuote s → Reads string_value (text s)
unfolding print_value string_value
text-Reads s h t rest e =
    rw (append_assoc s (b'"' ∷ []) (t ∷ rest), until-NoQuote s (t ∷ rest) h, string_value) refl

end_NoDigit : (t : ℕ) → IsEnd t → is_digit t ≡ false
unfolding is_digit
end_NoDigit t (inl e) = rw e refl
end_NoDigit t (inr e) = rw e refl

digit : (c : ℕ) → IsDigit c → is_digit c ≡ true
unfolding is_digit
digit c h = ground (arith, h)

take_digits_append :
    (w : Bytes) (t : ℕ) (rest : Bytes)
    → All IsDigit w
    → is_digit t ≡ false
    → take_digits (w ++ t ∷ rest) ≡ w
unfolding take_digits
take_digits_append [] t rest h n = rw (n, take_digits) refl
take_digits_append (c ∷ w) t rest h n =
    rw (digit c h.0, take_digits, take_digits_append w t rest h.1 n) refl

pub number-Reads : (n : ℕ) → Reads digits_value (number n)
unfolding print_value digits_value
number-Reads n t rest e =
    let (c, cs, shape) = to_decimal_cons n in
    rw
      (
        digits_value,
        take_digits_append (to_decimal n) t rest (to_decimal-IsDigit n) (end_NoDigit t e),
        shape,
      )
      refl

pub truth-Reads : (b : Bool) → Reads bool_value (truth b)
unfolding print_value bool_value strip
truth-Reads true t rest e = refl
truth-Reads false t rest e = refl

pub end_low : (t : ℕ) → IsEnd t → (t < 97) ⊎ (122 < t)
end_low t (inl e) = inl (omega (arith, e))
end_low t (inr e) = inr (omega (arith, e))

pub end_NoQuote : (t : ℕ) → IsEnd t → NoQuote t
end_NoQuote t (inl e) = λ q. omega (arith, e, q)
end_NoQuote t (inr e) = λ q. omega (arith, e, q)

digit_NoSpace : (c : ℕ) → IsDigit c → is_space c ≡ false
unfolding is_space
digit_NoSpace c h = ground (arith, h)

pub truth_NoQuote : (b : Bool) → All NoQuote (print_value (truth b))
unfolding print_value
truth_NoQuote true = ground arith
truth_NoQuote false = ground arith

-- A printed value starts with a byte that is no space.
pub print_value_cons :
    (v : Value) → (c : ℕ) × (cs : Bytes) × (print_value v ≡ c ∷ cs) × (is_space c ≡ false)
unfolding print_value is_space
print_value_cons (text s) = (b'"', s ++ b'"' ∷ [], refl, refl)
print_value_cons (number n) =
    let (c, cs, shape) = to_decimal_cons n in
    let digits : All IsDigit (c ∷ cs) = subst (All IsDigit) shape (to_decimal-IsDigit n) in
    (c, cs, shape, digit_NoSpace c digits.0)
print_value_cons (truth true) = (b't', codes "rue", refl, refl)
print_value_cons (truth false) = (b'f', codes "alse", refl, refl)
