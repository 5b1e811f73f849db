-- ===== src/Settings/Search.antt =====
-- What the expressions of ton-egress-node/src/config.cpp find in a printed configuration: entries of
-- a key and a value, each ended by a comma or a brace.
use ton_tunnel.Base.{
  ℕ, ◌≡◌, inl, inr, refl, sym, ap, ◌∙◌, List, [], ◌∷◌, ◌++◌, append_assoc, true, false, Option,
  none, some, Bytes, All, Bool-cases, bytes_beq, bytes_beq_iff, bytes_eq, lookup, is_space,
  to_decimal, to_decimal-IsDigit, arith,
}
use ton_tunnel.Settings.{quoted, match_field, search_field}
use ton_tunnel.Settings.Keys.{
  NoQuote, IsKey, IsEnd, no_colon, other_key, this_key, Skips, skip_append, skip_char, skip_word,
  skip_quoted,
}
use ton_tunnel.Settings.Values.{
  Value, text, number, truth, print_value, IsValue, found, Reads, truth_NoQuote, print_value_cons,
  word_NoQuote, end_low, end_NoQuote,
}

abbrev pub terminator {ℓ} : {A : Type ℓ} → List A → ℕ
terminator [] = b'}'
terminator (x ∷ xs) = b','

unfoldable pub print_entries : List (Bytes × Value) → Bytes
print_entries [] = []
print_entries ((key, v) ∷ es) =
    (quoted key ++ b':' ∷ []) ++ ((print_value v ++ terminator es ∷ []) ++ print_entries es)

abbrev pub IsEntry : Bytes × Value → Type 0
IsEntry (key, v) = All NoQuote key × IsValue v

terminator-IsEnd {ℓ} : {A : Type ℓ} (xs : List A) → IsEnd (terminator xs)
terminator-IsEnd [] = inr refl
terminator-IsEnd (x ∷ xs) = inl refl

-- What an entry list holds under a key, by its first entry.
lookup_here :
    (key k : Bytes) (w : Value) (es : List (Bytes × Value))
    → bytes_beq k key ≡ true
    → lookup key ((k, w) ∷ es) ≡ some w
unfolding lookup
lookup_here key k w es h = rw (h, lookup) refl

lookup_behind :
    (key k : Bytes) (w : Value) (es : List (Bytes × Value))
    → bytes_beq k key ≡ false
    → lookup key ((k, w) ∷ es) ≡ lookup key es
unfolding lookup
lookup_behind key k w es h = rw (h, lookup) refl

module _ (key : Bytes) (is_key : IsKey key) (value : Bytes → Option Bytes) where
  skip_value :
      (v : Value) (t : ℕ) → IsValue v → IsEnd t → Skips key is_key value (print_value v ++ t ∷ [])
  unfolding print_value
  skip_value (text s) t h e =
      skip_quoted key is_key value s t h (end_low t e) (end_NoQuote t e)
        (λ rest. no_colon key s t rest is_key h e)
  skip_value (number n) t h e =
      skip_append key is_key value (to_decimal n) (t ∷ [])
        (skip_word key is_key value (to_decimal n) (word_NoQuote _ (to_decimal-IsDigit n)))
        (skip_char key is_key value t (end_NoQuote t e))
  skip_value (truth b) t h e =
      skip_append key is_key value (print_value (truth b)) (t ∷ [])
        (skip_word key is_key value _ (truth_NoQuote b))
        (skip_char key is_key value t (end_NoQuote t e))

  hit :
      (c : ℕ) (rest r : Bytes)
      → match_field key value (c ∷ rest) ≡ some r
      → search_field key value (c ∷ rest) ≡ some r
  unfolding search_field
  hit c rest r e = rw (search_field, e) refl

  at_key :
      (c : ℕ) (rest : Bytes)
      → is_space c ≡ false
      → match_field key value (quoted key ++ b':' ∷ (c ∷ rest)) ≡ value (c ∷ rest)
  unfolding match_field
  at_key c rest n = rw (this_key key rest c is_key n, match_field) refl

  -- The entry of the key itself.
  this_entry :
      (v : Value) (t : ℕ) (rest : Bytes)
      → Reads value v
      → IsEnd t
      → search_field key value ((quoted key ++ b':' ∷ []) ++ ((print_value v ++ t ∷ []) ++ rest))
        ≡ some (found v)
  this_entry v t rest r e =
      let (c, cs, shape, no_space) = print_value_cons v in
      let start : (print_value v ++ t ∷ []) ++ rest ≡ c ∷ (cs ++ t ∷ rest) =
        append_assoc (print_value v) (t ∷ []) rest ∙ rw shape refl in
      let text : (quoted key ++ b':' ∷ []) ++ ((print_value v ++ t ∷ []) ++ rest)
          ≡ quoted key ++ b':' ∷ (c ∷ (cs ++ t ∷ rest)) =
        append_assoc (quoted key) (b':' ∷ []) ((print_value v ++ t ∷ []) ++ rest)
        ∙ ap (λ x. quoted key ++ b':' ∷ x) start in
      ap (search_field key value) text
      ∙ hit b'"' _ _ (
          at_key c (cs ++ t ∷ rest) no_space
          ∙ ap value (sym start ∙ append_assoc (print_value v) (t ∷ []) rest)
          ∙ r t rest e)

  -- The entry of another key is passed over.
  other_entry :
      (k : Bytes) (w : Value) (t : ℕ)
      → All NoQuote k
      → IsValue w
      → IsEnd t
      → bytes_beq k key ≡ false
      → Skips key is_key value ((quoted k ++ b':' ∷ []) ++ (print_value w ++ t ∷ []))
  other_entry k w t hk hw e n =
      skip_append key is_key value (quoted k ++ b':' ∷ []) (print_value w ++ t ∷ [])
        (skip_quoted key is_key value k b':' hk (inl (omega arith)) (λ q. omega (arith, q))
          (λ rest. other_key key k rest is_key hk n))
        (skip_value w t hw e)

  pass :
      (k : Bytes) (w : Value) (es : List (Bytes × Value))
      → IsEntry (k, w)
      → bytes_beq k key ≡ false
      → search_field key value (print_entries ((k, w) ∷ es))
        ≡ search_field key value (print_entries es)
  unfolding print_entries
  pass k w es h n =
      ap (search_field key value) (
        sym (
          append_assoc (quoted k ++ b':' ∷ []) (print_value w ++ terminator es ∷ [])
            (print_entries es)))
      ∙ other_entry k w (terminator es) h.0 h.1 (terminator-IsEnd es) n (print_entries es)

  pub search_print :
      (es : List (Bytes × Value)) (v : Value)
      → All IsEntry es
      → Reads value v
      → lookup key es ≡ some v
      → search_field key value (print_entries es) ≡ some (found v)
  unfolding print_entries lookup
  search_print [] v h r e = cc
  search_print ((k, w) ∷ es) v h r e = elim (Bool-cases (bytes_beq k key)) [
    | inl same ↦
        let at : k ≡ key = (bytes_beq_iff k key).0 same in
        let it : w ≡ v = (let here = lookup_here key k w es same in cc) in
        rw (at, it) (this_entry v (terminator es) (print_entries es) r (terminator-IsEnd es))
    | inr other ↦
        pass k w es h.0 other ∙ search_print es v h.1 r (sym (lookup_behind key k w es other) ∙ e)
  ]

  pub search_absent :
      (es : List (Bytes × Value))
      → All IsEntry es
      → lookup key es ≡ none
      → search_field key value (print_entries es) ≡ none
  unfolding print_entries lookup search_field
  search_absent [] h e = refl
  search_absent ((k, w) ∷ es) h e = elim (Bool-cases (bytes_beq k key)) [
    | inl same ↦ let it = lookup_here key k w es same in cc
    | inr other ↦
        pass k w es h.0 other ∙ search_absent es h.1 (sym (lookup_behind key k w es other) ∙ e)
  ]
