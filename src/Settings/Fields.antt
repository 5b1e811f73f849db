-- ===== src/Settings/Fields.antt =====
-- The functions of ton-egress-node/src/config.cpp that read one setting, on a printed configuration.
use ton_tunnel.Base.{
  ℕ, ◌^◌, ◌<◌, ◌≡◌, refl, ap, ◌∙◌, List, [], ◌∷◌, Bool, true, false, ◌&&◌, none, some, Bytes, All,
  bytes_eq, lookup, leb, decimal_value-to_decimal, u32, arith,
}
use ton_tunnel.Settings.{
  search_field, string_value, digits_value, bool_value, list_value, extract_string, stoul,
  extract_uint, is_true, extract_bool, strip,
}
use ton_tunnel.Settings.Keys.{NoQuote, IsKey, skip_char}
use ton_tunnel.Settings.Values.{
  Value, text, number, truth, text-Reads, number-Reads, truth-Reads, found,
}
use ton_tunnel.Settings.Search.{print_entries, IsEntry, search_print, search_absent}

-- A byte behind the double quote.
unfoldable pub plain : Bytes → Bool
plain [] = true
plain (c ∷ w) = leb 35 c && plain w

pub plain-NoQuote : (w : Bytes) → plain w ≡ true → All NoQuote w
unfolding plain
plain-NoQuote [] h = tt
plain-NoQuote (c ∷ w) h = ((λ e. ground (arith, e, h)), plain-NoQuote w (ground (arith, h)))

-- The test of a key.
unfoldable pub key_test : Bytes → Bool
unfolding plain
key_test [] = false
key_test (c ∷ w) = leb 97 c && leb c 122 && plain (c ∷ w)

key_test-IsKey : (w : Bytes) → key_test w ≡ true → IsKey w
unfolding key_test
key_test-IsKey [] h = cc
key_test-IsKey (c ∷ w) h =
    (ground (arith, h), ground (arith, h), plain-NoQuote (c ∷ w) (ground (arith, h)))

is_true-found : (b : Bool) → is_true (found (truth b)) ≡ b
unfolding is_true strip
is_true-found true = refl
is_true-found false = refl

module _ (es : List (Bytes × Value)) (entries : All IsEntry es) where
  pub extract_string-print :
      (key s fallback : Bytes)
      → key_test key ≡ true
      → All NoQuote s
      → lookup key es ≡ some (text s)
      → extract_string (b'{' ∷ print_entries es) key fallback ≡ s
  unfolding extract_string
  extract_string-print key s fallback k h e =
      let is_key = key_test-IsKey key k in
      rw
        (
          skip_char key is_key string_value b'{' (λ q. omega (arith, q)) (print_entries es),
          search_print key is_key string_value es (text s) entries (text-Reads s h) e,
          extract_string,
        )
        refl

  pub extract_uint-print :
      (key : Bytes) (n fallback : ℕ)
      → key_test key ≡ true
      → n < 2 ^ 32
      → lookup key es ≡ some (number n)
      → extract_uint (b'{' ∷ print_entries es) key fallback ≡ some n
  unfolding extract_uint stoul
  extract_uint-print key n fallback k h e =
      let is_key = key_test-IsKey key k in
      let small : leb (2 ^ 64) n ≡ false = ground (arith, h) in
      let low : u32 n ≡ n = omega (arith, h) in
      rw
        (
          skip_char key is_key digits_value b'{' (λ q. omega (arith, q)) (print_entries es),
          search_print key is_key digits_value es (number n) entries (number-Reads n) e,
          extract_uint,
          stoul,
          decimal_value-to_decimal n,
          small,
        )
        (ap some low)

  pub extract_bool-print :
      (key : Bytes) (b fallback : Bool)
      → key_test key ≡ true
      → lookup key es ≡ some (truth b)
      → extract_bool (b'{' ∷ print_entries es) key fallback ≡ b
  unfolding extract_bool
  extract_bool-print key b fallback k e =
      let is_key = key_test-IsKey key k in
      rw
        (
          skip_char key is_key bool_value b'{' (λ q. omega (arith, q)) (print_entries es),
          search_print key is_key bool_value es (truth b) entries (truth-Reads b) e,
          extract_bool,
        )
        (is_true-found b)

  pub search_no_list :
      (key : Bytes)
      → key_test key ≡ true
      → lookup key es ≡ none
      → search_field key list_value (b'{' ∷ print_entries es) ≡ none
  search_no_list key k e =
      let is_key = key_test-IsKey key k in
      skip_char key is_key list_value b'{' (λ q. omega (arith, q)) (print_entries es)
      ∙ search_absent key is_key list_value es entries e
