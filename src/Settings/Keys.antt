-- ===== src/Settings/Keys.antt =====
-- A quoted key in the expressions of ton-egress-node/src/config.cpp: where it matches, and which texts
-- it passes over.
use ton_tunnel.Base.{
  ℕ, ◌≤◌, ◌<◌, ◌≡◌, ◌≢◌, ◌⊎◌, inl, inr, refl, ap, ◌∙◌, [], ◌∷◌, ◌++◌, append_assoc, false, Option,
  none, some, Bytes, All, Bool-cases, bytes_beq, bytes_beq_iff, bytes_eq, trim_front, is_space,
  ◌==◌, if◌then◌else◌, arith,
}
use ton_tunnel.Settings.{strip, quoted, match_key, match_field, search_field}

abbrev pub NoQuote : ℕ → Type 0
NoQuote c = c ≢ b'"'

-- A key of lower-case letters and the like: it starts with a letter and holds no quote.
abbrev pub IsKey : Bytes → Type 0
IsKey [] = ⊥
IsKey (c ∷ cs) = (97 ≤ c) × (c < 123) × All NoQuote (c ∷ cs)

-- A text in quotes starts with a quoted key only if it is the key.
strip_quoted :
    (k w x : Bytes)
    → All NoQuote k
    → All NoQuote w
    → strip (k ++ b'"' ∷ []) (w ++ b'"' ∷ x) ≡ (if bytes_beq w k then some x else none)
unfolding strip bytes_beq
strip_quoted [] [] x hk hw = refl
strip_quoted [] (c ∷ w) x hk hw = ground (arith, hw.0)
strip_quoted (p ∷ k) [] x hk hw = ground (arith, hk.0)
strip_quoted (p ∷ k) (c ∷ w) x hk hw = ground (arith, strip_quoted k w x hk.1 hw.1)

-- A quote and a byte that is no letter start no key.
no_key_at :
    (key : Bytes) (c : ℕ) (rest : Bytes)
    → IsKey key
    → (c < 97) ⊎ (122 < c)
    → match_key key (b'"' ∷ c ∷ rest) ≡ none
unfolding match_key strip
no_key_at [] c rest h n = absurd h
no_key_at (k ∷ ks) c rest h n =
    let other : (k == c) ≡ false = ground (arith, h.0, h.1, n) in rw (other, match_key) refl

no_key_here : (key : Bytes) (c : ℕ) (rest : Bytes) → NoQuote c → match_key key (c ∷ rest) ≡ none
unfolding match_key strip
no_key_here key c rest n =
    let other : (b'"' == c) ≡ false = ground (arith, n) in rw (other, match_key) refl

module _ (key : Bytes) (is_key : IsKey key) (value : Bytes → Option Bytes) where
  -- No match starts in a text, whatever stands behind it.
  abbrev pub Skips : Bytes → Type 0
  Skips t = (rest : Bytes) → search_field key value (t ++ rest) ≡ search_field key value rest

  miss :
      (c : ℕ) (rest : Bytes)
      → match_key key (c ∷ rest) ≡ none
      → search_field key value (c ∷ rest) ≡ search_field key value rest
  unfolding search_field match_field
  miss c rest e = rw (e, search_field, match_field) refl

  pub skip_append : (s t : Bytes) → Skips s → Skips t → Skips (s ++ t)
  skip_append s t hs ht rest =
      ap (search_field key value) (append_assoc s t rest) ∙ hs (t ++ rest) ∙ ht rest

  pub skip_char : (c : ℕ) → NoQuote c → Skips (c ∷ [])
  skip_char c h rest = miss c rest (no_key_here key c rest h)

  pub skip_word : (w : Bytes) → All NoQuote w → Skips w
  skip_word [] h = λ rest. refl
  skip_word (c ∷ w) h = skip_append (c ∷ []) w (skip_char c h.0) (skip_word w h.1)

  -- A quote that a byte follows which is no letter.
  skip_quote : (c : ℕ) → (c < 97) ⊎ (122 < c) → NoQuote c → Skips (b'"' ∷ c ∷ [])
  skip_quote c h n rest = miss b'"' (c ∷ rest) (no_key_at key c rest is_key h) ∙ skip_char c n rest

  -- A text in quotes and the byte behind it, where the key does not match.
  pub skip_quoted :
      (w : Bytes) (c : ℕ)
      → All NoQuote w
      → (c < 97) ⊎ (122 < c)
      → NoQuote c
      → ((rest : Bytes) → match_key key (quoted w ++ c ∷ rest) ≡ none)
      → Skips (quoted w ++ c ∷ [])
  skip_quoted w c hw h n none_here rest =
      ap (search_field key value) (append_assoc (quoted w) (c ∷ []) rest)
      ∙ miss b'"' _ (none_here rest)
      ∙ ap (search_field key value) (append_assoc w (b'"' ∷ []) (c ∷ rest))
      ∙ skip_word w hw (b'"' ∷ c ∷ rest)
      ∙ skip_quote c h n rest

-- A comma or a brace.
abbrev pub IsEnd : ℕ → Type 0
IsEnd t = (t ≡ b',') ⊎ (t ≡ b'}')

key_NoQuote : (key : Bytes) → IsKey key → All NoQuote key
key_NoQuote [] h = absurd h
key_NoQuote (c ∷ key) h = h.2

-- What a quoted text and the bytes behind it are to a key's expression.
strip_key :
    (key w rest : Bytes)
    → All NoQuote key
    → All NoQuote w
    → strip (quoted key) (quoted w ++ rest) ≡ (if bytes_beq w key then some rest else none)
unfolding strip
strip_key key w rest k h =
    ap (strip (key ++ b'"' ∷ [])) (append_assoc w (b'"' ∷ []) rest) ∙ strip_quoted key w rest k h

-- The key stands in quotes with another byte than a colon behind it.
pub no_colon :
    (key w : Bytes) (t : ℕ) (rest : Bytes)
    → IsKey key
    → All NoQuote w
    → IsEnd t
    → match_key key (quoted w ++ t ∷ rest) ≡ none
unfolding match_key trim_front is_space
no_colon key w t rest k h (inl e) =
    rw (strip_key key w (t ∷ rest) (key_NoQuote key k) h, match_key, e)
      (elim (Bool-cases (bytes_beq w key)) [ inl y ↦ rw y refl | inr y ↦ rw y refl ])
no_colon key w t rest k h (inr e) =
    rw (strip_key key w (t ∷ rest) (key_NoQuote key k) h, match_key, e)
      (elim (Bool-cases (bytes_beq w key)) [ inl y ↦ rw y refl | inr y ↦ rw y refl ])

pub other_key :
    (key w rest : Bytes)
    → IsKey key
    → All NoQuote w
    → bytes_beq w key ≡ false
    → match_key key (quoted w ++ b':' ∷ rest) ≡ none
unfolding match_key
other_key key w rest k h n =
    rw (strip_key key w (b':' ∷ rest) (key_NoQuote key k) h, match_key, n) refl

colon_NoSpace : is_space b':' ≡ false
unfolding is_space
colon_NoSpace = refl

trim_front_here : (c : ℕ) (rest : Bytes) → is_space c ≡ false → trim_front (c ∷ rest) ≡ c ∷ rest
unfolding trim_front
trim_front_here c rest s = rw (trim_front, s) refl

pub this_key :
    (key rest : Bytes) (c : ℕ)
    → IsKey key
    → is_space c ≡ false
    → match_key key (quoted key ++ b':' ∷ (c ∷ rest)) ≡ some (c ∷ rest)
unfolding match_key
this_key key rest c k s =
    rw
      (
        strip_key key key (b':' ∷ (c ∷ rest)) (key_NoQuote key k) (key_NoQuote key k),
        (bytes_beq_iff key key).1 refl,
        match_key,
        trim_front_here b':' (c ∷ rest) colon_NoSpace,
        trim_front_here c rest s,
      )
      refl
