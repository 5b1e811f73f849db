-- ===== src/Desktop/Packets/Checksum.antt =====
-- The IPv4 checksum of TON-Tunnel/WintunLwipBridge.cpp, as its receivers check it.
use ton_tunnel.Base.{
  ℕ, ◌+◌, ◌-◌, ◌*◌, ◌/◌, ◌%◌, ◌^◌, ◌≤◌, ◌<◌, ◌≡◌, refl, sym, ap, ◌∙◌, [], ◌∷◌, ◌++◌, Bytes, length,
  bit_and-mask, bit_or-fields, u16, AreBytes, All-append, IsByte, arith,
}
use ton_tunnel.Desktop.Packets.{ones_add, word, sum_words, ip_csum}

ones_add-le : (a b : ℕ) → a ≤ 0xFFFF → b ≤ 0xFFFF → ones_add a b ≤ 0xFFFF
unfolding ones_add
ones_add-le a b ha hb = ground arith

ones_add_assoc :
    (a b c : ℕ)
    → a ≤ 0xFFFF
    → b ≤ 0xFFFF
    → c ≤ 0xFFFF
    → ones_add (ones_add a b) c ≡ ones_add a (ones_add b c)
unfolding ones_add
ones_add_assoc a b c ha hb hc = ground arith

word-sum : (x y : ℕ) → x < 256 → y < 256 → word x y ≡ x * 256 + y
unfolding word
word-sum x y hx hy =
    let e : u16 (x * 2 ^ 8) ≡ x * 2 ^ 8 = omega arith in rw e (bit_or-fields 8 x y hy)

word-le : (x y : ℕ) → x < 256 → y < 256 → word x y ≤ 0xFFFF
word-le x y hx hy = omega (arith, word-sum x y hx hy)

sum_words-le : (s : ℕ) (bytes : Bytes) → s ≤ 0xFFFF → AreBytes bytes → sum_words s bytes ≤ 0xFFFF
unfolding sum_words
sum_words-le s [] hs h = hs
sum_words-le s (x ∷ []) hs h = ones_add-le s (u16 (x * 2 ^ 8)) hs (omega (arith, h.0))
sum_words-le s (x ∷ y ∷ bytes) hs h =
    sum_words-le (ones_add s (word x y)) bytes (ones_add-le s (word x y) hs (word-le x y h.0 h.1.0))
      h.1.1

-- A sum that starts with a carries a through.
sum_words-start :
    (a s : ℕ) (bytes : Bytes)
    → a ≤ 0xFFFF
    → s ≤ 0xFFFF
    → AreBytes bytes
    → sum_words (ones_add a s) bytes ≡ ones_add a (sum_words s bytes)
unfolding sum_words
sum_words-start a s [] ha hs h = refl
sum_words-start a s (x ∷ []) ha hs h =
    ones_add_assoc a s (u16 (x * 2 ^ 8)) ha hs (omega (arith, h.0))
sum_words-start a s (x ∷ y ∷ bytes) ha hs h =
    let w = word-le x y h.0 h.1.0 in
    ap (λ t. sum_words t bytes) (ones_add_assoc a s (word x y) ha hs w)
    ∙ sum_words-start a (ones_add s (word x y)) bytes ha (ones_add-le s (word x y) hs w) h.1.1

sum_words-append :
    (s : ℕ) (pre post : Bytes)
    → length pre % 2 ≡ 0
    → sum_words s (pre ++ post) ≡ sum_words (sum_words s pre) post
unfolding sum_words
sum_words-append s [] post e = refl
sum_words-append s (x ∷ []) post e = absurd (omega (arith, e))
sum_words-append s (x ∷ y ∷ pre) post e =
    sum_words-append (ones_add s (word x y)) pre post (omega (arith, e))

ip_csum-sum : (bytes : Bytes) → AreBytes bytes → ip_csum bytes ≡ 0xFFFF - sum_words 0 bytes
unfolding ip_csum
ip_csum-sum bytes h =
    let le = sum_words-le 0 bytes (omega arith) h in
    bit_and-mask 16 (2 ^ 32 - 1 - sum_words 0 bytes) ∙ omega (arith, le)

-- The sum over a header with the word k in its checksum field.
sum_with :
    (pre post : Bytes) (k : ℕ)
    → length pre % 2 ≡ 0
    → AreBytes pre
    → AreBytes post
    → k ≤ 0xFFFF
    → sum_words 0 (pre ++ (k / 256 ∷ k % 256 ∷ post))
      ≡ ones_add (ones_add (sum_words 0 pre) k) (sum_words 0 post)
unfolding sum_words
sum_with pre post k e hp hq hk =
    let p = sum_words 0 pre in
    let lp = sum_words-le 0 pre (omega arith) hp in
    let w : word (k / 256) (k % 256) ≡ k =
      word-sum (k / 256) (k % 256) (omega arith) (omega arith) ∙ omega arith in
    let nothing : ones_add (ones_add p k) 0 ≡ ones_add p k =
      unfold ones_add in ground (arith, lp) in
    sum_words-append 0 pre (k / 256 ∷ k % 256 ∷ post) e
    ∙ ap (λ t. sum_words (ones_add p t) post) w
    ∙ ap (λ t. sum_words t post) (sym nothing)
    ∙ sum_words-start (ones_add p k) 0 post (ones_add-le p k lp hk) (omega arith) hq

-- A header whose checksum field holds the checksum that was computed with zero there.
abbrev pub sealed : Bytes → Bytes → Bytes
sealed pre post = let k = ip_csum (pre ++ (0 ∷ 0 ∷ post)) in pre ++ (k / 256 ∷ k % 256 ∷ post)

AreBytes-zeroed :
    (pre post : Bytes) → AreBytes pre → AreBytes post → AreBytes (pre ++ (0 ∷ 0 ∷ post))
AreBytes-zeroed pre post hp hq =
    All-append IsByte pre (0 ∷ 0 ∷ post) hp (omega arith, (omega arith, hq))

AreBytes-filled :
    (pre post : Bytes) (k : ℕ)
    → AreBytes pre
    → AreBytes post
    → k ≤ 0xFFFF
    → AreBytes (pre ++ (k / 256 ∷ k % 256 ∷ post))
AreBytes-filled pre post k hp hq h =
    All-append IsByte pre (k / 256 ∷ k % 256 ∷ post) hp (omega arith, (omega arith, hq))

complement :
    (p q : ℕ)
    → p ≤ 0xFFFF
    → q ≤ 0xFFFF
    → ones_add (ones_add p (0xFFFF - ones_add (ones_add p 0) q)) q ≡ 0xFFFF
unfolding ones_add
complement p q hp hq = ground arith

-- A receiver that takes the checksum of a header of bytes, whose field at an even place holds the
-- checksum computed with zero there, finds 0.
pub ip_csum-sealed :
    (pre post : Bytes)
    → length pre % 2 ≡ 0
    → AreBytes pre
    → AreBytes post
    → ip_csum (sealed pre post) ≡ 0
ip_csum-sealed pre post e hp hq =
    let p = sum_words 0 pre in
    let q = sum_words 0 post in
    let k = ip_csum (pre ++ (0 ∷ 0 ∷ post)) in
    let k_is : k ≡ 0xFFFF - ones_add (ones_add p 0) q =
      ip_csum-sum (pre ++ (0 ∷ 0 ∷ post)) (AreBytes-zeroed pre post hp hq)
      ∙ ap (λ t. 0xFFFF - t) (sum_with pre post 0 e hp hq (omega arith)) in
    let k_le : k ≤ 0xFFFF = omega (arith, k_is) in
    let full : ones_add (ones_add p k) q ≡ 0xFFFF =
      ap (λ t. ones_add (ones_add p t) q) k_is
      ∙ complement p q (sum_words-le 0 pre (omega arith) hp)
          (sum_words-le 0 post (omega arith) hq) in
    ip_csum-sum (sealed pre post) (AreBytes-filled pre post k hp hq k_le)
    ∙ ap (λ t. 0xFFFF - t) (sum_with pre post k e hp hq k_le ∙ full)
    ∙ omega arith
