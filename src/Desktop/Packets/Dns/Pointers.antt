-- ===== src/Desktop/Packets/Dns/Pointers.antt =====
-- Compressed names in parseDnsName of TON-Tunnel/WintunLwipBridge.cpp.
use ton_tunnel.Base.{
  ℕ, suc, ◌+◌, ◌-◌, ◌*◌, ◌/◌, ◌%◌, ◌^◌, ◌<◌, ◌≡◌, refl, sym, ap, ◌∙◌, ◌||◌, List, [], ◌∷◌, ◌++◌,
  true, false, Bytes, All, length, length-append, length-drop, get_or, get_or-drop, drop,
  drop-append, drop-drop, bit_and, bit_or, bit_and-high, bit_and-mask, bit_or-fields, u16, leb,
  ◌==◌, negsuc, arith,
}
use ton_tunnel.Desktop.Packets.Dns.{
  difference, named, NameState, end_name, jump, pointer_at, name_loop, start_name, parse_dns_name,
}
use ton_tunnel.Desktop.Packets.Dns.Names.{
  dotted, wire_labels, IsLabel, parse_labels, length-wire_labels, collected, here,
}

-- A pointer to a place, in its two bytes.
abbrev pub pointer : ℕ → Bytes
pointer place = (0xC0 + place / 256) ∷ (place % 256) ∷ []

is_pointer : (q : ℕ) → q < 64 → bit_and (0xC0 + q) 0xC0 ≡ 0xC0
is_pointer q h =
    let high : (0xC0 + q) / 64 ≡ 3 = omega arith in
    bit_and-high 6 (0xC0 + q) 3 ∙ ap (λ t. bit_and t 3 * 64) high

points_to :
    (place : ℕ)
    → place < 2 ^ 14
    → u16 (bit_or (bit_and (0xC0 + place / 256) 0x3F * 2 ^ 8) (place % 256)) ≡ place
points_to place h =
    let low : bit_and (0xC0 + place / 256) 0x3F ≡ place / 256 =
      bit_and-mask 6 (0xC0 + place / 256) ∙ omega arith in
    rw low (omega (arith, bit_or-fields 8 (place / 256) (place % 256) (omega arith)))

pointer_step :
    (fuel place : ℕ) (pkt rest : Bytes) (s : NameState)
    → s.jumps < 20
    → place < 2 ^ 14
    → place < length pkt
    → drop s.off pkt ≡ pointer place ++ rest
    → name_loop (suc fuel) pkt s ≡ name_loop fuel pkt (jump place s)
unfolding name_loop pointer_at
pointer_step fuel place pkt rest s j small within e =
    let c = 0xC0 + place / 256 in
    let (first, k) = here pkt (place % 256 ∷ rest) s j c e in
    let second : get_or pkt (s.off + 1) 0 ≡ place % 256 =
      sym (get_or-drop s.off 1 (s.off + 1) pkt 0 refl) ∙ ap (λ t. get_or t 1 0) e in
    let inside : (leb (length pkt) s.off || leb 20 s.jumps) ≡ false = ground (arith, k, j) in
    let more : (get_or pkt s.off 0 == 0) ≡ false = ground (arith, first) in
    let is : (bit_and (get_or pkt s.off 0) 0xC0 == 0xC0) ≡ true =
      ap (λ n. bit_and n 0xC0 == 0xC0) first
      ∙ ap (λ n. n == 0xC0) (is_pointer (place / 256) (omega arith)) in
    let target : pointer_at pkt s.off ≡ place =
      unfold pointer_at in
      ((λ i. u16 (bit_or (bit_and (first i) 0x3F * 2 ^ 8) (second i))) ∙ points_to place small) in
    let two : leb (length pkt) (s.off + 1) ≡ false =
      ground (arith, length-drop s.off pkt, ap length e) in
    let there : leb (length pkt) (pointer_at pkt s.off) ≡ false = ground (arith, target, within) in
    rw (inside, more, is, two, there) (ap (λ n. name_loop fuel pkt (jump n s)) target)

difference-lt : (a b n : ℕ) → a + n + 1 ≡ b → difference a b ≡ negsuc n
unfolding difference
difference-lt a b n h = ground arith

module _ (pre mid rest l : Bytes) (ls : List Bytes) where
  -- A packet with a name and, behind it, a pointer to that name.
  abbrev pub compressed : Bytes
  compressed = pre ++ (wire_labels (l ∷ ls) ++ (mid ++ (pointer (length pre) ++ rest)))

  abbrev pub pointer_place : ℕ
  pointer_place = length pre + length (wire_labels (l ∷ ls)) + length mid

  at_name :
      drop (length pre) compressed ≡ wire_labels (l ∷ ls) ++ (mid ++ (pointer (length pre) ++ rest))
  at_name = drop-append pre _ (length pre) refl

  at_pointer : drop pointer_place compressed ≡ pointer (length pre) ++ rest
  at_pointer =
      sym (
        drop-drop (length pre) (length (wire_labels (l ∷ ls)) + length mid) pointer_place compressed
          (omega arith))
      ∙ ap (drop (length (wire_labels (l ∷ ls)) + length mid)) at_name
      ∙ sym (drop-drop (length (wire_labels (l ∷ ls))) (length mid) _ _ refl)
      ∙ ap (drop (length mid)) (drop-append (wire_labels (l ∷ ls)) _ _ refl)
      ∙ drop-append mid _ _ refl

  -- A name that is a pointer to a name earlier in the packet, at a place below 16384, is read, but
  -- its size comes out negative.
  pub parse_dns_name-pointer :
      All IsLabel (l ∷ ls)
      → length pre < 2 ^ 14
      → (n : ℕ) × (parse_dns_name compressed pointer_place ≡ named (negsuc n) (dotted (l ∷ ls)))
  unfolding parse_dns_name
  parse_dns_name-pointer h small =
      let wire = wire_labels (l ∷ ls) in
      let size = length-wire_labels (l ∷ ls) in
      let fuel = 21 * (length compressed + 1) - 1 in
      let whole : 21 * (length compressed + 1) ≡ suc fuel = omega arith in
      let n = length mid + 2 in
      let long : length compressed ≡ length pre + (length wire + (length mid + (2 + length rest))) =
        omega (
          arith,
          length-append pre (wire ++ (mid ++ (pointer (length pre) ++ rest))),
          length-append wire (mid ++ (pointer (length pre) ++ rest)),
          length-append mid (pointer (length pre) ++ rest),
        ) in
      let jumped = jump (length pre) (start_name pointer_place) in
      (
        n,
        ap (λ f. name_loop f compressed (start_name pointer_place)) whole
            ∙ pointer_step fuel (length pre) compressed rest (start_name pointer_place)
                (omega arith) small (omega (arith, long, size)) at_pointer
            ∙ parse_labels (l ∷ ls) fuel compressed (mid ++ (pointer (length pre) ++ rest)) jumped h
                (unfold jump in omega arith) (unfold jump in at_name) (omega (arith, long, size))
            ∙ (unfold end_name jump in
                λ i.
                  named
                    (difference-lt (length pre + length wire - 1) (pointer_place + 2) n
                      (omega (arith, size)) i)
                    (collected l ls i)),
      )
