-- ===== src/Desktop/Packets/Dns/Names.antt =====
-- The names of parseDnsName and buildDnsName in TON-Tunnel/WintunLwipBridge.cpp.
use ton_tunnel.Base.{
  ℕ, zero, suc, ◌+◌, ◌-◌, ◌*◌, ◌/◌, ◌≤◌, ◌<◌, ◌≡◌, ◌≢◌, refl, sym, ap, ◌∙◌, ◌||◌, List, [], ◌∷◌,
  ◌++◌, append-nil, append_assoc, false, none, some, Bytes, All, length, length-append, length-drop,
  drop_all, take_all, get_or, take, drop, drop-drop, take-append, drop-append, drop-past, min, find,
  u8, bit_and, bit_and-high, get_or-drop, leb, ◌==◌, pos, arith,
}
use ton_tunnel.Desktop.Packets.Dns.{
  difference, named, pop_dot, NameState, end_name, read_label, name_loop, start_name,
  parse_dns_name, build_labels, build_dns_name,
}

-- A name as its labels: with a dot between two of them, and on the wire.
unfoldable pub dotted : List Bytes → Bytes
dotted [] = []
dotted (l ∷ []) = l
dotted (l ∷ m ∷ ls) = l ++ b'.' ∷ dotted (m ∷ ls)

unfoldable pub wire_labels : List Bytes → Bytes
wire_labels [] = 0 ∷ []
wire_labels (l ∷ ls) = length l ∷ l ++ wire_labels ls

abbrev NoDot : ℕ → Type 0
NoDot c = c ≢ b'.'

-- A label of 1 to 63 bytes, none of which is a dot.
abbrev pub IsLabel : Bytes → Type 0
IsLabel l = (1 ≤ length l) × (length l < 64) × All NoDot l

find_dot : (l rest : Bytes) → All NoDot l → find b'.' (l ++ b'.' ∷ rest) ≡ some (length l)
unfolding find
find_dot [] rest h = refl
find_dot (c ∷ l) rest h = ground (arith, h.0, find_dot l rest h.1)

find-none : (l : Bytes) → All NoDot l → find b'.' l ≡ none
unfolding find
find-none [] h = refl
find-none (c ∷ l) h = ground (arith, h.0, find-none l h.1)

build_nothing : (fuel : ℕ) → build_labels fuel [] ≡ []
unfolding build_labels
build_nothing zero = refl
build_nothing (suc fuel) = refl

-- A round of the loop, by the place of the next dot.
build_last :
    (fuel c : ℕ) (cs : Bytes)
    → find b'.' (c ∷ cs) ≡ none
    → build_labels (suc fuel) (c ∷ cs) ≡ u8 (length (c ∷ cs)) ∷ c ∷ cs
unfolding build_labels
build_last fuel c cs e =
    rw
      (
        e,
        build_labels,
        drop_all (length (c ∷ cs) + 1) (c ∷ cs) (omega arith),
        build_nothing fuel,
        take_all (length cs) cs (omega arith),
        append-nil,
      )
      refl

build_next :
    (fuel c n : ℕ) (cs : Bytes)
    → find b'.' (c ∷ cs) ≡ some n
    → build_labels (suc fuel) (c ∷ cs)
      ≡ (u8 n ∷ take n (c ∷ cs)) ++ build_labels fuel (drop (n + 1) (c ∷ cs))
unfolding build_labels
build_next fuel c n cs e = rw (e, build_labels) refl

-- buildDnsName writes a name's labels.
build_labels-dotted :
    (fuel : ℕ) (l : Bytes) (ls : List Bytes)
    → All IsLabel (l ∷ ls)
    → length (dotted (l ∷ ls)) ≤ fuel
    → build_labels fuel (dotted (l ∷ ls)) ++ 0 ∷ [] ≡ wire_labels (l ∷ ls)
unfolding dotted wire_labels
build_labels-dotted fuel [] ls h f = absurd (omega arith)
build_labels-dotted zero (c ∷ cs) [] h f = absurd (omega arith)
build_labels-dotted (suc fuel) (c ∷ cs) [] h f =
    let size : u8 (length (c ∷ cs)) ≡ length (c ∷ cs) = omega (arith, h.0.1) in
    rw (build_last fuel c cs (find-none (c ∷ cs) h.0.2), size) refl
build_labels-dotted zero (c ∷ cs) (m ∷ ls) h f = absurd (omega arith)
build_labels-dotted (suc fuel) (c ∷ cs) (m ∷ ls) h f =
    let l = c ∷ cs in
    let rest = dotted (m ∷ ls) in
    let size : u8 (length l) ≡ length l = omega (arith, h.0.1) in
    let round : build_labels (suc fuel) (l ++ b'.' ∷ rest)
        ≡ (length l ∷ l) ++ build_labels fuel rest =
      build_next fuel c (length l) (cs ++ b'.' ∷ rest) (find_dot l rest h.0.2) ∙ λ i.
      (size i ∷ take-append l (b'.' ∷ rest) (length l) refl i)
      ++ build_labels fuel (drop-past l (b'.' ∷ rest) 1 (length l + 1) refl i) in
    ap (λ t. t ++ 0 ∷ []) round
    ∙ ap (λ t. length l ∷ t)
        (append_assoc l (build_labels fuel rest) (0 ∷ [])
          ∙ ap (λ t. l ++ t)
              (build_labels-dotted fuel m ls h.1 (omega (arith, f, length-append l (b'.' ∷ rest)))))

-- The text that the reader collects.
abbrev pub dots : List Bytes → Bytes
dots [] = []
dots (l ∷ ls) = (l ++ b'.' ∷ []) ++ dots ls

pop_dot-snoc : (s : Bytes) → pop_dot (s ++ b'.' ∷ []) ≡ s
unfolding pop_dot
pop_dot-snoc [] = refl
pop_dot-snoc (c ∷ []) = refl
pop_dot-snoc (c ∷ d ∷ s) = ap (λ t. c ∷ t) (pop_dot-snoc (d ∷ s))

dots-dotted : (l : Bytes) (ls : List Bytes) → dots (l ∷ ls) ≡ dotted (l ∷ ls) ++ b'.' ∷ []
unfolding dotted
dots-dotted l [] = append-nil (l ++ b'.' ∷ [])
dots-dotted l (m ∷ ls) = ap (λ t. (l ++ b'.' ∷ []) ++ t) (dots-dotted m ls) ∙ simp append_assoc

no_pointer : (l : ℕ) → l < 64 → (bit_and l 0xC0 == 0xC0) ≡ false
no_pointer l h =
    let low : l / 64 ≡ 0 = omega arith in
    let clear : bit_and l 0xC0 ≡ 0 = bit_and-high 6 l 3 ∙ ap (λ t. bit_and t 3 * 64) low in
    rw clear refl

-- A state that may jump yet, with the packet's rest in view.
module _ (pkt tail : Bytes) (s : NameState) (room : s.jumps < 20) where
  pub here : (c : ℕ) → drop s.off pkt ≡ c ∷ tail → (get_or pkt s.off 0 ≡ c) × (s.off < length pkt)
  here c e = (
    sym (get_or-drop s.off 0 s.off pkt 0 (omega arith)) ∙ ap (λ t. get_or t 0 0) e,
    omega (arith, length-drop s.off pkt, ap length e),
  )

  end_step : (fuel : ℕ) → drop s.off pkt ≡ 0 ∷ tail → name_loop (suc fuel) pkt s ≡ end_name s
  unfolding name_loop
  end_step fuel e = let (l, k) = here 0 e in ground (arith, l, k, room)

  label_read :
      (l rest : Bytes)
      → tail ≡ l ++ rest
      → drop s.off pkt ≡ length l ∷ tail
      → read_label (length l) pkt s
        ≡ record s { off = s.off + 1 + length l; out = (s.out ++ l) ++ b'.' ∷ [] }
  unfolding read_label
  label_read l rest t e =
      let whole : min (length l) (length pkt - (s.off + 1)) ≡ length l =
        omega (arith, length-drop s.off pkt, ap length e, ap length t, length-append l rest) in
      let behind : drop (s.off + 1) pkt ≡ l ++ rest =
        sym (drop-drop s.off 1 (s.off + 1) pkt refl) ∙ ap (drop 1) e ∙ t in
      let text : take (min (length l) (length pkt - (s.off + 1))) (drop (s.off + 1) pkt) ≡ l =
        (λ i. take (whole i) (behind i)) ∙ take-append l rest (length l) refl in
      λ i. record s { off = s.off + 1 + whole i; out = (s.out ++ text i) ++ b'.' ∷ [] }

  label_step :
      (fuel : ℕ) (l rest : Bytes)
      → IsLabel l
      → tail ≡ l ++ rest
      → drop s.off pkt ≡ length l ∷ tail
      → name_loop (suc fuel) pkt s
        ≡ name_loop fuel pkt
            (record s { off = s.off + 1 + length l; out = (s.out ++ l) ++ b'.' ∷ [] })
  unfolding name_loop
  label_step fuel l rest h t e =
      let (size, k) = here (length l) e in
      let inside : (leb (length pkt) s.off || leb 20 s.jumps) ≡ false = ground (arith, k, room) in
      let more : (get_or pkt s.off 0 == 0) ≡ false = ground (arith, size, h.0) in
      let label : (bit_and (get_or pkt s.off 0) 0xC0 == 0xC0) ≡ false =
        ap (λ n. bit_and n 0xC0 == 0xC0) size ∙ no_pointer (length l) h.1 in
      rw (inside, more, label)
        (ap (λ n. name_loop fuel pkt (read_label n pkt s)) size
          ∙ ap (name_loop fuel pkt) (label_read l rest t e))

-- From a state whose offset stands at a name's labels, the loop comes to the zero at their end.
pub parse_labels :
    (ls : List Bytes) (fuel : ℕ) (pkt rest : Bytes) (s : NameState)
    → All IsLabel ls
    → s.jumps < 20
    → drop s.off pkt ≡ wire_labels ls ++ rest
    → length ls < fuel
    → name_loop fuel pkt s
      ≡ end_name (record s { off = s.off + length (wire_labels ls) - 1; out = s.out ++ dots ls })
unfolding wire_labels
parse_labels ls zero pkt rest s h j e f = absurd (omega arith)
parse_labels [] (suc fuel) pkt rest s h j e f =
    let place : s.off ≡ s.off + 1 - 1 = omega arith in
    let text : s.out ≡ s.out ++ [] = sym (append-nil s.out) in
    end_step pkt rest s j fuel e ∙ λ i. end_name (record s { off = place i; out = text i })
parse_labels (l ∷ ls) (suc fuel) pkt rest s h j e f =
    let tail = (l ++ wire_labels ls) ++ rest in
    let split : tail ≡ l ++ (wire_labels ls ++ rest) = append_assoc l (wire_labels ls) rest in
    let s' = record s { off = s.off + 1 + length l; out = (s.out ++ l) ++ b'.' ∷ [] } in
    let behind : drop s'.off pkt ≡ wire_labels ls ++ rest =
      sym (drop-drop s.off (1 + length l) (s.off + 1 + length l) pkt (omega arith))
      ∙ ap (drop (1 + length l)) (e ∙ ap (λ t. length l ∷ t) split)
      ∙ drop-past (length l ∷ l) (wire_labels ls ++ rest) 0 (1 + length l) (omega arith) in
    let place : s'.off + length (wire_labels ls) - 1 ≡ s.off + length (wire_labels (l ∷ ls)) - 1 =
      omega (arith, length-append l (wire_labels ls)) in
    let text : s'.out ++ dots ls ≡ s.out ++ dots (l ∷ ls) = simp append_assoc in
    label_step pkt tail s j fuel l (wire_labels ls ++ rest) h.0 split e
    ∙ parse_labels ls fuel pkt rest s' h.1 j behind (omega arith)
    ∙ λ i. end_name (record s { off = place i; out = text i })

pub length-wire_labels : (ls : List Bytes) → length ls < length (wire_labels ls)
unfolding wire_labels
length-wire_labels [] = omega arith
length-wire_labels (l ∷ ls) = omega (arith, length-wire_labels ls, length-append l (wire_labels ls))

difference-add : (a b : ℕ) → 1 ≤ b → difference (a + b - 1 + 1) a ≡ pos b
unfolding difference
difference-add a b h = ground arith

pub collected : (l : Bytes) (ls : List Bytes) → pop_dot ([] ++ dots (l ∷ ls)) ≡ dotted (l ∷ ls)
collected l ls = ap pop_dot (dots-dotted l ls) ∙ pop_dot-snoc (dotted (l ∷ ls))

-- What buildDnsName writes for a name of labels, each of 1 to 63 bytes without a dot, parseDnsName
-- reads back wherever it stands in a packet: the name, and the number of its bytes.
pub parse_dns_name-build :
    (pre rest l : Bytes) (ls : List Bytes)
    → All IsLabel (l ∷ ls)
    → parse_dns_name (pre ++ (build_dns_name (dotted (l ∷ ls)) ++ rest)) (length pre)
      ≡ named (pos (length (build_dns_name (dotted (l ∷ ls))))) (dotted (l ∷ ls))
unfolding parse_dns_name build_dns_name end_name
parse_dns_name-build pre rest l ls h =
    let name = dotted (l ∷ ls) in
    let wire = wire_labels (l ∷ ls) in
    let built : build_dns_name name ≡ wire =
      build_labels-dotted (length name) l ls h (omega arith) in
    let pkt = pre ++ (build_dns_name name ++ rest) in
    let behind : drop (length pre) pkt ≡ wire ++ rest =
      drop-append pre (build_dns_name name ++ rest) (length pre) refl ∙ ap (λ t. t ++ rest) built in
    let size = length-wire_labels (l ∷ ls) in
    let room : length (l ∷ ls) < 21 * (length pkt + 1) =
      omega
        (arith, size, ap length behind, length-append wire rest, length-drop (length pre) pkt) in
    parse_labels (l ∷ ls) (21 * (length pkt + 1)) pkt rest (start_name (length pre)) h (omega arith)
      behind room
    ∙ λ i.
        named
          ((difference-add (length pre) (length wire) (omega (arith, size))
              ∙ ap (λ t. pos (length t)) (sym built))
            i)
          (collected l ls i)
