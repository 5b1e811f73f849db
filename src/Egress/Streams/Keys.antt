-- ===== src/Egress/Streams/Keys.antt =====
-- The keys of the stream table, `keyFor` of ton-egress-node/src/egress_node.cpp.
use ton_tunnel.Base.{
  to_nat, ℕ, ◌≡◌, refl, sym, ap, ◌∙◌, [], ◌∷◌, ◌++◌, Option, none, some, Bytes, ◌==◌, if◌then◌else◌,
  All, List, Bool, false, ◌+◌, ◌≤◌, bytes_beq, bytes_beq_iff, lookup, insert, erase, bytes_eq,
  IsDigit, to_decimal, to_decimal-injective, to_decimal-IsDigit, arith,
}
use ton_tunnel.Egress.State.{key_for}

-- The bytes before and behind the last `#`.
split_last : Bytes → Option (Bytes × Bytes)
split_last [] = none
split_last (x ∷ xs) = elim (split_last xs) [
  | some (a, b) ↦ some (x ∷ a, b)
  | none ↦ if x == b'#' then some ([], xs) else none
]

split_last-digits : (d : Bytes) → All IsDigit d → split_last d ≡ none
unfolding split_last
split_last-digits [] h = refl
split_last-digits (x ∷ xs) h = ground (arith, split_last-digits xs h.1)

split_last-key : (c d : Bytes) → All IsDigit d → split_last (c ++ b'#' ∷ d) ≡ some (c, d)
unfolding split_last
split_last-key [] d h = ground (arith, split_last-digits d h)
split_last-key (x ∷ c) d h = ground (arith, split_last-key c d h)

-- Two streams share a key only if they agree in client and in number.
pub key_for-injective :
    (c c' : Bytes) (i i' : ℕ) → key_for c i ≡ key_for c' i' → (c ≡ c') × (i ≡ i')
unfolding key_for
key_for-injective c c' i i' e =
    let same : ◌≡◌ {A = Option (Bytes × Bytes)} (some (c, to_decimal i))
        (some (c', to_decimal i')) =
      sym (split_last-key c (to_decimal i) (to_decimal-IsDigit i))
      ∙ ap split_last e
      ∙ split_last-key c' (to_decimal i') (to_decimal-IsDigit i') in
    (cc, to_decimal-injective i i' (cc))

-- Whether a key is one of a client's.
unfoldable pub belongs : Bytes → Bytes → Bool
unfolding split_last
belongs c key = elim (split_last key) [ none ↦ false | some (a, b) ↦ bytes_beq a c ]

pub belongs-key_for : (c c' : Bytes) (i : ℕ) → belongs c (key_for c' i) ≡ bytes_beq c' c
unfolding belongs key_for
belongs-key_for c c' i = rw (split_last-key c' (to_decimal i) (to_decimal-IsDigit i), belongs)

-- How many entries of the table are a client's.
unfoldable pub entries : Bytes → List (Bytes × ℕ) → ℕ
entries c [] = 0
entries c ((k, p) ∷ table) = to_nat (belongs c k) + entries c table

pub entries-insert :
    (c k : Bytes) (p : ℕ) (table : List (Bytes × ℕ))
    → entries c (insert k p table) ≤ entries c table + to_nat (belongs c k)
unfolding entries insert
entries-insert c k p [] = omega arith
entries-insert c k p ((j, q) ∷ table) =
    ground (arith, entries-insert c k p table, bytes_beq_iff j k)

-- An entry that is written over is no new entry.
pub entries-insert_present :
    (c k : Bytes) (p q : ℕ) (table : List (Bytes × ℕ))
    → lookup k table ≡ some q
    → entries c (insert k p table) ≡ entries c table
unfolding entries insert lookup
entries-insert_present c k p q [] h = cc
entries-insert_present c k p q ((j, r) ∷ table) h =
    ground (arith, entries-insert_present c k p q table, bytes_beq_iff j k)

pub entries-erase-le :
    (c k : Bytes) (table : List (Bytes × ℕ)) → entries c (erase k table) ≤ entries c table
unfolding entries erase
entries-erase-le c k [] = omega arith
entries-erase-le c k ((j, r) ∷ table) = ground (arith, entries-erase-le c k table)

pub entries-erase_present :
    (c k : Bytes) (q : ℕ) (table : List (Bytes × ℕ))
    → lookup k table ≡ some q
    → entries c (erase k table) + to_nat (belongs c k) ≤ entries c table
unfolding entries erase lookup
entries-erase_present c k q [] h = cc
entries-erase_present c k q ((j, r) ∷ table) h =
    ground (arith, entries-erase_present c k q table, entries-erase-le c k table, bytes_beq_iff j k)
