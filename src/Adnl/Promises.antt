-- ===== src/Adnl/Promises.antt =====
-- Counting the promises that wait in the table of ton-egress-node/src/ton_adnl_backend.cpp, and
-- those that were settled.
use ton_tunnel.Base.{
  ℕ, ◌+◌, ◌≡◌, refl, sym, ap, ◌∙◌, List, [], ◌∷◌, Bool, true, false, none, some, Bytes, ◌==◌,
  lookup, insert, erase, lookup-erase, lookup-insert, bytes_eq, bytes_beq, bytes_beq_iff, arith,
  Bool-cases, inl, inr,
}
use ton_tunnel.Adnl.{Event, answered, failed, messaged}

abbrev pub one_if : Bool → ℕ
one_if true = 1
one_if false = 0

-- How often a promise was settled, and how often it waits.
unfoldable pub settled : ℕ → List Event → ℕ
settled p [] = 0
settled p (answered q payload ∷ events) = one_if (q == p) + settled p events
settled p (failed q text ∷ events) = one_if (q == p) + settled p events
settled p (messaged destination payload ∷ events) = settled p events

unfoldable pub waiting : ℕ → List (Bytes × ℕ) → ℕ
waiting p [] = 0
waiting p ((key, q) ∷ table) = one_if (q == p) + waiting p table

-- No key waits twice.
abbrev pub IsTable : List (Bytes × ℕ) → Type 0
IsTable [] = Unit
IsTable ((key, q) ∷ table) = (lookup key table ≡ none) × IsTable table

pub waiting-insert :
    (p : ℕ) (key : Bytes) (q : ℕ) (table : List (Bytes × ℕ))
    → lookup key table ≡ none
    → waiting p (insert key q table) ≡ one_if (q == p) + waiting p table
unfolding waiting insert lookup
waiting-insert p key q [] h = omega arith
waiting-insert p key q ((j, r) ∷ table) h = ground (arith, waiting-insert p key q table, h)

waiting-erase_absent :
    (p : ℕ) (key : Bytes) (table : List (Bytes × ℕ))
    → lookup key table ≡ none
    → waiting p (erase key table) ≡ waiting p table
unfolding waiting erase lookup
waiting-erase_absent p key [] h = refl
waiting-erase_absent p key ((j, r) ∷ table) h = ground (arith, waiting-erase_absent p key table, h)

pub waiting-erase :
    (p : ℕ) (key : Bytes) (q : ℕ) (table : List (Bytes × ℕ))
    → IsTable table
    → lookup key table ≡ some q
    → one_if (q == p) + waiting p (erase key table) ≡ waiting p table
unfolding waiting erase lookup
waiting-erase p key q [] t h = cc
waiting-erase p key q ((j, r) ∷ table) t h = elim (Bool-cases (bytes_beq j key)) [
  | inl same ↦
      let at : j ≡ key = (bytes_beq_iff j key).0 same in
      let gone : lookup key table ≡ none = sym (ap (λ k. lookup k table) at) ∙ t.0 in
      ground (arith, h, same, waiting-erase_absent p key table gone)
  | inr other ↦ ground (arith, h, other, waiting-erase p key q table t.1)
]

pub IsTable-erase :
    (key : Bytes) (table : List (Bytes × ℕ)) → IsTable table → IsTable (erase key table)
unfolding erase lookup
IsTable-erase key [] t = tt
IsTable-erase key ((j, r) ∷ table) t =
    ground (arith, t, IsTable-erase key table t.1, lookup-erase key j table)

pub IsTable-insert :
    (key : Bytes) (q : ℕ) (table : List (Bytes × ℕ)) → IsTable table → IsTable (insert key q table)
unfolding insert lookup
IsTable-insert key q [] t = (refl, tt)
IsTable-insert key q ((j, r) ∷ table) t = ground (
  arith,
  t,
  IsTable-insert key q table t.1,
  lookup-insert key j q table,
  bytes_beq_iff j key,
  bytes_beq_iff key j,
)
