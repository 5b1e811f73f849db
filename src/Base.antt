-- ===== src/Base.antt =====
-- Names that the other modules share: the libraries', passed on, and those of the children below
-- (Boolean tests, lists over the native numbers, association lists, machine words, predicates).
mod Tests
mod Lists
mod Assoc
mod Bits
mod Decimal
mod Chunks
mod Text
pub use Tests.*
pub use Lists.*
unfoldable pub use Assoc.*
pub use Bits.*
unfoldable pub use Decimal.*
unfoldable pub use Chunks.*
unfoldable pub use Text.*
pub use Prim.Native.Nat.{ℕ, zero, suc, ◌+◌, ◌-◌, ◌*◌, ◌/◌, ◌%◌, ◌^◌, ◌≤◌, ◌<◌, min, max}
pub use Prim.Native.Nat.{bit_and, bit_or, bit_xor}
pub use mathlib.Core.Path.{◌≡◌, refl, sym, ap, ◌∙◌, subst}
pub use mathlib.Core.Logic.{◌≢◌, ◌↔◌, ◌⊎◌, inl, inr}
pub use mathlib.Core.Bool.{Bool, true, false, not, ◌&&◌, ◌||◌}
pub use mathlib.Core.Option.{Option, none, some}
pub use mathlib.Core.List.{List, [], ◌∷◌, ◌++◌, map, append-nil, append_assoc}
unfoldable pub use native.Mathlib.Decide.{ℕ_discrete}
pub use native.Mathlib.Omega.{arith}
