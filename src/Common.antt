-- ===== src/Common.antt =====
-- Names that every component shares: the libraries', passed on, Boolean tests, lists indexed by
-- native numbers, C integers as bit patterns, and bounded checks by evaluation.
mod Tests
mod Lists
mod Words
mod Bits
mod Text
mod Elements
pub use Tests.*
pub use Lists.*
pub use Words.*
pub use Text.*
pub use Elements.*
unfoldable pub use Bits.*
pub use Prim.Native.Nat.{ℕ, zero, suc, ◌+◌, ◌-◌, ◌*◌, ◌/◌, ◌%◌, ◌^◌, ◌≤◌, ◌<◌, min}
pub use Prim.Native.Nat.{max, bit_and, bit_or, bit_xor}
pub use mathlib.Core.Path.{◌≡◌, refl, sym, ap, ap₂, ◌∙◌}
pub use mathlib.Core.Logic.{◌≢◌, ◌↔◌, ◌⊎◌, inl, inr}
pub use mathlib.Core.Bool.{Bool, true, false, not, ◌&&◌, ◌||◌}
pub use mathlib.Core.Option.{Option, none, some}
pub use mathlib.Core.List.{List, [], ◌∷◌, ◌++◌, map, reverse, append_assoc, append-nil}
pub use mathlib.Core.List.{reverse-append}
pub use native.Mathlib.Omega.{arith}
