-- ===== src/Common.antt =====
-- Names that every part shares: those of the libraries, and the helpers of the child modules.
mod Tests
mod Lists
mod Xor
mod Outcomes
mod BigEndian
pub use Tests.*
unfoldable pub use Lists.*
unfoldable pub use Xor.*
unfoldable pub use Outcomes.*
unfoldable pub use BigEndian.*
pub use Prim.Native.Nat.{ℕ, zero, suc, ◌+◌, ◌-◌, ◌*◌, ◌/◌, ◌%◌, ◌^◌, ◌≤◌, ◌<◌, min}
pub use mathlib.Core.Path.{◌≡◌, refl, sym, ap, ap₂, ◌∙◌}
pub use mathlib.Core.Logic.{◌≢◌, ◌↔◌, ◌⊎◌, inl, inr}
pub use mathlib.Core.Bool.{Bool, true, false, ◌&&◌, ◌||◌, not}
pub use mathlib.Core.Option.{Option, none, some}
pub use mathlib.Core.List.{List, [], ◌∷◌, ◌++◌, map, append-nil, append_assoc}
pub use native.Mathlib.Omega.{arith}
