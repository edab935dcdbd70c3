-- ===== src/Base.antt =====
-- Shared names: the libraries', passed on, and the helpers of the children below on Boolean tests,
-- lists over the native numbers, signed integers, keys and association lists. No code of the
-- program is modelled here.
mod Test
mod Lists
mod Pointwise
mod Int
mod Keys
mod Assoc
mod Maps
pub use Test.*
pub use Lists.*
pub use Pointwise.*
unfoldable pub use Int.*
pub use Keys.*
unfoldable pub use Assoc.*
pub use Maps.*
pub use Prim.Native.Nat.{ℕ, zero, suc, ◌+◌, ◌-◌, ◌*◌, ◌/◌, ◌%◌, ◌^◌, ◌≤◌, ◌<◌, min, max}
pub use mathlib.Core.Path.{◌≡◌, refl, sym, ap, ap₂, ◌∙◌}
pub use mathlib.Core.Logic.{◌≢◌, ◌↔◌, ◌⊎◌, inl, inr}
pub use mathlib.Core.Bool.{Bool, true, false, not, ◌&&◌, ◌||◌}
pub use mathlib.Core.Option.{Option, none, some}
pub use mathlib.Core.List.{List, [], ◌∷◌, ◌++◌, map, append-nil, append_assoc, map-append}
pub use native.Mathlib.Omega.{arith}
