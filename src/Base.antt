-- ===== src/Base.antt =====
-- Shared names: the libraries', passed on, with Boolean tests, lists, byte strings and hash maps
-- over the native numbers. Nothing here models a file of the repository.
mod Test
mod Lists
mod ByteString
mod HashMap
mod Readers
mod Text
pub mod Int
pub use Test.*
pub use Lists.*
pub use ByteString.*
pub use HashMap.*
unfoldable pub use Readers.*
unfoldable pub use Text.*
pub use Prim.Native.Nat.{ℕ, zero, suc, ◌+◌, ◌-◌, ◌*◌, ◌/◌, ◌%◌, ◌^◌, ◌≤◌, ◌<◌}
pub use mathlib.Core.Path.{◌≡◌, refl, sym, ap, ◌∙◌}
pub use mathlib.Core.Logic.{◌≢◌, ◌↔◌, ◌⊎◌, inl, inr}
pub use mathlib.Core.Bool.{Bool, true, false, not, ◌&&◌, ◌||◌}
pub use mathlib.Core.Option.{Option, none, some}
pub use mathlib.Core.List.{List, [], ◌∷◌, ◌++◌, map}
pub use native.Mathlib.Omega.{arith}
