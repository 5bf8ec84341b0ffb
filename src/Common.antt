-- ===== src/Common.antt =====
-- Shared names: the libraries' names passed on, tests on numbers, lists over native numbers,
-- machine words, texts, and the association lists that stand for `std::unordered_map`.
mod Tests
mod Lists
mod Equality
mod Words
mod Strings
pub mod Int
pub mod Map
pub mod Decimal
pub mod Search
pub use Tests.*
pub use Lists.*
pub use Equality.*
unfoldable pub use Words.*
pub use Strings.*
pub use Prim.Native.Nat.{ℕ, zero, suc, ◌+◌, ◌-◌, ◌*◌, ◌/◌, ◌%◌, ◌^◌, ◌≤◌, ◌<◌}
pub use mathlib.Core.Path.{◌≡◌, refl, sym, ap, ◌∙◌}
pub use mathlib.Core.Logic.{◌≢◌, ◌↔◌, ◌⊎◌, inl, inr}
pub use mathlib.Core.Bool.{Bool, true, false, not, ◌&&◌, ◌||◌}
pub use mathlib.Core.Option.{Option, none, some}
pub use mathlib.Core.List.{List, [], ◌∷◌, ◌++◌, map}
pub use native.Mathlib.Omega.{arith}
