-- ===== src/Common.antt =====
-- Names, tests and list functions that the models of all components share.
mod Tests
mod Lists
mod Weights
mod Options
mod Arrays
mod Int
pub use Tests.*
pub use Lists.*
pub use Options.*
pub use Arrays.*
pub use Int.*
pub use Weights.{weigh, indicator, count, weigh-append, weigh-one}
pub use Prim.Native.Nat.{ℕ, zero, suc, ◌+◌, ◌-◌, ◌*◌, ◌/◌, ◌%◌, ◌^◌, ◌≤◌, ◌<◌}
pub use mathlib.Core.Path.{◌≡◌, refl, sym, ap, ◌∙◌}
pub use mathlib.Core.Logic.{◌≢◌, ◌↔◌, ◌⊎◌, inl, inr}
pub use mathlib.Core.Bool.{Bool, true, false, ◌&&◌, ◌||◌}
pub use mathlib.Core.Option.{Option, none, some}
pub use mathlib.Core.List.{List, [], ◌∷◌, ◌++◌, map}
pub use native.Mathlib.Omega.{arith}
unfoldable pub use native.Mathlib.Decide.{dec_lt, ℕ_discrete}
