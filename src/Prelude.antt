-- ===== src/Prelude.antt =====
-- What the other modules share: the libraries' names, Boolean tests on numbers, lists measured by
-- native numbers, texts as lists of UTF-16 code units, and signed integers.
pub mod Tests
pub mod Lists
pub mod Bools
pub mod Int
pub mod Eq
pub mod Maps
pub mod Text
pub mod Numbers
pub mod Results
pub mod Actions
pub use Tests.*
pub use Lists.*
pub use Prim.Native.Nat.{ℕ, zero, suc, ◌+◌, ◌-◌, ◌*◌, ◌/◌, ◌%◌, ◌^◌, ◌≤◌, ◌<◌}
pub use Prim.Native.String.{String}
pub use mathlib.Core.Path.{◌≡◌, refl, sym, ap, subst, ◌∙◌}
pub use mathlib.Core.Logic.{◌≢◌, ◌↔◌, ◌⊎◌, inl, inr}
pub use mathlib.Core.Bool.{Bool, true, false, not, ◌&&◌, ◌||◌}
pub use mathlib.Core.Option.{Option, none, some}
pub use mathlib.Core.List.{List, [], ◌∷◌, ◌++◌, map}
pub use native.Mathlib.Omega.{arith}
