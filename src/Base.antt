-- ===== src/Base.antt =====
-- The names that the other modules share: the libraries', passed on, and those of four children.
mod Tests
mod Lists
mod Results
mod Text
pub mod Int
pub use Tests.*
pub use Lists.*
pub use Results.*
unfoldable pub use Text.*
pub use Prim.Native.Nat.{ℕ, zero, suc, ◌+◌, ◌-◌, ◌*◌, ◌/◌, ◌%◌, ◌^◌, ◌≤◌, ◌<◌}
pub use mathlib.Core.Path.{◌≡◌, refl, sym, ap, ◌∙◌, subst}
pub use mathlib.Core.Logic.{◌≢◌, ◌↔◌, ◌⊎◌, inl, inr}
pub use mathlib.Core.Bool.{Bool, true, false, not, ◌&&◌, ◌||◌}
pub use mathlib.Core.Option.{Option, none, some}
pub use mathlib.Core.List.{List, [], ◌∷◌, foldl, append-nil, append_assoc}
unfoldable pub use mathlib.Core.List.{◌++◌, map, reverse}
pub use native.Mathlib.Omega.{arith}
