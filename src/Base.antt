-- ===== src/Base.antt =====
-- Names that the other modules share: the libraries', and those of the modules below. They model
-- no code of their own.
mod Tests
mod Lists
mod Money
mod Double
mod Text
unfoldable pub use Tests.*
unfoldable pub use Lists.*
unfoldable pub use Money.*
pub use Double.*
unfoldable pub use Text.*
pub use Prim.Native.Nat.{ℕ, zero, suc, ◌+◌, ◌-◌, ◌*◌, ◌/◌, ◌≤◌, ◌<◌}
pub use mathlib.Core.Path.{◌≡◌, refl, sym, ap, subst, ◌∙◌}
pub use mathlib.Core.Logic.{◌≢◌, ◌⊎◌, inl, inr}
pub use mathlib.Core.Bool.{Bool, true, false, not, ◌&&◌, ◌||◌}
pub use mathlib.Core.Option.{Option, none, some}
pub use mathlib.Core.List.{List, [], ◌∷◌, ◌++◌, map}
pub use native.Mathlib.Omega.{arith}
