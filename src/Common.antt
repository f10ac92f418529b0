-- ===== src/Common.antt =====
-- The names that the other modules share: the libraries', passed on, Boolean tests on the native
-- numbers, the signed integers that callers may pass, and lists filtered by a test.
mod Tests
mod Lists
mod Ints
mod Texts
unfoldable pub use Tests.*
unfoldable pub use Lists.*
unfoldable pub use Ints.*
unfoldable pub use Texts.*
pub use Prim.Native.Nat.{ℕ, zero, suc, ◌+◌, ◌-◌, ◌*◌, ◌/◌, ◌≤◌, ◌<◌}
pub use mathlib.Core.Path.{◌≡◌, refl, sym, ap, ◌∙◌, fun_ext, subst}
pub use mathlib.Core.Logic.{◌≢◌, ◌↔◌, ◌⊎◌, inl, inr}
pub use mathlib.Core.Bool.{Bool, true, false, not, ◌&&◌, ◌||◌}
pub use mathlib.Core.Option.{Option, none, some}
pub use mathlib.Core.List.{List, [], ◌∷◌, ◌++◌, map, reverse, append_assoc, append-nil}
pub use native.Mathlib.Omega.{arith}
