-- ===== src/Base.antt =====
-- The names that every other module shares: library names passed on, Boolean tests, SQL-like
-- queries over lists of rows, and JavaScript sets of numbers.
mod Tests
mod Rows
mod Sets
mod Order
mod Descending
mod Counts
mod Maps
mod Texts
unfoldable pub use Tests.*
unfoldable pub use Rows.*
unfoldable pub use Sets.*
pub use Order.*
pub use Descending.*
unfoldable pub use Texts.*
unfoldable pub use Counts.*
unfoldable pub use Maps.*
pub use Prim.Native.Nat.{ℕ, zero, suc, ◌+◌, ◌-◌, ◌*◌, ◌≤◌, ◌<◌}
pub use Prim.Native.String.{String}
pub use mathlib.Core.Path.{◌≡◌, refl, sym, ap, ◌∙◌, subst, fun_ext}
pub use mathlib.Core.Logic.{◌≢◌, ◌↔◌, ◌⊎◌, inl, inr}
pub use mathlib.Core.Bool.{Bool, true, false, not, ◌&&◌, ◌||◌}
pub use mathlib.Core.Option.{Option, none, some}
pub use mathlib.Core.List.{List, [], ◌∷◌, ◌++◌, map, Memᴰ}
pub use native.Mathlib.Omega.{arith}
