-- ===== src/Prelude.antt =====
-- The names that all parts share: the libraries', passed on, and those of the child modules.
mod Basic
mod Effects
mod Order
mod Maps
mod Keys
mod Owners
unfoldable pub use Basic.*
unfoldable pub use Effects.*
unfoldable pub use Order.*
unfoldable pub use Maps.*
unfoldable pub use Keys.*
unfoldable pub use Owners.*
pub use Prim.Native.Nat.{ℕ, zero, suc, ◌+◌, ◌-◌, ◌*◌, ◌/◌, ◌%◌, ◌≤◌, ◌<◌}
pub use Prim.Native.String.{String}
pub use mathlib.Core.Path.{◌≡◌, refl, sym, ap, ap₂, ◌∙◌}
pub use mathlib.Core.Logic.{◌≢◌, ◌↔◌, ◌⊎◌, inl, inr}
pub use mathlib.Core.Bool.{Bool, true, false, ◌&&◌, ◌||◌}
pub use mathlib.Core.Option.{Option, none, some}
pub use mathlib.Core.List.{List, [], ◌∷◌, ◌++◌, map, Perm, Nodup, append_assoc, append-nil}
pub use native.Mathlib.Omega.{arith}
