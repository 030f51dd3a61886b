-- ===== src/Base.antt =====
-- The names that every module shares: those of the libraries, passed on, tests on numbers and
-- bytes, lists measured by native numbers, Go's machine integers, and Go's error values.
mod Tests
mod Lists
mod Text
mod Errors
pub mod Exec
pub mod Replace
pub mod Perms
mod Int
pub use Tests.*
pub use Lists.*
pub use Text.*
pub use Errors.*
pub use Int.*
pub use Prim.Native.Nat.{ℕ, zero, suc, ◌+◌, ◌-◌, ◌*◌, ◌/◌, ◌%◌, ◌^◌, ◌≤◌, ◌<◌, min}
pub use Prim.Native.String.{String}
pub use mathlib.Core.Path.{◌≡◌, refl, subst, ap₂, sym, ap, ◌∙◌, ◌≡⟨◌⟩◌, ◌∎}
pub use mathlib.Core.Logic.{◌≢◌, ◌↔◌, ◌⊎◌, inl, inr}
pub use mathlib.Core.Bool.{Bool, true, false, not, ◌&&◌, ◌||◌}
pub use mathlib.Core.Option.{Option, none, some}
pub use mathlib.Core.List.{List, [], ◌∷◌, ◌++◌, map}
pub use native.Mathlib.Omega.{arith}
