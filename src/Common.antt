-- ===== src/Common.antt =====
-- Names that every module shares: the libraries' numbers, lists, options and paths, the Boolean
-- tests on native numbers, lists measured by them, and the text and numbers of the source language.
pub mod Tests
pub mod Lists
pub mod Texts
pub mod Js
pub mod Decimals
pub use Tests.*
pub use Lists.*
unfoldable pub use Texts.*
unfoldable pub use Js.*
unfoldable pub use Decimals.*
pub use Prim.Native.Nat.{ℕ, zero, suc, ◌+◌, ◌-◌, ◌*◌, ◌/◌, ◌%◌, ◌^◌, ◌≤◌, ◌<◌}
pub use Prim.Native.String.{String}
pub use mathlib.Core.Path.{◌≡◌, refl, sym, ap, ◌∙◌, subst}
pub use mathlib.Core.Logic.{◌≢◌, ◌↔◌, ◌⊎◌, inl, inr}
pub use mathlib.Core.Bool.{Bool, true, false, not, ◌&&◌, ◌||◌}
pub use mathlib.Core.Option.{Option, none, some}
pub use mathlib.Core.List.{List, [], ◌∷◌, ◌++◌, append-nil, append_assoc, map}
pub use native.Mathlib.Omega.{arith}
