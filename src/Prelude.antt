-- ===== src/Prelude.antt =====
-- Shared names: the libraries', passed on, and those of the children (tests on numbers, lists,
-- text as Go strings, errors as values).
pub mod Tests
pub mod Lists
pub mod GoText
pub mod Errors
pub mod Strings
pub mod Sorting
pub mod Decimal
pub mod NoRepeats
pub mod Rearranged
pub mod Sorted
pub mod Int
unfoldable pub use Tests.*
unfoldable pub use Lists.*
unfoldable pub use GoText.*
unfoldable pub use Errors.*
unfoldable pub use Strings.*
unfoldable pub use Sorting.*
unfoldable pub use Decimal.*
pub use Int.*
pub use Sorted.*
pub use Rearranged.*
pub use NoRepeats.*
pub use Prim.Native.Nat.{ℕ, zero, suc, ◌+◌, ◌-◌, ◌*◌, ◌/◌, ◌%◌, ◌^◌, ◌≤◌, ◌<◌, min, max}
pub use Prim.Native.String.{String}
pub use mathlib.Core.Path.{◌≡◌, refl, sym, ap, ap₂, ◌∙◌}
pub use mathlib.Core.Logic.{◌≢◌, ◌↔◌, ◌⊎◌, inl, inr}
pub use mathlib.Core.Bool.{Bool, true, false, ◌&&◌, ◌||◌, not}
pub use mathlib.Core.Option.{Option, none, some}
pub use mathlib.Core.List.{List, [], ◌∷◌, ◌++◌, map}
pub use native.Mathlib.Omega.{arith}
