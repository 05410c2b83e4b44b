-- ===== src/Base.antt =====
-- The names that every module shares: the libraries' names, passed on, and those of the children.
-- No code of the repository is modelled here.
pub mod Tests
pub mod Lists
pub mod Words
pub mod Runs
pub mod Text
pub mod Runes
pub mod Decimal
pub mod Lines
pub mod Signed
pub mod Strconv
pub use Tests.*
pub use Lists.*
pub use Runs.*
pub use Text.{codes, crlf}
pub use Prim.Native.Nat.{ℕ, zero, suc, ◌+◌, ◌-◌, ◌*◌, ◌/◌, ◌%◌, ◌^◌, ◌≤◌, ◌<◌}
pub use mathlib.Core.Path.{◌≡◌, refl, sym, ap, ◌∙◌}
pub use mathlib.Core.Logic.{◌≢◌, ◌↔◌, ◌⊎◌, inl, inr}
pub use mathlib.Core.Bool.{Bool, true, false, not, ◌&&◌, ◌||◌}
pub use mathlib.Core.Option.{Option, none, some}
pub use mathlib.Core.List.{List, [], ◌∷◌, ◌++◌, map, append_assoc, append-nil}
pub use native.Mathlib.Omega.{arith}
