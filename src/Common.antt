-- ===== src/Common.antt =====
-- The names that the other modules share: those of the libraries, passed on, and those of the
-- children, which hold the Boolean tests, lists, 64-bit integers, dictionaries, text and the two
-- kinds of fallible result.
mod Tests
mod Lists
mod Int
mod Equality
mod Maps
pub mod Text
pub mod Decimal
pub mod Fallible
pub mod Panics
pub use Tests.*
pub use Lists.*
unfoldable pub use Int.*
pub use Equality.*
unfoldable pub use Maps.*
pub use Fallible.{Result, ok, err, GoError, error_text, reject_client_error}
pub use Panics.{Go, ret, panic, Panic, nil_deref, index_out_of_range, type_assertion}
pub use Prim.Native.Nat.{ℕ, zero, suc, ◌+◌, ◌-◌, ◌*◌, ◌/◌, ◌%◌, ◌^◌, ◌≤◌, ◌<◌}
pub use Prim.Native.String.{String, ◌++◌ as ◌<>◌}
pub use mathlib.Core.Path.{◌≡◌, refl, sym, ap, ◌∙◌}
pub use mathlib.Core.Logic.{◌≢◌, ◌↔◌, ◌⊎◌, inl, inr}
pub use mathlib.Core.Bool.{Bool, true, false, not, ◌&&◌, ◌||◌}
pub use mathlib.Core.Option.{Option, none, some}
pub use mathlib.Core.List.{List, [], ◌∷◌, ◌++◌, map}
pub use native.Mathlib.Omega.{arith}
pub use text.Mathlib.TextEquality.{eq_iff}
