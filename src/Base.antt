-- ===== src/Base.antt =====
-- The names that every module of the development shares: those of the libraries, passed on, and
-- those of the children, which hold Boolean tests, arrays and the results of fallible code.
mod Tests
mod Arrays
mod Results
mod Bits
mod Bytes
mod Counts
pub use Tests.*
pub use Arrays.*
pub use Results.*
unfoldable pub use Bits.*
unfoldable pub use Bytes.*
pub use Counts.*
pub use Prim.Native.Nat.{ℕ, zero, suc, ◌+◌, ◌-◌, ◌*◌, ◌/◌, ◌%◌, ◌^◌, ◌≤◌, ◌<◌, min, max}
pub use Prim.Native.Nat.{bit_and, bit_or}
pub use mathlib.Core.Path.{◌≡◌, refl, sym, ap, ◌∙◌, subst}
pub use mathlib.Core.Logic.{◌≢◌, ◌↔◌, ◌⊎◌, inl, inr}
pub use mathlib.Core.Bool.{Bool, true, false, not, ◌&&◌, ◌||◌}
pub use mathlib.Core.Option.{Option, none, some}
pub use mathlib.Core.List.{List, [], ◌∷◌, ◌++◌, map, append_assoc, append-nil}
pub use native.Mathlib.Omega.{arith}
