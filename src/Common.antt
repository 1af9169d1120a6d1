-- ===== src/Common.antt =====
-- What every module shares: the names of the libraries, Boolean tests on numbers, lists measured by
-- native numbers, the outcome of a Go function, and big-endian words in byte slices.
mod Tests
mod Lists
mod Results
mod Bytes
mod Posts
pub mod Bits
mod Drain
pub use Tests.*
pub use Lists.*
unfoldable pub use Results.*
unfoldable pub use Bytes.*
pub use Posts.*
unfoldable pub use Drain.*
pub use Prim.Native.Nat.{
  ℕ, zero, suc, ◌+◌, ◌-◌, ◌*◌, ◌/◌, ◌%◌, ◌^◌, ◌≤◌, ◌<◌, min, max, bit_and, bit_or,
}
pub use mathlib.Core.Path.{◌≡◌, refl, sym, ap, ◌∙◌}
pub use mathlib.Core.Logic.{◌≢◌, ◌↔◌, ◌⊎◌, inl, inr}
pub use mathlib.Core.Bool.{Bool, true, false, not, ◌&&◌, ◌||◌}
pub use mathlib.Core.Option.{Option, none, some}
pub use mathlib.Core.List.{List, [], ◌∷◌, ◌++◌, map, append-nil, append_assoc}
pub use native.Mathlib.Omega.{arith}
