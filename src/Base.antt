-- ===== src/Base.antt =====
-- Names shared by every component: the library's, passed on, and Boolean tests, lists and
-- bit facts over the native numbers.
pub mod Tests
pub mod Lists
pub mod Loops
pub mod Occurs
pub mod Bits
pub mod Powers
pub mod Int
pub mod Words
pub use Prim.Native.Nat.{
  ℕ, zero, suc, ◌+◌, ◌-◌, ◌*◌, ◌/◌, ◌%◌, ◌^◌, ◌≤◌, ◌<◌, bit_and, bit_or, bit_xor,
}
pub use mathlib.Core.Path.{◌≡◌, refl, sym, ap, ◌∙◌}
pub use mathlib.Core.Logic.{◌≢◌, ◌↔◌, ◌⊎◌, inl, inr}
pub use mathlib.Core.Bool.{Bool, true, false, ◌&&◌, ◌||◌, not}
pub use mathlib.Core.Option.{Option, none, some}
pub use mathlib.Core.List.{List, [], ◌∷◌, ◌++◌}
unfoldable pub use mathlib.Core.List.{flatten, map}
pub use native.Mathlib.Omega.{arith}
