-- ===== src/Base.antt =====
-- Names that every module shares: the libraries' names, passed on, Boolean tests, and lists and
-- tables measured by native numbers.
mod Tests
mod Lists
mod Bits
mod Words
mod Search
mod Joined
mod Text
pub use Tests.*
pub use Lists.*
pub use Bits.*
unfoldable pub use Bits.{byte_bit, set_bit, clear_bit}
pub use Words.*
pub use Joined.{bit_or-Apart, bit_or_page}
unfoldable pub use Text.{lower, lower_text, head}
pub use Text.{take, drop, take-drop, length-drop, take_all, length-take}
unfoldable pub use Search.{first_from}
pub use Search.{First, first_from-First, first_from-zero, first_from_unique, first_from-none}
pub use Prim.Native.Nat.{
  ℕ, zero, suc, ◌+◌, ◌-◌, ◌*◌, ◌/◌, ◌%◌, ◌^◌, ◌≤◌, ◌<◌, bit_and, bit_or, bit_xor,
}
pub use mathlib.Core.Path.{◌≡◌, refl, sym, ap, ap₂, subst, ◌∙◌}
pub use mathlib.Core.Logic.{◌≢◌, ◌↔◌, ◌⊎◌, inl, inr}
pub use mathlib.Core.Bool.{Bool, true, false, not, ◌&&◌, ◌||◌}
pub use mathlib.Core.Option.{Option, none, some}
pub use mathlib.Core.List.{List, [], ◌∷◌, ◌++◌}
pub use native.Mathlib.Omega.{arith}
