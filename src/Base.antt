-- ===== src/Base.antt =====
-- The names that the other modules share: the libraries', passed on, and those of the children.
mod Tests
mod Lists
mod Bytes
mod Xor
mod Counts
mod Predicates
mod Text
pub use Tests.*
pub use Lists.*
unfoldable pub use Bytes.{of_le, le_bytes, slice?, read_le?}
pub use Bytes.{
  length-le_bytes, of_le-le_bytes, of_le-lt, AllBytes, le_bytes-AllBytes, slice?-append,
  read_le?-append,
}
unfoldable pub use Text.{same_text}
pub use Text.{codes, same_text_refl, same_text→eq}
pub use Predicates.*
pub use Counts.*
pub use Xor.{xor-lt, xor_cancel}
pub use Prim.Native.Nat.{bit_xor}
pub use Prim.Native.Nat.{ℕ, zero, suc, ◌+◌, ◌-◌, ◌*◌, ◌/◌, ◌%◌, ◌^◌, ◌≤◌, ◌<◌, min}
pub use mathlib.Core.Path.{◌≡◌, refl, sym, ap, ◌∙◌, subst}
pub use mathlib.Core.Logic.{◌≢◌, ◌↔◌, ◌⊎◌, inl, inr}
pub use mathlib.Core.Bool.{Bool, true, false, ◌&&◌, ◌||◌, not}
pub use mathlib.Core.Option.{Option, none, some, some-injective}
pub use mathlib.Core.List.{
  List, [], ◌∷◌, ◌++◌, map, append_assoc, append-nil, reverse, reverse-cons,
}
pub use native.Mathlib.Omega.{arith}
