-- ===== src/Base.antt =====
-- The names that the other modules share.
mod Tests
mod Lists
mod Values
mod Decimal
mod Mask
pub use Tests.*
pub use Lists.*
unfoldable pub use Values.{text_eq}
pub use Values.{Text, Bytes, codes, IsBytes, to_uint32, text_eq_iff}
unfoldable pub use Decimal.{decimal}
pub use Decimal.{decimal-injective, decimal-Lacks-dot, Lacks, Lacks-append, joined-injective}
pub use Mask.{bit_and-255, bit_and-16383, bit_and-15, bit_and-63}
pub use Prim.Native.Nat.{
  ℕ, zero, suc, ◌+◌, ◌-◌, ◌*◌, ◌/◌, ◌%◌, ◌^◌, ◌≤◌, ◌<◌, min, bit_and, bit_or, bit_xor,
}
pub use Prim.Native.String.{String}
pub use mathlib.Core.Path.{◌≡◌, refl, sym, ap, ◌∙◌, subst}
pub use mathlib.Core.Logic.{◌≢◌, ◌↔◌, ◌⊎◌, inl, inr}
pub use mathlib.Core.Bool.{Bool, true, false, not, ◌&&◌, ◌||◌}
pub use mathlib.Core.Option.{Option, none, some}
pub use mathlib.Core.List.{List, [], ◌∷◌, ◌++◌, map}
pub use native.Mathlib.Omega.{arith}
