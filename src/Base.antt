-- ===== src/Base.antt =====
-- Names that every module uses: the libraries' names, passed on, and the shared helpers.
mod Tests
mod Lists
mod Strings
pub mod Decimal
pub mod Split
pub mod Trim
pub mod Fresh
pub use Tests.*
pub use Lists.*
pub use Strings.{
  Text, codes, text_eq_refl, text_eq_sound, text_eq_iff, text_eq_ne, ne-text_eq, includes, is_digit,
  is_lower, is_upper,
}
pub use Decimal.{decimal-injective, IsDigit, decimal-IsDigit, length-decimal, length-decimal-pos}
unfoldable pub use Decimal.{decimal}
unfoldable pub use Strings.{
  text_eq, starts_with, index_of, to_lower, split_on, join, last_code, trim_start, trim_end,
  keep_last,
}
pub use Prim.Native.Nat.{ℕ, zero, suc, ◌+◌, ◌-◌, ◌*◌, ◌/◌, ◌%◌, ◌^◌, ◌≤◌, ◌<◌, min, max}
pub use mathlib.Core.Path.{◌≡◌, refl, sym, ap, ◌∙◌, ◌≡⟨◌⟩◌, ◌∎, subst}
pub use mathlib.Core.Logic.{◌≢◌, ◌↔◌, ◌⊎◌, inl, inr}
pub use mathlib.Core.Bool.{Bool, true, false, not, ◌&&◌, ◌||◌}
pub use mathlib.Core.Option.{Option, none, some}
pub use mathlib.Core.List.{List, [], ◌∷◌, ◌++◌, map, append-nil, append_assoc}
pub use native.Mathlib.Omega.{arith}
