-- ===== src/Prelude.antt =====
-- The names that the other modules share: the libraries', passed on, and those of the children.
mod Tests
mod Lists
mod Strings
pub mod Int
pub use Tests.*
pub use Lists.*
pub use Strings.{
  Text, codes, str_eq_refl, str_eq→eq, str_eq_iff, split-ne-nil, join-split, has_suffix-append,
  trim_suffix-append,
}
unfoldable pub use Strings.{
  str_eq, lt_text, has_prefix, has_suffix, trim_suffix, join, split, repeat,
}
pub use Prim.Native.Nat.{ℕ, zero, suc, ◌+◌, ◌-◌, ◌*◌, ◌/◌, ◌%◌, ◌^◌, ◌≤◌, ◌<◌, min, max}
pub use mathlib.Core.Bool.{Bool, true, false, not, ◌&&◌, ◌||◌}
pub use mathlib.Core.List.{List, [], ◌∷◌, ◌++◌, append-nil, append_assoc, cons-ne-nil}
unfoldable pub use mathlib.Core.List.{map, filter, foldr, reverse, flat_map}
pub use mathlib.Core.Logic.{◌≢◌, ◌↔◌, ◌⊎◌, inl, inr}
pub use mathlib.Core.Option.{Option, none, some}
pub use mathlib.Core.Path.{◌≡◌, refl, sym, ap, ◌∙◌}
pub use native.Mathlib.Omega.{arith}
