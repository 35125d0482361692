-- ===== src/Common.antt =====
-- The names that the other modules share: the libraries', passed on, and those of four children.
mod Tests
mod Lists
mod Dict
mod Texts
pub use Tests.*
pub use Lists.*
pub use Texts.{Text, codes, text_Eq, text_eq_iff, decimal}
unfoldable pub use Texts.{text_eq, is_token_char, decimal_fuel}
unfoldable pub use Dict.{lookup, insert, erase}
pub use Dict.{lookup-insert, lookup-erase, agree_refl, IsDistinct, keep_values, keep_value}
pub use Dict.{lookup-keep_values, keep_values-IsDistinct, insert-IsDistinct, erase-IsDistinct}
pub use Prim.Native.Nat.{ℕ, zero, suc, ◌+◌, ◌-◌, ◌*◌, ◌/◌, ◌%◌, ◌^◌, ◌≤◌, ◌<◌, min, max}
pub use Prim.Native.String.{String}
pub use mathlib.Core.Path.{◌≡◌, refl, sym, ap, subst, ◌∙◌}
pub use mathlib.Core.Logic.{◌≢◌, ◌↔◌, ◌⊎◌, inl, inr}
pub use mathlib.Core.Bool.{Bool, true, false, not, ◌&&◌, ◌||◌}
pub use mathlib.Core.Option.{Option, none, some}
pub use mathlib.Core.List.{List, [], ◌∷◌, ◌++◌, map, append-nil, append_assoc}
pub use native.Mathlib.Omega.{arith}
