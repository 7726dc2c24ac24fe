-- ===== src/Prelude.antt =====
-- The names that the other modules share: the libraries', passed on, and those of the children.
mod Tests
mod Lists
mod Errors
mod Int
mod Strings
pub use Tests.*
pub use Lists.*
pub use Errors.*
pub use Int.{ℤ, pos, negsuc, pos_part, neg_part, int_eq, ltb_ℤ, int_eq_iff}
unfoldable pub use Int.{lt_wf, ◌-ℤ◌}
pub use Prim.Native.Nat.{ℕ, zero, suc, ◌+◌, ◌-◌, ◌*◌, ◌/◌, ◌%◌, ◌^◌, ◌≤◌, ◌<◌}
pub use mathlib.Core.Path.{◌≡◌, refl, sym, ap, ◌∙◌}
pub use mathlib.Core.Logic.{◌≢◌, ◌↔◌, ◌⊎◌, inl, inr}
pub use mathlib.Core.Bool.{Bool, true, false, not, ◌&&◌, ◌||◌}
pub use mathlib.Core.Option.{Option, none, some}
pub use mathlib.Core.List.{List, [], ◌∷◌, ◌++◌, map, append-nil, append_assoc}
pub use native.Mathlib.Omega.{arith}
unfoldable pub use Strings.{
  Text, codes, text_eq, is_empty, contains, is_space, lstrip, rstrip, strip, lower, split_once,
  int_digits, parse_int, starts_with, has_infix, has_suffix, split_char, show_nat, show_int,
}
pub use Strings.{text_eq_refl, eq_of_text_eq, IsDigit, show_nat-IsDigit}
