-- ===== src/Prelude.antt =====
-- The names that the other modules share: the libraries', passed on, and those of the children.
mod Tests
mod Lists
mod Keyed
mod Text
mod Int
mod Switch
pub use Tests.*
pub use Lists.*
unfoldable pub use Keyed.{lookup, insert, delete}
pub use Keyed.*
pub use Int.*
unfoldable pub use Switch.{switch, has_case}
unfoldable pub use Text.Digits.{is_numeral}
pub use Text.Digits.{is_numeral-decimal, decimal-injective}
unfoldable pub use Text.Split.{split_on, lacks}
pub use Text.Split.{cons_first, split_on-lacks, split_on-join, split_on-injective}
pub use Switch.*
unfoldable pub use Text.{decimal, trim_space, to_lower, replace_char}
pub use Prim.Native.Nat.{ℕ, zero, suc, ◌+◌, ◌-◌, ◌*◌, ◌/◌, ◌%◌, ◌^◌, ◌≤◌, ◌<◌}
pub use Prim.Native.String.{String}
pub use mathlib.Core.Path.{◌≡◌, refl, sym, ap, ◌∙◌, subst, fun_ext}
pub use mathlib.Core.Logic.{◌≢◌, ◌↔◌, ◌⊎◌, inl, inr}
pub use mathlib.Core.Bool.{Bool, true, false, not, ◌&&◌, ◌||◌}
pub use mathlib.Core.Option.{Option, none, some}
pub use mathlib.Core.List.{List, [], ◌∷◌, ◌++◌, map, append_assoc, append-nil}
pub use native.Mathlib.Omega.{arith}
pub use text.Mathlib.TextEquality.{eq_iff}
