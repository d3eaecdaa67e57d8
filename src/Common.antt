-- ===== src/Common.antt =====
-- The names that the other modules share: the libraries', passed on, and those of the children.
pub mod Tests
pub mod Lists
pub mod Strings
pub mod Affixes
pub use Tests.*
pub use Lists.*
pub use Affixes.*
unfoldable pub use Tests.{text_beq}
unfoldable pub use Strings.{
  Text, codes, utf8_char, as_bytes, is_whitespace, is_ascii_digit, to_ascii_lowercase,
  eq_ignore_ascii_case, trim_start, trim_end, trim, strip_prefix, starts_with, strip_suffix,
  ends_with, contains_text, split, split_whitespace, split_once, lines, decimal, parse_uint,
}
pub use Prim.Native.Nat.{ℕ, zero, suc, ◌+◌, ◌-◌, ◌*◌, ◌/◌, ◌%◌, ◌^◌, ◌≤◌, ◌<◌, min, max}
pub use Prim.Native.String.{String}
pub use mathlib.Core.Path.{◌≡◌, refl, sym, ap, ap₂, subst, ◌∙◌, fun_ext}
pub use mathlib.Core.Logic.{◌≢◌, ◌↔◌, ◌⊎◌, inl, inr}
pub use mathlib.Core.Bool.{Bool, true, false, not, ◌&&◌, ◌||◌}
pub use mathlib.Core.Option.{Option, none, some}
pub use mathlib.Core.List.{List, [], ◌∷◌, ◌++◌, map, append-nil, append_assoc}
pub use native.Mathlib.Omega.{arith}
