-- ===== src/Base.antt =====
-- What every module shares: the libraries' names, Boolean tests, lists, text, results and ordered maps.
mod Tests
mod Lists
mod Results
mod Text
pub mod Words
pub mod Decimal
pub mod Pieces
pub mod OrderedMap
pub use Tests.*
pub use Lists.*
pub use Results.*
unfoldable pub use Text.{
  Str, txt, cmp, str_eq, opt_str_eq, starts_with, ends_with, contains_str, split, trim_start,
  trim_end, trim, trim_end_matches, strip_prefix, rsplit_once, mem_str, is_whitespace, is_control,
  is_ascii_digit, is_ascii_alphanumeric, to_ascii_lower, to_ascii_lowercase, to_ascii_upper,
  utf8_len, char_utf8_len, utf8, char_utf8, join, cons_head,
}
pub use Text.{cmp_iff, str_eq_iff, str_eq_refl, opt_str_eq_iff}
pub use Prim.Native.Nat.{ℕ, zero, suc, ◌+◌, ◌-◌, ◌*◌, ◌/◌, ◌%◌, ◌^◌, ◌≤◌, ◌<◌, min, max}
pub use mathlib.Core.Path.{◌≡◌, refl, sym, ap, ◌∙◌, subst, ◌≡⟨◌⟩◌, ◌∎}
pub use mathlib.Core.Logic.{◌≢◌, ◌↔◌, ◌⊎◌, inl, inr}
pub use mathlib.Core.Bool.{Bool, true, false, not, ◌&&◌, ◌||◌}
pub use mathlib.Core.Option.{Option, none, some}
pub use mathlib.Core.List.{List, [], ◌∷◌, ◌++◌, map, reverse}
pub use native.Mathlib.Omega.{arith}
