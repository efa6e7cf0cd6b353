-- ===== src/Base.antt =====
-- The names that the other modules share: the libraries', passed on, and those of the children.
mod Tests
mod Lists
mod Maps
mod Text
mod Decimal
mod Utf8
mod Strings
mod Trim
mod Sort
pub use Tests.*
pub use Lists.*
pub use Maps.*
pub use Text.*
pub use Decimal.*
pub use Utf8.*
pub use Strings.*
pub use Trim.*
pub use Sort.*
unfoldable pub use Utf8.{byte_len, slice_to, into_bytes}
unfoldable pub use Strings.{starts_with, contains, split_once, rsplit_once, join, ends_with, concat}
unfoldable pub use Maps.{lookup, insert, remove}
unfoldable pub use Text.{is_whitespace, is_control, str_eq, trim_start, trim_end}
unfoldable pub use Text.{to_ascii_lowercase, strip_prefix, strip_suffix, any, filter_by}
unfoldable pub use Decimal.{decimal}
unfoldable pub use Sort.{insert_by, sort_by, str_leb}
pub use Prim.Native.Nat.{ℕ, zero, suc, ◌+◌, ◌-◌, ◌*◌, ◌/◌, ◌%◌, ◌^◌, ◌≤◌, ◌<◌, min, max}
pub use Prim.Native.String.{String}
pub use mathlib.Core.Path.{◌≡◌, refl, sym, ap, ◌∙◌, subst}
pub use mathlib.Core.Logic.{◌≢◌, ◌↔◌, ◌⊎◌, inl, inr}
pub use mathlib.Core.Bool.{Bool, true, false, not, ◌&&◌, ◌||◌}
pub use mathlib.Core.Option.{Option, none, some}
pub use mathlib.Core.List.{List, [], ◌∷◌, ◌++◌, map}
pub use native.Mathlib.Omega.{arith}
