-- ===== src/Base/Text.antt =====
-- Rust's `str` as the list of its code points, and the functions of `str` and `char` that the
-- program calls.
use Prim.Native.Nat.{ℕ, ◌+◌}
use Prim.Native.Char.{code}
use Prim.Native.String.{String}
use mathlib.Core.Path.{◌≡◌, refl}
use mathlib.Core.Logic.{◌↔◌}
use mathlib.Core.Bool.{Bool, true, false, ◌&&◌, ◌||◌}
use mathlib.Core.Option.{Option, none, some}
use mathlib.Core.List.{List, [], ◌∷◌, reverse}
use native.Mathlib.Omega.{arith}
use nexo_plugin_email.Base.Tests.{leb, ◌==◌, ==_iff, if◌then◌else◌, Eq}

abbrev pub Str : Type 0
Str = List ℕ

abbrev pub codes : String → Str
codes String.[] = []
codes (String.◌∷◌ c s) = code c ∷ codes s

unfoldable pub str_eq : Str → Str → Bool
str_eq [] [] = true
str_eq (c ∷ s) (d ∷ t) = (c == d) && str_eq s t
str_eq _ _ = false

pub str_eq_iff : (s t : Str) → (str_eq s t ≡ true) ↔ (s ≡ t)
unfolding str_eq
str_eq_iff [] [] = ground arith
str_eq_iff [] (d ∷ t) = ground arith
str_eq_iff (c ∷ s) [] = ground arith
str_eq_iff (c ∷ s) (d ∷ t) = ground (arith, ==_iff c d, str_eq_iff s t)

pub str_eq_refl : (s : Str) → str_eq s s ≡ true
str_eq_refl s = (str_eq_iff s s).1 refl

instance abbrev pub str_is_eq : Eq Str
str_is_eq = record { beq = str_eq; beq_iff = str_eq_iff }

-- char::is_whitespace (the Unicode property White_Space) and char::is_control (category Cc)
unfoldable pub is_whitespace : ℕ → Bool
is_whitespace c =
    (leb 9 c && leb c 13)
    || c == 32
    || c == 0x85
    || c == 0xa0
    || c == 0x1680
    || (leb 0x2000 c && leb c 0x200a)
    || c == 0x2028
    || c == 0x2029
    || c == 0x202f
    || c == 0x205f
    || c == 0x3000

unfoldable pub is_control : ℕ → Bool
is_control c = leb c 31 || (leb 127 c && leb c 159)

abbrev pub is_ascii_upper : ℕ → Bool
is_ascii_upper c = leb b'A' c && leb c b'Z'

abbrev pub lower : ℕ → ℕ
lower c = if is_ascii_upper c then c + 32 else c

unfoldable pub to_ascii_lowercase : Str → Str
to_ascii_lowercase [] = []
to_ascii_lowercase (c ∷ s) = lower c ∷ to_ascii_lowercase s

abbrev pub eq_ignore_ascii_case : Str → Str → Bool
eq_ignore_ascii_case s t = str_eq (to_ascii_lowercase s) (to_ascii_lowercase t)

-- drop_while p, as the trims of `str` use it
unfoldable pub trim_start : (ℕ → Bool) → Str → Str
trim_start p [] = []
trim_start p (c ∷ s) = if p c then trim_start p s else c ∷ s

unfoldable pub trim_end : (ℕ → Bool) → Str → Str
unfolding trim_start
trim_end p s = reverse (trim_start p (reverse s))

-- str::trim
abbrev pub trim : Str → Str
trim s = trim_end is_whitespace (trim_start is_whitespace s)

-- str::strip_prefix and str::strip_suffix at one character
unfoldable pub strip_prefix : ℕ → Str → Option Str
strip_prefix p [] = none
strip_prefix p (c ∷ s) = if c == p then some s else none

unfoldable pub strip_suffix : ℕ → Str → Option Str
strip_suffix p [] = none
strip_suffix p (c ∷ []) = if c == p then some [] else none
strip_suffix p (c ∷ d ∷ s) = elim (strip_suffix p (d ∷ s)) [ none ↦ none | some r ↦ some (c ∷ r) ]

-- Iterator::any and Iterator::filter
unfoldable pub any {ℓ} : {A : Type ℓ} → (A → Bool) → List A → Bool
any p [] = false
any p (x ∷ xs) = p x || any p xs

unfoldable pub filter_by {ℓ} : {A : Type ℓ} → (A → Bool) → List A → List A
filter_by p [] = []
filter_by p (x ∷ xs) = let rest = filter_by p xs in if p x then x ∷ rest else rest
