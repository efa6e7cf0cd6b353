-- ===== src/Base/Utf8.antt =====
-- Byte lengths of `str`: `len`, `&s[..n]` with its panic, and `is_char_boundary`.
use Prim.Native.Nat.{ℕ, zero, suc, ◌+◌, ◌-◌, ◌/◌, ◌%◌, ◌≤◌}
use mathlib.Core.Path.{◌≡◌}
use mathlib.Core.Option.{Option, none, some}
use mathlib.Core.List.{List, [], ◌∷◌, ◌++◌}
use native.Mathlib.Omega.{arith}
use nexo_plugin_email.Base.Tests.{ltb, leb, if◌then◌else◌}
use nexo_plugin_email.Base.Text.{Str}

abbrev pub utf8_len : ℕ → ℕ
utf8_len c = if ltb c 0x80 then 1 else if ltb c 0x800 then 2 else if ltb c 0x10000 then 3 else 4

unfoldable pub byte_len : Str → ℕ
byte_len [] = 0
byte_len (c ∷ s) = utf8_len c + byte_len s

-- `&s[..n]`: `none` is the panic, out of range or inside a character.
unfoldable pub slice_to : ℕ → Str → Option Str
slice_to zero s = some []
slice_to (suc n) [] = none
slice_to (suc n) (c ∷ s) =
    let rest = slice_to (suc n - utf8_len c) s in
    if leb (utf8_len c) (suc n) then elim rest [ none ↦ none | some r ↦ some (c ∷ r) ] else none

-- The bytes of one character, and of a text.
abbrev pub utf8_char : ℕ → List ℕ
utf8_char c =
    if ltb c 0x80
    then c ∷ []
    else if ltb c 0x800
    then (0xc0 + c / 64) ∷ (0x80 + c % 64) ∷ []
    else if ltb c 0x10000
    then (0xe0 + c / 4096) ∷ (0x80 + c / 64 % 64) ∷ (0x80 + c % 64) ∷ []
    else (0xf0 + c / 262144) ∷ (0x80 + c / 4096 % 64) ∷ (0x80 + c / 64 % 64) ∷ (0x80 + c % 64) ∷ []

unfoldable pub into_bytes : Str → List ℕ
into_bytes [] = []
into_bytes (c ∷ s) = utf8_char c ++ into_bytes s

pub utf8_len_pos : (c : ℕ) → (1 ≤ utf8_len c) × (utf8_len c ≤ 4)
utf8_len_pos c = ground arith

pub byte_len-append : (s t : Str) → byte_len (s ++ t) ≡ byte_len s + byte_len t
unfolding byte_len
byte_len-append [] t = omega arith
byte_len-append (c ∷ s) t = omega (arith, byte_len-append s t)
