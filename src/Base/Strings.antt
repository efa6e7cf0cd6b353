-- ===== src/Base/Strings.antt =====
-- Searching and splitting of `str`.
use mathlib.Core.Bool.{Bool, true, false, ◌&&◌, ◌||◌}
use mathlib.Core.Option.{Option, none, some}
use mathlib.Core.List.{List, [], ◌∷◌, ◌++◌, reverse}
use Prim.Native.Nat.{ℕ}
use nexo_plugin_email.Base.Tests.{◌==◌, if◌then◌else◌}
use nexo_plugin_email.Base.Text.{Str}

unfoldable pub starts_with : Str → Str → Bool
starts_with [] s = true
starts_with (p ∷ ps) [] = false
starts_with (p ∷ ps) (c ∷ s) = (p == c) && starts_with ps s

unfoldable pub ends_with : Str → Str → Bool
unfolding starts_with
ends_with p s = starts_with (reverse p) (reverse s)

unfoldable pub contains : Str → Str → Bool
unfolding starts_with
contains p [] = starts_with p []
contains p (c ∷ s) = starts_with p (c ∷ s) || contains p s

-- split_once and rsplit_once at one character
unfoldable pub split_once : ℕ → Str → Option (Str × Str)
split_once d [] = none
split_once d (c ∷ s) =
    let rest = split_once d s in
    if c == d then some ([], s) else elim rest [ none ↦ none | some (a, b) ↦ some (c ∷ a, b) ]

unfoldable pub rsplit_once : ℕ → Str → Option (Str × Str)
rsplit_once d [] = none
rsplit_once d (c ∷ s) = elim (rsplit_once d s) [
  | some (a, b) ↦ some (c ∷ a, b)
  | none ↦ if c == d then some ([], s) else none
]

-- <[String]>::join
unfoldable pub join : Str → List Str → Str
join sep [] = []
join sep (x ∷ []) = x
join sep (x ∷ y ∷ ys) = x ++ sep ++ join sep (y ∷ ys)

-- successive `push_str`
unfoldable pub concat : List Str → Str
concat [] = []
concat (x ∷ xs) = x ++ concat xs
