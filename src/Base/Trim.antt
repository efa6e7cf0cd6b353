-- ===== src/Base/Trim.antt =====
-- Lemmas on the trims, the strips and the lower case of text.
use mathlib.Core.List.{reverse, reverse-reverse, reverse-append, reverse-cons}
use Prim.Native.Nat.{ℕ}
use mathlib.Core.Path.{◌≡◌, refl, sym, ap, ◌∙◌, subst}
use mathlib.Core.Bool.{Bool, false}
use mathlib.Core.Option.{some}
use mathlib.Core.List.{[], ◌∷◌, ◌++◌}
use native.Mathlib.Omega.{arith}
use nexo_plugin_email.Base.Lists.{All, All-append}
use nexo_plugin_email.Base.Text.{
  Str, is_whitespace, is_ascii_upper, trim_start, trim_end, trim, strip_suffix, to_ascii_lowercase,
}

pub trim_start-keep : (p : ℕ → Bool) (c : ℕ) (s : Str) → p c ≡ false → trim_start p (c ∷ s) ≡ c ∷ s
unfolding trim_start
trim_start-keep p c s h = rw h refl

pub trim_end-keep :
    (p : ℕ → Bool) (s : Str) (c : ℕ) → p c ≡ false → trim_end p (s ++ c ∷ []) ≡ s ++ c ∷ []
unfolding trim_end
trim_end-keep p s c h =
    ap (λ r. reverse (trim_start p r)) (reverse-append s (c ∷ []))
    ∙ ap reverse (trim_start-keep p c (reverse s) h)
    ∙ ap reverse (sym (reverse-append s (c ∷ [])))
    ∙ reverse-reverse (s ++ c ∷ [])

pub All-reverse {ℓ} : (P : ℕ → Type ℓ) (s : Str) → All P s → All P (reverse s)
All-reverse P [] h = tt
All-reverse P (c ∷ s) h =
    subst (All P) (sym (reverse-cons c s))
      (All-append P (reverse s) (c ∷ []) (All-reverse P s h.1) (h.0, tt))

trim_start-All : (p : ℕ → Bool) (s : Str) → All (λ c. p c ≡ false) s → trim_start p s ≡ s
unfolding trim_start
trim_start-All p [] h = refl
trim_start-All p (c ∷ s) h = trim_start-keep p c s h.0

pub trim-All : (s : Str) → All (λ c. is_whitespace c ≡ false) s → trim s ≡ s
unfolding trim_end
trim-All s h =
    ap (trim_end is_whitespace) (trim_start-All is_whitespace s h)
    ∙ ap reverse
        (trim_start-All is_whitespace (reverse s) (All-reverse (λ c. is_whitespace c ≡ false) s h))
    ∙ reverse-reverse s

pub strip_suffix-append : (p : ℕ) (s : Str) → strip_suffix p (s ++ p ∷ []) ≡ some s
unfolding strip_suffix
strip_suffix-append p [] = ground arith
strip_suffix-append p (c ∷ []) = ground arith
strip_suffix-append p (c ∷ d ∷ s) = ground (arith, strip_suffix-append p (d ∷ s))

pub to_ascii_lowercase-All :
    (s : Str) → All (λ c. is_ascii_upper c ≡ false) s → to_ascii_lowercase s ≡ s
unfolding to_ascii_lowercase
to_ascii_lowercase-All [] h = refl
to_ascii_lowercase-All (c ∷ s) h = rw (h.0, to_ascii_lowercase-All s h.1) refl
