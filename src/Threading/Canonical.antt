-- ===== src/Threading/Canonical.antt =====
-- src/threading.rs: `canonicalize_message_id` and the form of its answers.
use mathlib.Core.Option.{some-injective}
use nexo_plugin_email.Base.{
  ℕ, Str, Bool, true, false, none, some, [], ◌∷◌, ◌++◌, ◌≡◌, ◌≢◌, refl, ap, ◌∙◌, subst, arith,
  if◌then◌else◌, All, any, is_whitespace, is_control, is_ascii_upper, lower, trim, trim_end,
  strip_prefix, to_ascii_lowercase, trim_start-keep, trim_end-keep, trim-All, strip_suffix-append,
  to_ascii_lowercase-All,
}
use nexo_plugin_email.Threading.{is_rejected, unbracket, accept, canonicalize_message_id, bracketed}

-- A character of a canonical id: no control, whitespace or comma, and not an upper-case letter.
abbrev pub IsPlain : ℕ → Type 0
IsPlain c = (is_rejected c ≡ false) × (is_ascii_upper c ≡ false)

abbrev pub IsCanonical : Str → Type 0
IsCanonical c = (c ≢ []) × All IsPlain c

lower-IsPlain : (c : ℕ) → is_rejected c ≡ false → IsPlain (lower c)
unfolding is_rejected is_control is_whitespace
lower-IsPlain c h = ground arith

to_ascii_lowercase-IsPlain :
    (s : Str) → any is_rejected s ≡ false → All IsPlain (to_ascii_lowercase s)
unfolding any to_ascii_lowercase
to_ascii_lowercase-IsPlain [] h = tt
to_ascii_lowercase-IsPlain (c ∷ s) h =
    (lower-IsPlain c (ground arith), to_ascii_lowercase-IsPlain s (ground arith))

lowered-IsCanonical :
    (x : ℕ) (s : Str) → any is_rejected (x ∷ s) ≡ false → IsCanonical (to_ascii_lowercase (x ∷ s))
unfolding to_ascii_lowercase
lowered-IsCanonical x s h = (ground arith, to_ascii_lowercase-IsPlain (x ∷ s) h)

accept-IsCanonical : (s c : Str) → accept s ≡ some c → IsCanonical c
unfolding accept
accept-IsCanonical [] c h = ground arith
accept-IsCanonical (x ∷ s) c h = decide (any is_rejected (x ∷ s)) refl h
  where
    decide :
        (b : Bool)
        → any is_rejected (x ∷ s) ≡ b
        → (if b then none else some (to_ascii_lowercase (x ∷ s))) ≡ some c
        → IsCanonical c
    decide true e h' = ground arith
    decide false e h' = subst IsCanonical (some-injective _ _ h') (lowered-IsCanonical x s e)

canonicalize-IsCanonical : (s c : Str) → canonicalize_message_id s ≡ some c → IsCanonical c
unfolding canonicalize_message_id
canonicalize-IsCanonical s c h = split (trim s) h
  where
    split :
        (t : Str)
        → (elim t [ [] ↦ none | x ∷ r ↦ accept (trim (unbracket (x ∷ r))) ]) ≡ some c
        → IsCanonical c
    split [] h' = ground arith
    split (x ∷ r) h' = accept-IsCanonical (trim (unbracket (x ∷ r))) c h'

any_of_All : (s : Str) → All IsPlain s → any is_rejected s ≡ false
unfolding any
any_of_All [] h = refl
any_of_All (c ∷ s) h = rw (h.0.0, any_of_All s h.1) refl

not_whitespace : (s : Str) → All IsPlain s → All (λ c. is_whitespace c ≡ false) s
unfolding is_rejected
not_whitespace [] h = tt
not_whitespace (c ∷ s) h = (ground (arith, h.0.0), not_whitespace s h.1)

not_upper : (s : Str) → All IsPlain s → All (λ c. is_ascii_upper c ≡ false) s
not_upper [] h = tt
not_upper (c ∷ s) h = (h.0.1, not_upper s h.1)

accept_lem : (c : Str) → IsCanonical c → accept c ≡ some c
unfolding accept
accept_lem [] h = elim (h.0 refl) [ ]
accept_lem (x ∷ s) h =
    rw (any_of_All (x ∷ s) h.1) (ap some (to_ascii_lowercase-All (x ∷ s) (not_upper (x ∷ s) h.1)))

trim-bracketed : (c : Str) → trim (bracketed c) ≡ bracketed c
unfolding is_whitespace
trim-bracketed c =
    ap (trim_end is_whitespace) (trim_start-keep is_whitespace b'<' (c ++ b'>' ∷ []) refl)
    ∙ trim_end-keep is_whitespace (b'<' ∷ c) b'>' refl

unbracket-bracketed : (c : Str) → unbracket (bracketed c) ≡ c
unfolding unbracket strip_prefix
unbracket-bracketed c =
    ap (λ o. elim o [ none ↦ bracketed c | some t ↦ t ]) (strip_suffix-append b'>' c)

-- A canonical id is not empty and has no control character, whitespace, comma or upper-case
-- letter. In angle brackets it is canonical again, with itself as the outcome.
canonicalize_message_id_lem :
    (s c : Str)
    → canonicalize_message_id s ≡ some c
    → IsCanonical c × (canonicalize_message_id (bracketed c) ≡ some c)
unfolding canonicalize_message_id
canonicalize_message_id_lem s c h =
    let canonical = canonicalize-IsCanonical s c h in
    (
      canonical,
      ap (λ t. elim t [ [] ↦ none | x ∷ r ↦ accept (trim (unbracket (x ∷ r))) ]) (trim-bracketed c)
          ∙ ap (λ t. accept (trim t)) (unbracket-bracketed c)
          ∙ ap accept (trim-All c (not_whitespace c canonical.1))
          ∙ accept_lem c canonical,
    )
