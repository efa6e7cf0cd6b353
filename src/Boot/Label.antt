-- ===== src/Boot/Label.antt =====
-- src/boot.rs: the labels of tenants.
use nexo_plugin_email.Base.{
  ℕ, ◌≤◌, ◌<◌, Str, true, false, not, [], ◌∷◌, ◌≡◌, refl, ap, ◌∙◌, arith, All, any, length, ltb,
  inl, inr, is_whitespace, is_ascii_upper, lower, trim, to_ascii_lowercase, trim-All,
  to_ascii_lowercase-All, Bool-cases,
}
use nexo_plugin_email.Boot.{
  Result, ok, err, empty_label, long_label, invalid_characters, invalid_config, duplicate_label,
  factory_failed, is_label_char, sanitize_trimmed, sanitize_tenant_label,
}

-- A character of a sanitised label: a lower-case ASCII letter, a digit, `_` or `-`.
abbrev pub IsLabelChar : ℕ → Type 0
IsLabelChar c = (is_label_char c ≡ true) × (is_ascii_upper c ≡ false)

abbrev pub IsLabel : Str → Type 0
IsLabel s = (0 < length s) × (length s ≤ 64) × All IsLabelChar s

length-to_ascii_lowercase : (s : Str) → length (to_ascii_lowercase s) ≡ length s
unfolding to_ascii_lowercase
length-to_ascii_lowercase [] = refl
length-to_ascii_lowercase (c ∷ s) = omega (arith, length-to_ascii_lowercase s)

lower-IsLabelChar : (c : ℕ) → is_label_char c ≡ true → IsLabelChar (lower c)
unfolding is_label_char
lower-IsLabelChar c h = ground arith

All-lower :
    (s : Str) → any (λ d. not (is_label_char d)) s ≡ false → All IsLabelChar (to_ascii_lowercase s)
unfolding any to_ascii_lowercase
All-lower [] h = tt
All-lower (c ∷ s) h = (lower-IsLabelChar c (ground arith), All-lower s (ground arith))

not_blank : (s : Str) → All IsLabelChar s → All (λ c. is_whitespace c ≡ false) s
unfolding is_label_char is_whitespace
not_blank [] h = tt
not_blank (c ∷ s) ((letter, lowered), h) = (ground arith, not_blank s h)

not_upper : (s : Str) → All IsLabelChar s → All (λ c. is_ascii_upper c ≡ false) s
not_upper [] h = tt
not_upper (c ∷ s) ((letter, lowered), h) = (lowered, not_upper s h)

none_invalid : (s : Str) → All IsLabelChar s → any (λ d. not (is_label_char d)) s ≡ false
unfolding any
none_invalid [] h = refl
none_invalid (c ∷ s) ((letter, lowered), h) = rw (letter, none_invalid s h) refl

sanitize_trimmed-IsLabel : (s : Str) → IsLabel s → sanitize_trimmed s ≡ ok s
unfolding sanitize_trimmed
sanitize_trimmed-IsLabel [] (some_char, short, h) = absurd (omega (arith, some_char))
sanitize_trimmed-IsLabel (c ∷ s) (some_char, short, h) =
    ground (arith, none_invalid (c ∷ s) h, to_ascii_lowercase-All (c ∷ s) (not_upper (c ∷ s) h))

-- A label is sanitised to itself.
pub sanitize_tenant_label-IsLabel : (s : Str) → IsLabel s → sanitize_tenant_label s ≡ ok s
unfolding sanitize_tenant_label
sanitize_tenant_label-IsLabel s h =
    ap sanitize_trimmed (trim-All s (not_blank s h.2)) ∙ sanitize_trimmed-IsLabel s h

-- What an answer says of the label without its outer blanks.
abbrev pub IsVerdict : Str → Result Str → Type 0
IsVerdict s (ok label) = (label ≡ to_ascii_lowercase s) × IsLabel label
IsVerdict s (err empty_label) = s ≡ []
IsVerdict s (err long_label) = 64 < length s
IsVerdict s (err invalid_characters) = any (λ d. not (is_label_char d)) s ≡ true
IsVerdict s (err invalid_config) = ⊥
IsVerdict s (err (duplicate_label l)) = ⊥
IsVerdict s (err (factory_failed l)) = ⊥

sanitize_trimmed-IsVerdict : (s : Str) → IsVerdict s (sanitize_trimmed s)
unfolding sanitize_trimmed
sanitize_trimmed-IsVerdict [] = refl
sanitize_trimmed-IsVerdict (c ∷ s) = elim (Bool-cases (ltb 64 (length (c ∷ s)))) [
  | inl long ↦ rw long (ground (arith, long))
  | inr short ↦ rw short (elim (Bool-cases (any (λ d. not (is_label_char d)) (c ∷ s))) [
    | inl bad ↦ rw bad bad
    | inr good ↦ rw good (
      refl,
      (
        omega (arith, length-to_ascii_lowercase (c ∷ s)),
        ground (arith, length-to_ascii_lowercase (c ∷ s)),
        All-lower (c ∷ s) good,
      ),
    )
  ])
]

-- The answer for a label is its lower case without the outer blanks, which is then of 1 to 64
-- characters, all of them lower-case ASCII letters, digits, `_` or `-`, and is sanitised to itself;
-- or an error, which is that it is blank, or longer than 64 characters, or has another character.
pub sanitize_tenant_label_lem :
    (raw : Str)
    → IsVerdict (trim raw) (sanitize_tenant_label raw)
      × ((label : Str) → IsLabel label → sanitize_tenant_label label ≡ ok label)
unfolding sanitize_tenant_label
sanitize_tenant_label_lem raw =
    (sanitize_trimmed-IsVerdict (trim raw), sanitize_tenant_label-IsLabel)
