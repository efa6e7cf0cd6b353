-- ===== src/MimeText/Prefix.antt =====
-- src/mime_parse.rs: `truncate_utf8`, by bytes.
use mathlib.Core.List.{append-nil}
use mathlib.Core.Option.{some-injective}
use nexo_plugin_email.Base.{
  ℕ, zero, suc, ◌+◌, ◌-◌, ◌≤◌, Str, Bool, true, false, Option, none, some, [], ◌∷◌, ◌++◌, ◌≡◌, refl,
  sym, ap, arith, leb, ltb, if◌then◌else◌, Bool-cases, inl, inr, byte_len, slice_to, utf8_len,
  subst, leb→le, ◌⊎◌,
}
use nexo_plugin_email.MimeText.{cut_at, truncate_utf8}

-- `r` is the beginning of `s`, and has at most `n` bytes.
pub record IsPrefix (n : ℕ) (s r : Str) : Type 0 where
  pub rest : Str
  pub split : s ≡ r ++ rest
  pub short : byte_len r ≤ n

IsPrefix-cons :
    (n : ℕ) (c : ℕ) (s r : Str)
    → utf8_len c ≤ n
    → IsPrefix (n - utf8_len c) s r
    → IsPrefix n (c ∷ s) (c ∷ r)
unfolding byte_len
IsPrefix-cons n c s r le p = record {
  rest = p.rest;
  split = ap (λ t. c ∷ t) p.split;
  short = fits (utf8_len c) (byte_len r) le p.short;
}
  where
    fits : (u b : ℕ) → u ≤ n → b ≤ n - u → u + b ≤ n
    fits u b h k = omega arith

slice_to-IsPrefix : (n : ℕ) (s r : Str) → slice_to n s ≡ some r → IsPrefix n s r
unfolding slice_to
slice_to-IsPrefix zero s r h =
    subst (IsPrefix 0 s) (some-injective _ _ h)
      (record { rest = s; split = refl; short = unfold byte_len in omega arith })
slice_to-IsPrefix (suc n) [] r h = ground arith
slice_to-IsPrefix (suc n) (c ∷ s) r h =
    cut (leb (utf8_len c) (suc n)) refl (slice_to (suc n - utf8_len c) s)
      (λ t. slice_to-IsPrefix (suc n - utf8_len c) s t) h
  where
    cut :
        (b : Bool)
        → leb (utf8_len c) (suc n) ≡ b
        → (o : Option Str) → ((t : Str) → o ≡ some t → IsPrefix (suc n - utf8_len c) s t)
        → (if b then (elim o [ none ↦ none | some t ↦ some (c ∷ t) ]) else none) ≡ some r
        → IsPrefix (suc n) (c ∷ s) r
    cut false e o ih q = ground arith
    cut true e none ih q = ground arith
    cut true e (some t) ih q =
        subst (IsPrefix (suc n) (c ∷ s)) (some-injective _ _ q)
          (IsPrefix-cons (suc n) c s t (leb→le _ _ e) (ih t refl))

cut_at-IsPrefix : (s : Str) (n : ℕ) → IsPrefix n s (cut_at s n)
unfolding cut_at
cut_at-IsPrefix s zero = record { rest = s; split = refl; short = unfold byte_len in omega arith }
cut_at-IsPrefix s (suc n) = found (slice_to (suc n) s) refl (cut_at-IsPrefix s n)
  where
    found :
        (o : Option Str)
        → slice_to (suc n) s ≡ o
        → IsPrefix n s (cut_at s n)
        → IsPrefix (suc n) s (elim o [ some r ↦ r | none ↦ cut_at s n ])
    found (some r) e ih = slice_to-IsPrefix (suc n) s r e
    found none e ih = record { rest = ih.rest; split = ih.split; short = omega (arith, ih.short) }

-- The text that is left is a beginning of the old one, of at most `max` bytes; it is said to be cut
-- exactly when the old one has more, and otherwise it is the old one.
pub truncate_utf8_lem :
    (s : Str) (max : ℕ)
    → IsPrefix max s (truncate_utf8 s max).0
      × ((truncate_utf8 s max).1 ≡ ltb max (byte_len s))
      × (((truncate_utf8 s max).1 ≡ true) ⊎ ((truncate_utf8 s max).0 ≡ s))
unfolding truncate_utf8
truncate_utf8_lem s max = elim (Bool-cases (leb (byte_len s) max)) [
  | inl e ↦ rw e (
    record { rest = []; split = sym (append-nil s); short = leb→le _ _ e },
    ground arith,
    inr refl,
  )
  | inr e ↦ rw e (cut_at-IsPrefix s max, ground arith, inl refl)
]
