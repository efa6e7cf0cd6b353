-- ===== src/Threading/References.antt =====
-- src/threading.rs: what a truncated References chain holds.
use mathlib.Core.Option
use mathlib.Core.Option.{some-injective}
use nexo_plugin_email.Base.{
  ℕ, zero, suc, ◌+◌, ◌-◌, ◌≤◌, Str, Bool, true, Option, none, some, List, [], ◌∷◌, ◌++◌, ◌≡◌, ◌⊎◌,
  inl, inr, refl, sym, ◌∙◌, arith, if◌then◌else◌, leb, Bool-cases, length, length-append,
  length-drop, any, str_eq_refl, ap, subst,
}
use nexo_plugin_email.Threading.{
  canonicalize_message_id, first, root_and_tail, is_canonical_of, already_present, remove_second,
  push_own, truncate_references, kept_references, is_in,
}

-- The chain begins with the same root, if it has one.
abbrev pub HasRootOf : List Str → List Str → Type 0
HasRootOf refs out = (refs ≡ []) ⊎ (first out ≡ first refs)

abbrev KeepsRoot : List Str → List Str → Type 0
KeepsRoot refs out = (r : Str) → first refs ≡ some r → first out ≡ some r

to_HasRootOf : (refs out : List Str) → KeepsRoot refs out → HasRootOf refs out
to_HasRootOf [] out h = inl refl
to_HasRootOf (r ∷ refs) out h = inr (h r refl)

any-append_right :
    (p : Str → Bool) (xs : List Str) (y : Str) → p y ≡ true → any p (xs ++ y ∷ []) ≡ true
unfolding any
any-append_right p [] y h = rw h refl
any-append_right p (x ∷ xs) y h = ground (arith, any-append_right p xs y h)

length-remove_second :
    (out : List Str) → 2 ≤ length out → length (remove_second out) + 1 ≡ length out
unfolding remove_second
length-remove_second [] h = omega arith
length-remove_second (r ∷ []) h = omega arith
length-remove_second (r ∷ s ∷ rest) h = omega arith

first-remove_second : (out : List Str) → first (remove_second out) ≡ first out
unfolding remove_second
first-remove_second [] = refl
first-remove_second (r ∷ []) = refl
first-remove_second (r ∷ s ∷ rest) = refl

first-append : (out : List Str) (r y : Str) → first out ≡ some r → first (out ++ y ∷ []) ≡ some r
first-append [] r y h = ground arith
first-append (x ∷ out) r y h = h

length-push_own :
    (own : Option Str) (max : ℕ) (out : List Str)
    → 2 ≤ max
    → length out ≤ max
    → length (push_own own max out) ≤ max
unfolding push_own
length-push_own none max out two fits = fits
length-push_own (some own) max out two fits = ground (
  arith,
  length-append out (own ∷ []),
  length-append (remove_second out) (own ∷ []),
  length-remove_second out,
)

KeepsRoot-push_own :
    (own : Option Str) (max : ℕ) (out : List Str) → KeepsRoot out (push_own own max out)
unfolding push_own
KeepsRoot-push_own none max out r h = h
KeepsRoot-push_own (some own) max out r h =
    ground (
      arith,
      first-append out r own,
      first-append (remove_second out) r own,
      first-remove_second out,
    )

already_present-append :
    (own c : Str) (xs : List Str)
    → canonicalize_message_id own ≡ some c
    → already_present own (xs ++ own ∷ []) ≡ true
unfolding already_present is_in is_canonical_of
already_present-append own c xs e = rw e (any-append_right _ xs own (rw e (str_eq_refl c)))

present-push_own :
    (own c : Str) (max : ℕ) (out : List Str)
    → canonicalize_message_id own ≡ some c
    → already_present own (push_own (some own) max out) ≡ true
unfolding push_own
present-push_own own c max out e = elim (Bool-cases (already_present own out)) [
  | inl p ↦ rw p p
  | inr p ↦
      rw p
        (already_present-append own c (if leb max (length out) then remove_second out else out) e)
]

-- The list before the own id is added.
kept_references_lem :
    (refs : List Str) (max : ℕ)
    → 1 ≤ max
    → (out : List Str) × (kept_references refs max ≡ some out)
      × (length out ≤ max)
      × KeepsRoot refs out
unfolding kept_references root_and_tail
kept_references_lem refs zero one = ground arith
kept_references_lem [] (suc m) one = ([], ground arith, ground arith, λ r h. h)
kept_references_lem (x ∷ refs) (suc m) one = elim (Bool-cases (leb (suc (length refs)) (suc m))) [
  | inl e ↦ rw e (x ∷ refs, refl, ground arith, λ r h. h)
  | inr e ↦ rw e (_, refl, ground (arith, length-drop (suc (length refs) - m) (x ∷ refs)), λ r h. h)
]

truncated :
    (refs : List Str) (own : Option Str) (max : ℕ)
    → (out : List Str) × (kept_references refs max ≡ some out)
      × (length out ≤ max)
      × KeepsRoot refs out
    → 2 ≤ max
    → (out : List Str) × (truncate_references refs own max ≡ some (push_own own max out))
      × (length (push_own own max out) ≤ max)
      × HasRootOf refs (push_own own max out)
unfolding truncate_references
truncated refs own max (out, same, fits, root) two = (
  out,
  ap (Option.map (push_own own max)) same,
  length-push_own own max out two fits,
  to_HasRootOf refs _ (λ r h. KeepsRoot-push_own own max out r (root r h)),
)

-- With a bound of at least two, a chain is produced, within the bound and with the old root.
truncate_references_lem :
    (refs : List Str) (own : Option Str) (max : ℕ)
    → 2 ≤ max
    → (out : List Str) × (truncate_references refs own max ≡ some out)
      × (length out ≤ max)
      × HasRootOf refs out
truncate_references_lem refs own max two =
    let (out, same, fits, root) =
      truncated refs own max (kept_references_lem refs max (omega arith)) two in
    (push_own own max out, same, fits, root)

-- With a bound of at least two, a well-formed own id is in the chain that is produced, in an entry
-- of the same canonical form.
truncate_references-present :
    (refs : List Str) (own c : Str) (max : ℕ) (out : List Str)
    → 2 ≤ max
    → canonicalize_message_id own ≡ some c
    → truncate_references refs (some own) max ≡ some out
    → already_present own out ≡ true
truncate_references-present refs own c max out two e h =
    let (before, same, _, _) =
      truncated refs (some own) max (kept_references_lem refs max (omega arith)) two in
    subst (λ x. already_present own x ≡ true) (some-injective _ _ (sym same ∙ h))
      (present-push_own own c max before e)

unchanged :
    (own : Str) (max : ℕ) (r : List Str)
    → length r ≤ max
    → already_present own r ≡ true
    → truncate_references r (some own) max ≡ some r
unfolding truncate_references kept_references push_own
unchanged own max r fits present = elim (Bool-cases (leb (length r) max)) [
  | inl e ↦ rw (e, present) refl
  | inr e ↦ ground arith
]

-- With a bound of at least two and a well-formed own id, to truncate again the chain that was
-- produced changes nothing.
truncate_references-idempotent :
    (refs : List Str) (own c : Str) (max : ℕ) (out : List Str)
    → 2 ≤ max
    → canonicalize_message_id own ≡ some c
    → truncate_references refs (some own) max ≡ some out
    → truncate_references out (some own) max ≡ some out
truncate_references-idempotent refs own c max out two e h =
    let (r, same, fits, root) = truncate_references_lem refs (some own) max two in
    unchanged own max out (subst (λ x. length x ≤ max) (some-injective _ _ (sym same ∙ h)) fits)
      (truncate_references-present refs own c max out two e h)
