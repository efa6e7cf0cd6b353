-- ===== src/AutoDiscovery/Pieces.antt =====
-- src/auto_discovery.rs, `canonicalize_email`: what its steps keep of an address.
use mathlib.Core.Option.{some-injective}
use nexo_plugin_email.AutoDiscovery.{first_part, is_gmail, canon_local}
use nexo_plugin_email.Base.{
  ℕ, Str, Bool, true, false, not, Option, none, some, [], ◌∷◌, ◌++◌, ◌==◌, ◌≡◌, refl, ap, arith,
  if◌then◌else◌, any, filter_by, split_once, to_ascii_lowercase, All, lower, is_ascii_upper, subst,
}

-- A lower-case character that does not end the local part.
abbrev pub IsLocal : ℕ → Type 0
IsLocal c = (is_ascii_upper c ≡ false) × ((c == b'@') ≡ false)

abbrev pub IsLowered : ℕ → Type 0
IsLowered c = is_ascii_upper c ≡ false

lower-IsLowered : (c : ℕ) → IsLowered (lower c)
lower-IsLowered c = ground arith

lower-IsLocal : (c : ℕ) → (c == b'@') ≡ false → IsLocal (lower c)
lower-IsLocal c h = (lower-IsLowered c, ground arith)

pub to_ascii_lowercase-IsLowered : (s : Str) → All IsLowered (to_ascii_lowercase s)
unfolding to_ascii_lowercase
to_ascii_lowercase-IsLowered [] = tt
to_ascii_lowercase-IsLowered (c ∷ s) = (lower-IsLowered c, to_ascii_lowercase-IsLowered s)

pub to_ascii_lowercase-IsLocal :
    (s : Str) → All (λ c. (c == b'@') ≡ false) s → All IsLocal (to_ascii_lowercase s)
unfolding to_ascii_lowercase
to_ascii_lowercase-IsLocal [] h = tt
to_ascii_lowercase-IsLocal (c ∷ s) h = (lower-IsLocal c h.0, to_ascii_lowercase-IsLocal s h.1)

pub to_ascii_lowercase-any_dot :
    (s : Str) → any (λ c. c == b'.') (to_ascii_lowercase s) ≡ any (λ c. c == b'.') s
unfolding to_ascii_lowercase any
to_ascii_lowercase-any_dot [] = refl
to_ascii_lowercase-any_dot (c ∷ s) =
    let same : (lower c == b'.') ≡ (c == b'.') = ground arith in
    rw (same, to_ascii_lowercase-any_dot s) refl

All-if : (P : ℕ → Type 0) (b : Bool) (s t : Str) → All P s → All P t → All P (if b then s else t)
All-if P true s t h k = h
All-if P false s t h k = k

-- A part of a list has what all of the list has.
All-filter_by : (P : ℕ → Type 0) (p : ℕ → Bool) (s : Str) → All P s → All P (filter_by p s)
unfolding filter_by
All-filter_by P p [] h = tt
All-filter_by P p (c ∷ s) h =
    let rest = All-filter_by P p s h.1 in All-if P (p c) (c ∷ filter_by p s) _ (h.0, rest) rest

All-first_part : (P : ℕ → Type 0) (d : ℕ) (s : Str) → All P s → All P (first_part d s)
unfolding first_part
All-first_part P d [] h = tt
All-first_part P d (c ∷ s) h =
    All-if P (c == d) [] (c ∷ first_part d s) tt (h.0, All-first_part P d s h.1)

filter_by-holds : (p : ℕ → Bool) (s : Str) → All (λ c. p c ≡ true) (filter_by p s)
unfolding filter_by
filter_by-holds p [] = tt
filter_by-holds p (c ∷ s) = add (p c) refl (filter_by-holds p s)
  where
    add :
        (b : Bool)
        → p c ≡ b
        → All (λ c. p c ≡ true) (filter_by p s)
        → All (λ c. p c ≡ true) (if b then c ∷ filter_by p s else filter_by p s)
    add true e h = (e, h)
    add false e h = h

first_part-free : (d : ℕ) (s : Str) → All (λ c. (c == d) ≡ false) (first_part d s)
unfolding first_part
first_part-free d [] = tt
first_part-free d (c ∷ s) = add (c == d) refl (first_part-free d s)
  where
    add :
        (b : Bool)
        → (c == d) ≡ b
        → All (λ c. (c == d) ≡ false) (first_part d s)
        → All (λ c. (c == d) ≡ false) (if b then [] else c ∷ first_part d s)
    add true e h = tt
    add false e h = (e, h)

filter_by-All : (p : ℕ → Bool) (s : Str) → All (λ c. p c ≡ true) s → filter_by p s ≡ s
unfolding filter_by
filter_by-All p [] h = refl
filter_by-All p (c ∷ s) h = rw (h.0, filter_by-All p s h.1) refl

first_part-All : (d : ℕ) (s : Str) → All (λ c. (c == d) ≡ false) s → first_part d s ≡ s
unfolding first_part
first_part-All d [] h = refl
first_part-All d (c ∷ s) h = rw (h.0, first_part-All d s h.1) refl

pub split_once-free :
    (d : ℕ) (s a b : Str) → split_once d s ≡ some (a, b) → All (λ c. (c == d) ≡ false) a
unfolding split_once
split_once-free d [] a b e = absurd (cc)
split_once-free d (c ∷ s) a b e =
    by_test (c == d) refl (split_once d s) (λ x y. split_once-free d s x y) e
  where
    Found : Type 0
    Found = Option (Str × Str)

    put : Found → Found
    put none = none
    put (some (x, y)) = some (c ∷ x, y)

    by_test :
        (t : Bool)
        → (c == d) ≡ t
        → (o : Found) → ((x y : Str) → o ≡ some (x, y) → All (λ k. (k == d) ≡ false) x)
        → if◌then◌else◌ {A = Found} t (some ([], s)) (put o) ≡ some (a, b)
        → All (λ k. (k == d) ≡ false) a
    by_test true same o f g =
        subst (All (λ k. (k == d) ≡ false)) (ap (λ (p : Str × Str). p.0) (some-injective _ _ g)) tt
    by_test false same none f g = absurd (cc)
    by_test false same (some (x, y)) f g =
        subst (All (λ k. (k == d) ≡ false)) (ap (λ (p : Str × Str). p.0) (some-injective _ _ g))
          (same, f x y refl)

pub split_once-append :
    (d : ℕ) (a b : Str) → All (λ c. (c == d) ≡ false) a → split_once d (a ++ d ∷ b) ≡ some (a, b)
unfolding split_once
split_once-append d [] b h = ground arith
split_once-append d (c ∷ a) b h = rw (h.0, split_once-append d a b h.1) refl

pub canon_local-All :
    (P : ℕ → Type 0) (local domain : Str) → All P local → All P (canon_local local domain)
unfolding canon_local
canon_local-All P local domain h = pick (is_gmail domain)
  where
    pick :
        (b : Bool)
        → All P (if b then filter_by (λ c. not (c == b'.')) (first_part b'+' local) else local)
    pick true = All-filter_by P _ _ (All-first_part P b'+' local h)
    pick false = h

pub canon_local-idempotent :
    (local domain : Str) → canon_local (canon_local local domain) domain ≡ canon_local local domain
unfolding canon_local
canon_local-idempotent local domain = by_kind (is_gmail domain)
  where
    folded : Str
    folded = filter_by (λ c. not (c == b'.')) (first_part b'+' local)

    same : filter_by (λ c. not (c == b'.')) (first_part b'+' folded) ≡ folded
    same =
        rw
          (first_part-All b'+' folded (
            All-filter_by (λ c. (c == b'+') ≡ false) (λ c. not (c == b'.')) (first_part b'+' local)
              (first_part-free b'+' local)))
          (filter_by-All (λ c. not (c == b'.')) folded
            (filter_by-holds (λ c. not (c == b'.')) (first_part b'+' local)))

    by_kind :
        (b : Bool)
        → (if b
            then filter_by (λ c. not (c == b'.')) (first_part b'+' (if b then folded else local))
            else (if b then folded else local))
          ≡ (if b then folded else local)
    by_kind true = same
    by_kind false = refl
