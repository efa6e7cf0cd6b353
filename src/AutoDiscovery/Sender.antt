-- ===== src/AutoDiscovery/Sender.antt =====
-- src/auto_discovery.rs, `canonicalize_email`: a canonical sender.
use mathlib.Core.Option.{some-injective}
use nexo_plugin_email.AutoDiscovery.{
  is_empty, canon_local, address_of, canonicalize_parts, canonicalize_email,
}
use nexo_plugin_email.AutoDiscovery.Pieces.{
  IsLocal, IsLowered, to_ascii_lowercase-IsLowered, to_ascii_lowercase-IsLocal,
  to_ascii_lowercase-any_dot, split_once-free, split_once-append, canon_local-All,
  canon_local-idempotent,
}
use nexo_plugin_email.Base.{
  Str, Bool, true, false, not, ◌||◌, Option, none, some, [], ◌∷◌, ◌++◌, ◌==◌, ◌≡◌, refl, sym, ap,
  ◌∙◌, if◌then◌else◌, any, split_once, to_ascii_lowercase, All, lower, to_ascii_lowercase-All,
  subst,
}

-- What an address is made of after it is made canonical.
record Parts (address : Str) : Type 0 where
  local : Str
  domain : Str
  whole : address ≡ local ++ b'@' ∷ domain
  filled : is_empty local ≡ false
  folded : canon_local local domain ≡ local
  locals : All IsLocal local
  lowered : All IsLowered domain
  dotted : any (λ c. c == b'.') domain ≡ true

address_of-Parts :
    (local domain address : Str)
    → address_of local domain ≡ some address
    → canon_local local domain ≡ local
    → All IsLocal local
    → All IsLowered domain
    → any (λ c. c == b'.') domain ≡ true
    → Parts address
unfolding address_of
address_of-Parts [] domain address e folded locals lowered dotted = absurd (cc)
address_of-Parts (c ∷ local) domain address e folded locals lowered dotted = record {
  local = c ∷ local;
  domain = domain;
  whole = sym (some-injective _ _ e);
  filled = refl;
  folded = folded;
  locals = locals;
  lowered = lowered;
  dotted = dotted;
}

canonicalize_parts-Parts :
    (local domain address : Str)
    → canonicalize_parts local domain ≡ some address
    → All (λ c. (c == b'@') ≡ false) local
    → Parts address
unfolding canonicalize_parts
canonicalize_parts-Parts local domain address e free =
    by_tests (is_empty local || is_empty domain) (any (λ c. c == b'.') domain) refl e
  where
    l : Str
    l = to_ascii_lowercase local

    d : Str
    d = to_ascii_lowercase domain

    by_tests :
        (t u : Bool)
        → any (λ c. c == b'.') domain ≡ u
        → (if t then none else if not u then none else address_of (canon_local l d) d)
          ≡ some address
        → Parts address
    by_tests true u same f = absurd (cc)
    by_tests false false same f = absurd (cc)
    by_tests false true same f =
        address_of-Parts (canon_local l d) d address f (canon_local-idempotent l d)
          (canon_local-All IsLocal l d (to_ascii_lowercase-IsLocal local free))
          (to_ascii_lowercase-IsLowered domain) (to_ascii_lowercase-any_dot domain ∙ same)

address_fixed :
    (local domain : Str)
    → is_empty local ≡ false
    → canon_local local domain ≡ local
    → to_ascii_lowercase local ≡ local
    → to_ascii_lowercase domain ≡ domain
    → address_of
        (canon_local (to_ascii_lowercase local) (to_ascii_lowercase domain))
        (to_ascii_lowercase domain)
      ≡ some (local ++ b'@' ∷ domain)
unfolding address_of
address_fixed [] domain filled folded l d = absurd (cc)
address_fixed (c ∷ local) domain filled folded l d = rw (l, d, folded) refl

parts_fixed :
    (local domain : Str)
    → is_empty local ≡ false
    → canon_local local domain ≡ local
    → to_ascii_lowercase local ≡ local
    → to_ascii_lowercase domain ≡ domain
    → any (λ c. c == b'.') domain ≡ true
    → canonicalize_parts local domain ≡ some (local ++ b'@' ∷ domain)
unfolding canonicalize_parts any
parts_fixed [] domain filled folded l d dotted = absurd (cc)
parts_fixed (c ∷ local) [] filled folded l d dotted = absurd (cc)
parts_fixed (c ∷ local) (x ∷ domain) filled folded l d dotted =
    rw dotted (address_fixed (c ∷ local) (x ∷ domain) filled folded l d)

locals-free : (s : Str) → All IsLocal s → All (λ c. (c == b'@') ≡ false) s
locals-free [] h = tt
locals-free (c ∷ s) h = (h.0.1, locals-free s h.1)

locals-lowered : (s : Str) → All IsLocal s → to_ascii_lowercase s ≡ s
locals-lowered s h = to_ascii_lowercase-All s (lowered_of s h)
  where
    lowered_of : (s : Str) → All IsLocal s → All IsLowered s
    lowered_of [] h = tt
    lowered_of (c ∷ s) h = (h.0.0, lowered_of s h.1)

to_ascii_lowercase-append :
    (s t : Str) → to_ascii_lowercase (s ++ t) ≡ to_ascii_lowercase s ++ to_ascii_lowercase t
unfolding to_ascii_lowercase
to_ascii_lowercase-append [] t = refl
to_ascii_lowercase-append (c ∷ s) t = ap (λ r. lower c ∷ r) (to_ascii_lowercase-append s t)

abbrev IsFixed : Str → Type 0
IsFixed address =
    (canonicalize_email address ≡ some address) × (to_ascii_lowercase address ≡ address)

Parts-IsFixed : (address : Str) → Parts address → IsFixed address
unfolding canonicalize_email to_ascii_lowercase
Parts-IsFixed address p =
    let l : to_ascii_lowercase p.local ≡ p.local = locals-lowered p.local p.locals in
    let d : to_ascii_lowercase p.domain ≡ p.domain = to_ascii_lowercase-All p.domain p.lowered in
    subst IsFixed (sym p.whole) (
      rw
          (
            canonicalize_email,
            split_once-append b'@' p.local p.domain (locals-free p.local p.locals),
          )
          (parts_fixed p.local p.domain p.filled p.folded l d p.dotted),
      rw (to_ascii_lowercase-append p.local (b'@' ∷ p.domain), l, d) refl,
    )

-- An address that `canonicalize_email` gives is one that it gives back as it is, and has no ASCII
-- upper-case letter.
pub canonicalize_email-idempotent :
    (raw address : Str)
    → canonicalize_email raw ≡ some address
    → (canonicalize_email address ≡ some address) × (to_ascii_lowercase address ≡ address)
unfolding canonicalize_email
canonicalize_email-idempotent raw address e =
    by_split (split_once b'@' raw) (λ l d. split_once-free b'@' raw l d) e
  where
    by_split :
        (o : Option (Str × Str))
        → ((l d : Str) → o ≡ some (l, d) → All (λ c. (c == b'@') ≡ false) l)
        → elim o [ none ↦ none | some (local, domain) ↦ canonicalize_parts local domain ]
          ≡ some address
        → IsFixed address
    by_split none free f = absurd (cc)
    by_split (some (l, d)) free f =
        Parts-IsFixed address (canonicalize_parts-Parts l d address f (free l d refl))
