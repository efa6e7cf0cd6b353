-- ===== src/Threading/Root.antt =====
-- src/threading.rs: which header gives the root of a thread.
use nexo_plugin_email.Base.{ℕ, Str, Option, none, some, List, [], ◌∷◌, ◌≡◌, refl}
use nexo_plugin_email.Events.{EmailMeta}
use nexo_plugin_email.Threading.{
  canonicalize_message_id, bracketed, first, orphan, root_or, resolve_thread_root,
}

-- the first well-formed id of a list of optional headers
pub first_canonical : List (Option Str) → Option Str
first_canonical [] = none
first_canonical (none ∷ rest) = first_canonical rest
first_canonical (some x ∷ rest) = elim (canonicalize_message_id x) [
  | none ↦ first_canonical rest
  | some c ↦ some c
]

abbrev pub candidates : EmailMeta → List (Option Str)
candidates meta = first meta.references ∷ meta.in_reply_to ∷ meta.message_id ∷ []

pub root_of : ℕ → Str → Option Str → Str
root_of uid account none = orphan uid account
root_of uid account (some c) = bracketed c

-- `root_or` over any headers.
roots : Str → List (Option Str) → Str
roots rest [] = rest
roots rest (x ∷ xs) = root_or x (roots rest xs)

roots_lem :
    (uid : ℕ) (account : Str) (xs : List (Option Str))
    → roots (orphan uid account) xs ≡ root_of uid account (first_canonical xs)
unfolding roots root_of root_or first_canonical
roots_lem uid account [] = refl
roots_lem uid account (none ∷ xs) = roots_lem uid account xs
roots_lem uid account (some x ∷ xs) = decide (canonicalize_message_id x) (roots_lem uid account xs)
  where
    decide :
        (o : Option Str)
        → roots (orphan uid account) xs ≡ root_of uid account (first_canonical xs)
        → (elim o [ none ↦ roots (orphan uid account) xs | some c ↦ bracketed c ])
          ≡ root_of uid account (elim o [ none ↦ first_canonical xs | some c ↦ some c ])
    decide none ih = ih
    decide (some c) ih = refl

-- The root of a thread is the first well-formed id of the first reference, In-Reply-To and
-- Message-ID, in brackets; without one, the synthetic orphan id.
pub resolve_thread_root_lem :
    (meta : EmailMeta) (uid : ℕ) (account : Str)
    → resolve_thread_root meta uid account ≡ root_of uid account (first_canonical (candidates meta))
unfolding resolve_thread_root roots
resolve_thread_root_lem meta uid account = roots_lem uid account (candidates meta)
