-- ===== src/AutoDiscovery.antt =====
-- src/auto_discovery.rs: the sender that a pairing request is about. A request is its field `raw`,
-- if it has one that is text.
pub mod Pieces
pub mod Sender
pub mod Routes
pub mod Tenants
use nexo_plugin_email.Base.{
  ℕ, Str, Bool, true, false, not, ◌||◌, ◌&&◌, Option, none, some, [], ◌∷◌, ◌++◌, ◌==◌,
  if◌then◌else◌, any, filter_by, str_eq, codes, split_once, to_ascii_lowercase, trim, trim_start,
  trim_end, is_whitespace,
}

abbrev pub is_empty : Str → Bool
is_empty [] = true
is_empty (c ∷ s) = false

-- `split(d).next()`
unfoldable pub first_part : ℕ → Str → Str
first_part d [] = []
first_part d (c ∷ s) = let rest = first_part d s in if c == d then [] else c ∷ rest

abbrev pub is_gmail : Str → Bool
is_gmail domain = str_eq domain (codes "gmail.com") || str_eq domain (codes "googlemail.com")

unfoldable pub canon_local : Str → Str → Str
unfolding first_part filter_by str_eq
canon_local local domain =
    if is_gmail domain then filter_by (λ c. not (c == b'.')) (first_part b'+' local) else local

unfoldable pub address_of : Str → Str → Option Str
address_of [] domain = none
address_of (c ∷ local) domain = some (c ∷ local ++ b'@' ∷ domain)

unfoldable pub canonicalize_parts : Str → Str → Option Str
unfolding any to_ascii_lowercase canon_local address_of
canonicalize_parts local domain =
    if is_empty local || is_empty domain
    then none
    else if not (any (λ c. c == b'.') domain)
    then none
    else (let lowered = to_ascii_lowercase domain in
        address_of (canon_local (to_ascii_lowercase local) lowered) lowered)

unfoldable pub canonicalize_email : Str → Option Str
unfolding split_once canonicalize_parts
canonicalize_email raw = elim (split_once b'@' raw) [
  | none ↦ none
  | some (local, domain) ↦ canonicalize_parts local domain
]

unfoldable pub pairing_normalize_sender : Option Str → Option Str
unfolding canonicalize_email trim_start trim_end is_whitespace
pairing_normalize_sender none = canonicalize_email (trim [])
pairing_normalize_sender (some raw) = canonicalize_email (trim raw)
