-- ===== src/Threading.antt =====
-- src/threading.rs: the identification of a mail thread.
pub mod Canonical
pub mod Root
pub mod References
use mathlib.Core.Option
use nexo_plugin_email.Base.{
  ℕ, zero, suc, ◌-◌, Str, Bool, true, false, not, ◌&&◌, ◌||◌, Option, none, some, List, [], ◌∷◌,
  ◌++◌, codes, if◌then◌else◌, leb, ◌==◌, str_eq, any, length, drop, is_whitespace, is_control, trim,
  trim_start, trim_end, strip_prefix, strip_suffix, to_ascii_lowercase, eq_ignore_ascii_case,
  decimal, concat,
}
use nexo_plugin_email.Events.{EmailMeta, OutboundCommand}

abbrev pub references_max : ℕ
references_max = 10

-- the characters that a message id does not have
unfoldable pub is_rejected : ℕ → Bool
unfolding is_control is_whitespace
is_rejected c = is_control c || is_whitespace c || c == b','

-- `strip_prefix('<').and_then(strip_suffix('>')).unwrap_or(trimmed)`
unfoldable pub unbracket : Str → Str
unfolding strip_prefix strip_suffix
unbracket trimmed = elim (strip_prefix b'<' trimmed) [
  | none ↦ trimmed
  | some s ↦ elim (strip_suffix b'>' s) [ none ↦ trimmed | some t ↦ t ]
]

-- the tests after the brackets are gone
unfoldable pub accept : Str → Option Str
unfolding any is_rejected to_ascii_lowercase
accept [] = none
accept (c ∷ s) = if any is_rejected (c ∷ s) then none else some (to_ascii_lowercase (c ∷ s))

unfoldable pub canonicalize_message_id : Str → Option Str
unfolding accept unbracket trim_end trim_start is_whitespace
canonicalize_message_id s = elim (trim s) [ [] ↦ none | c ∷ t ↦ accept (trim (unbracket (c ∷ t))) ]

-- `format!("<{c}>")`
abbrev pub bracketed : Str → Str
bracketed c = b'<' ∷ c ++ b'>' ∷ []

abbrev pub first : List Str → Option Str
first [] = none
first (r ∷ rs) = some r

-- `if let Some(x) = header { if let Some(c) = canonicalize(x) { return … } }`, before the rest
unfoldable pub root_or : Option Str → Str → Str
unfolding canonicalize_message_id
root_or none rest = rest
root_or (some x) rest = elim (canonicalize_message_id x) [ none ↦ rest | some c ↦ bracketed c ]

abbrev pub orphan : ℕ → Str → Str
orphan uid account = concat (
    codes "<orphan-"
    ∷ decimal uid
    ∷ codes "@"
    ∷ elim account [ [] ↦ codes "nexo" | c ∷ a ↦ c ∷ a ]
    ∷ codes ">"
    ∷ [])

unfoldable pub resolve_thread_root : EmailMeta → ℕ → Str → Str
unfolding root_or decimal concat
resolve_thread_root meta fallback_uid account =
    root_or (first meta.references)
      (root_or meta.in_reply_to (root_or meta.message_id (orphan fallback_uid account)))

-- The root and the last `max - 1`; `none` is the panic of `max - 1` and of the slice behind it.
unfoldable pub root_and_tail : List Str → ℕ → Option (List Str)
root_and_tail refs zero = none
root_and_tail [] (suc m) = none
root_and_tail (r ∷ refs) (suc m) = some (r ∷ drop (length (r ∷ refs) - m) (r ∷ refs))

unfoldable pub is_canonical_of : Str → Option Str → Bool
unfolding str_eq
is_canonical_of c none = false
is_canonical_of c (some d) = str_eq d c

-- whether an entry has the canonical form that the own id has
unfoldable pub is_in : List Str → Option Str → Bool
unfolding canonicalize_message_id any is_canonical_of
is_in out none = false
is_in out (some c) = any (λ r. is_canonical_of c (canonicalize_message_id r)) out

unfoldable pub already_present : Str → List Str → Bool
unfolding is_in canonicalize_message_id
already_present own out = is_in out (canonicalize_message_id own)

-- `if out.len() > 1 { out.remove(1) }`
unfoldable pub remove_second : List Str → List Str
remove_second [] = []
remove_second (r ∷ []) = r ∷ []
remove_second (r ∷ s ∷ rest) = r ∷ rest

unfoldable pub push_own : Option Str → ℕ → List Str → List Str
unfolding already_present remove_second
push_own none max out = out
push_own (some own) max out =
    if already_present own out
    then out
    else (if leb max (length out) then remove_second out else out) ++ own ∷ []

-- the chain before the own id is added
unfoldable pub kept_references : List Str → ℕ → Option (List Str)
unfolding root_and_tail
kept_references refs max = if leb (length refs) max then some refs else root_and_tail refs max

unfoldable pub truncate_references : List Str → Option Str → ℕ → Option (List Str)
unfolding kept_references push_own
truncate_references refs own_msg_id max =
    Option.map (push_own own_msg_id max) (kept_references refs max)

unfoldable pub enrich_reply_threading : EmailMeta → OutboundCommand → Option OutboundCommand
unfolding truncate_references
enrich_reply_threading parent cmd =
    elim (truncate_references parent.references parent.message_id references_max) [
      | none ↦ none
      | some refs ↦ some (record cmd {
        in_reply_to = elim (parent.message_id) [ some mid ↦ some mid | none ↦ cmd.in_reply_to ];
        references = refs;
      })
    ]

unfoldable pub is_self_thread : EmailMeta → Str → Bool
unfolding str_eq to_ascii_lowercase
is_self_thread meta account_address = elim (meta.from.address) [
  | [] ↦ false
  | c ∷ a ↦ eq_ignore_ascii_case (c ∷ a) account_address
]
