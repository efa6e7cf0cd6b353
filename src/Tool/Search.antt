-- ===== src/Tool/Search.antt =====
-- src/tool/search.rs: the IMAP SEARCH command of a query. The dates of chrono are a parameter.
pub mod Tokens
pub mod Injection
use nexo_plugin_email.Base.{
  ℕ, ◌<◌, min, max, Str, Bool, true, false, Option, none, some, List, [], ◌∷◌, ◌++◌, ◌≡◌, ◌==◌,
  codes, join, trim, trim_start, trim_end, is_whitespace, All,
}
use nexo_plugin_email.ImapQuote.{imap_quote}

pub record SearchQuery : Type 0 where
  pub from : Option Str
  pub from_domain : Option Str
  pub to : Option Str
  pub subject : Option Str
  pub body : Option Str
  pub since : Option Str
  pub before : Option Str
  pub unseen : Option Bool
  pub seen : Option Bool
  pub has_attachments : Option Bool

-- A character that a word of a command may have here: no blank and no quote.
abbrev pub IsWordChar : ℕ → Type 0
IsWordChar c = ((c == 32) ≡ false) × ((c == b'"') ≡ false)

abbrev pub IsWord : Str → Type 0
IsWord [] = ⊥
IsWord (c ∷ s) = IsWordChar c × All IsWordChar s

-- `NaiveDate::parse_from_str` at `%Y-%m-%d`, and `format` at `%-d-%b-%Y`: digits, a month and dashes.
pub record Chrono : Type 1 where
  pub NaiveDate : Type 0
  pub parse_from_str : Str → Option NaiveDate
  pub format : NaiveDate → Str
  pub format-IsWord : (d : NaiveDate) → IsWord (format d)

pub data Atoms : Type 0 where
  atoms : Str → Atoms
  invalid_since invalid_before : Atoms

abbrev pub keyed : Str → Str → Str
keyed key value = key ++ 32 ∷ value

unfoldable pub text_part : Str → Option Str → List Str
unfolding imap_quote
text_part key none = []
text_part key (some v) = keyed key (imap_quote v) ∷ []

-- from the domain without its blanks and leading `@` on
unfoldable pub domain_of_trimmed : Str → List Str
unfolding imap_quote
domain_of_trimmed [] = []
domain_of_trimmed (c ∷ s) = keyed (codes "FROM") (imap_quote (b'@' ∷ c ∷ s)) ∷ []

unfoldable pub domain_part : Option Str → List Str
unfolding domain_of_trimmed trim_start trim_end is_whitespace
domain_part none = []
domain_part (some v) = domain_of_trimmed (trim_start (λ c. c == b'@') (trim v))

unfoldable pub flag_part : Str → Option Bool → List Str
flag_part part (some true) = part ∷ []
flag_part part (some false) = []
flag_part part none = []

unfoldable pub finish : List Str → Atoms
unfolding join
finish [] = atoms (codes "ALL")
finish (p ∷ ps) = atoms (join (32 ∷ []) (p ∷ ps))

module _ (chrono : Chrono) where
  -- `none` for a date that does not parse
  unfoldable pub date_part : Str → Option Str → Option (List Str)
  date_part key none = some []
  date_part key (some v) = elim (chrono.parse_from_str v) [
    | none ↦ none
    | some d ↦ some (keyed key (chrono.format d) ∷ [])
  ]

  -- from the two dates on
  unfoldable pub with_dates : SearchQuery → Option (List Str) → Option (List Str) → Atoms
  unfolding text_part domain_part flag_part finish
  with_dates q none before = invalid_since
  with_dates q (some since) none = invalid_before
  with_dates q (some since) (some before) = finish (
      text_part (codes "FROM") q.from
      ++ domain_part q.from_domain
      ++ text_part (codes "TO") q.to
      ++ text_part (codes "SUBJECT") q.subject
      ++ text_part (codes "BODY") q.body
      ++ since
      ++ before
      ++ flag_part (codes "UNSEEN") q.unseen
      ++ flag_part (codes "SEEN") q.seen
      ++ flag_part (keyed (codes "BODY") (imap_quote (codes "multipart/"))) q.has_attachments)

  unfoldable pub build_search_atoms : SearchQuery → Atoms
  unfolding date_part with_dates
  build_search_atoms q =
      with_dates q (date_part (codes "SINCE") q.since) (date_part (codes "BEFORE") q.before)

-- `args.limit.unwrap_or(50).clamp(1, 200)`, and the uids that are fetched
unfoldable pub limit_of : Option ℕ → ℕ
limit_of none = 50
limit_of (some n) = min (max n 1) 200
