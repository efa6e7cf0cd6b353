-- ===== src/Tool/Search/Injection.antt =====
-- src/tool/search.rs: what the built command says, whatever text is in the query.
use nexo_plugin_email.Base.{
  Str, Bool, true, false, Option, none, some, List, [], ◌∷◌, ◌++◌, ◌≡◌, refl, sym, ap, ◌∙◌, arith,
  codes, join, trim, trim_start, ◌==◌, subst,
}
use nexo_plugin_email.ImapQuote.Injection.{flattened}
use nexo_plugin_email.ImapQuote.{imap_quote}
use nexo_plugin_email.Tool.Search.Tokens.{
  Token, word, quoted, read, start, AreParts, keyed_quote-IsPart, keyed_word-IsPart, word-IsPart,
  AreParts-append, read-join,
}
use nexo_plugin_email.Tool.Search.{
  SearchQuery, IsWord, Chrono, Atoms, atoms, invalid_since, invalid_before, keyed, text_part,
  domain_of_trimmed, domain_part, flag_part, finish, date_part, with_dates, build_search_atoms,
}

-- What a query asks for: a key and the text with its line breaks as blanks.
abbrev pub text_tokens : Str → Option Str → List Token
text_tokens key none = []
text_tokens key (some v) = word key ∷ quoted (flattened v) ∷ []

abbrev pub domain_tokens_of : Str → List Token
domain_tokens_of [] = []
domain_tokens_of (c ∷ s) = word (codes "FROM") ∷ quoted (flattened (b'@' ∷ c ∷ s)) ∷ []

abbrev pub domain_tokens : Option Str → List Token
domain_tokens none = []
domain_tokens (some v) = domain_tokens_of (trim_start (λ c. c == b'@') (trim v))

abbrev pub flag_tokens : List Token → Option Bool → List Token
flag_tokens ts (some true) = ts
flag_tokens ts (some false) = []
flag_tokens ts none = []

abbrev pub or_all : List Token → List Token
or_all [] = word (codes "ALL") ∷ []
or_all (t ∷ ts) = t ∷ ts

text-AreParts :
    (key : Str) (o : Option Str) → IsWord key → AreParts (text_part key o) (text_tokens key o)
unfolding text_part
text-AreParts key none h = refl
text-AreParts key (some v) h = (_, _, [], refl, keyed_quote-IsPart key v h, refl)

from_IsWord : IsWord (codes "FROM")
from_IsWord = ground arith

domain_of_trimmed-AreParts : (d : Str) → AreParts (domain_of_trimmed d) (domain_tokens_of d)
unfolding domain_of_trimmed
domain_of_trimmed-AreParts [] = refl
domain_of_trimmed-AreParts (c ∷ s) =
    (_, _, [], refl, keyed_quote-IsPart (codes "FROM") (b'@' ∷ c ∷ s) from_IsWord, refl)

domain-AreParts : (o : Option Str) → AreParts (domain_part o) (domain_tokens o)
unfolding domain_part
domain-AreParts none = refl
domain-AreParts (some v) = domain_of_trimmed-AreParts (trim_start (λ c. c == b'@') (trim v))

flag-AreParts :
    (w : Str) (o : Option Bool) → IsWord w → AreParts (flag_part w o) (flag_tokens (word w ∷ []) o)
unfolding flag_part
flag-AreParts w none h = refl
flag-AreParts w (some false) h = refl
flag-AreParts w (some true) h = (_, [], [], refl, word-IsPart w h, refl)

body-IsWord : IsWord (codes "BODY")
body-IsWord = ground arith

multipart-AreParts :
    (o : Option Bool)
    → AreParts
        (flag_part (keyed (codes "BODY") (imap_quote (codes "multipart/"))) o)
        (flag_tokens (word (codes "BODY") ∷ quoted (codes "multipart/") ∷ []) o)
unfolding flag_part flattened
multipart-AreParts none = refl
multipart-AreParts (some false) = refl
multipart-AreParts (some true) =
    (_, _, [], refl, keyed_quote-IsPart (codes "BODY") (codes "multipart/") body-IsWord, refl)

finish_lem :
    (ps : List Str) (ts : List Token)
    → AreParts ps ts
    → (s : Str) × (finish ps ≡ atoms s) × (read start s ≡ some (or_all ts))
unfolding finish
finish_lem [] ts h = (
  codes "ALL",
  refl,
  (word-IsPart (codes "ALL") (ground arith)).0 ∙ ap (λ x. some (or_all x)) (sym h),
)
finish_lem (p ∷ ps) ts (t, u, v, e, part, h) = (
  join (32 ∷ []) (p ∷ ps),
  refl,
  read-join p ps ts (t, u, v, e, part, h) ∙ ap some e ∙ ap (λ x. some (or_all x)) (sym e),
)

module _ (chrono : Chrono) where
  abbrev pub parsed_tokens : Str → Option chrono.NaiveDate → List Token
  parsed_tokens key none = []
  parsed_tokens key (some d) = word key ∷ word (chrono.format d) ∷ []

  abbrev pub date_tokens : Str → Option Str → List Token
  date_tokens key none = []
  date_tokens key (some v) = parsed_tokens key (chrono.parse_from_str v)

  -- Everything that a query asks for, in the order of the command.
  abbrev pub query_tokens : SearchQuery → List Token
  query_tokens q =
      text_tokens (codes "FROM") q.from
      ++ domain_tokens q.from_domain
      ++ text_tokens (codes "TO") q.to
      ++ text_tokens (codes "SUBJECT") q.subject
      ++ text_tokens (codes "BODY") q.body
      ++ date_tokens (codes "SINCE") q.since
      ++ date_tokens (codes "BEFORE") q.before
      ++ flag_tokens (word (codes "UNSEEN") ∷ []) q.unseen
      ++ flag_tokens (word (codes "SEEN") ∷ []) q.seen
      ++ flag_tokens (word (codes "BODY") ∷ quoted (codes "multipart/") ∷ []) q.has_attachments

  abbrev pub IsBadDate : Option Str → Type 0
  IsBadDate o = (v : Str) × (o ≡ some v) × (chrono.parse_from_str v ≡ none)

  abbrev DateParts : Str → Option Str → Option (List Str) → Type 0
  DateParts key o none = IsBadDate o
  DateParts key o (some ps) = AreParts ps (date_tokens key o)

  date_part_lem :
      (key : Str) (o : Option Str) → IsWord key → DateParts key o (date_part chrono key o)
  unfolding date_part
  date_part_lem key none h = refl
  date_part_lem key (some v) h = parsed (chrono.parse_from_str v) refl
    where
      parsed :
          (r : Option chrono.NaiveDate)
          → chrono.parse_from_str v ≡ r
          → (let ps : Option (List Str) = elim r [
            | none ↦ none
            | some d ↦ some (keyed key (chrono.format d) ∷ [])
          ] in
              DateParts key (some v) ps)
      parsed none e = (v, refl, e)
      parsed (some d) e = (
        word key,
        word (chrono.format d) ∷ [],
        [],
        ap (parsed_tokens key) e,
        keyed_word-IsPart key (chrono.format d) h (chrono.format-IsWord d),
        refl,
      )

  -- What the answer says of the query.
  abbrev pub IsAnswer : SearchQuery → Atoms → Type 0
  IsAnswer q (atoms s) = read start s ≡ some (or_all (query_tokens q))
  IsAnswer q invalid_since = IsBadDate q.since
  IsAnswer q invalid_before = IsBadDate q.before

  with_dates_lem :
      (q : SearchQuery) (since before : Option (List Str))
      → DateParts (codes "SINCE") q.since since
      → DateParts (codes "BEFORE") q.before before
      → IsAnswer q (with_dates chrono q since before)
  unfolding with_dates
  with_dates_lem q none before h g = h
  with_dates_lem q (some since) none h g = g
  with_dates_lem q (some since) (some before) h g =
      let (s, same, reads) = finish_lem _ (query_tokens q) parts in
      subst (IsAnswer q) (sym same) reads
    where
      parts :
          AreParts
            (text_part (codes "FROM") q.from
              ++ domain_part q.from_domain
              ++ text_part (codes "TO") q.to
              ++ text_part (codes "SUBJECT") q.subject
              ++ text_part (codes "BODY") q.body
              ++ since
              ++ before
              ++ flag_part (codes "UNSEEN") q.unseen
              ++ flag_part (codes "SEEN") q.seen
              ++ flag_part
                  (keyed (codes "BODY") (imap_quote (codes "multipart/")))
                  q.has_attachments)
            (query_tokens q)
      parts =
          AreParts-append _ _ _ _
            (AreParts-append _ _ _ _
              (AreParts-append _ _ _ _
                (AreParts-append _ _ _ _
                  (AreParts-append _ _ _ _
                    (AreParts-append _ _ _ _
                      (AreParts-append _ _ _ _
                        (AreParts-append _ _ _ _
                          (AreParts-append _ _ _ _ (text-AreParts (codes "FROM") q.from from_IsWord)
                            (domain-AreParts q.from_domain))
                          (text-AreParts (codes "TO") q.to (ground arith)))
                        (text-AreParts (codes "SUBJECT") q.subject (ground arith)))
                      (text-AreParts (codes "BODY") q.body body-IsWord))
                    h)
                  g)
                (flag-AreParts (codes "UNSEEN") q.unseen (ground arith)))
              (flag-AreParts (codes "SEEN") q.seen (ground arith)))
            (multipart-AreParts q.has_attachments)

  -- A command is built unless a date does not parse. A server that reads the command finds exactly
  -- what the query asks for, each text with its line breaks as blanks, or ALL if it asks for
  -- nothing.
  pub build_search_atoms_lem : (q : SearchQuery) → IsAnswer q (build_search_atoms chrono q)
  unfolding build_search_atoms
  build_search_atoms_lem q =
      with_dates_lem q (date_part chrono (codes "SINCE") q.since)
        (date_part chrono (codes "BEFORE") q.before)
        (date_part_lem (codes "SINCE") q.since (ground arith))
        (date_part_lem (codes "BEFORE") q.before (ground arith))
