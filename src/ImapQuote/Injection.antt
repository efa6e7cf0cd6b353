-- ===== src/ImapQuote/Injection.antt =====
-- src/tool/imap_op.rs: `imap_quote`, and a reader of quoted strings.
use mathlib.Core.List.{append_assoc}
use nexo_plugin_email.Base.{
  ℕ, Str, Bool, true, false, ◌||◌, Option, none, some, [], ◌∷◌, ◌++◌, ◌≡◌, refl, sym, ap, ◌∙◌, ◌==◌,
  if◌then◌else◌, Bool-cases, inl, inr, subst, ==_iff,
}
use nexo_plugin_email.ImapQuote.{quote_char, quote_chars, imap_quote}

-- A reader of the inside of a quoted string (RFC 3501): a backslash takes the next character as it
-- is, a quote ends the string, and a line break is an error. The answer is the text and the rest.
add_char : ℕ → Option (Str × Str) → Option (Str × Str)
add_char c none = none
add_char c (some (s, rest)) = some (c ∷ s, rest)

read_inside : (escaped : Bool) → Str → Option (Str × Str)
unfolding add_char
read_inside escaped [] = none
read_inside true (c ∷ s) = add_char c (read_inside false s)
read_inside false (c ∷ s) =
    let escaped = read_inside true s in
    let plain = add_char c (read_inside false s) in
    if c == b'"'
    then some ([], s)
    else if c == 13 || c == 10
    then none
    else if c == b'\\'
    then escaped
    else plain

pub read_quoted : Str → Option (Str × Str)
unfolding read_inside
read_quoted [] = none
read_quoted (c ∷ s) = if c == b'"' then read_inside false s else none

-- Line breaks are sent as blanks.
unfoldable pub flattened : Str → Str
flattened [] = []
flattened (c ∷ s) = (if c == 13 || c == 10 then 32 else c) ∷ flattened s

abbrev IsRead : ℕ → Str → Str → Type 0
IsRead c s rest =
    read_inside false ((quote_char c ++ quote_chars s) ++ b'"' ∷ rest)
    ≡ some ((if c == 13 || c == 10 then 32 else c) ∷ flattened s, rest)

quote_char-IsRead :
    (c : ℕ) (s rest : Str)
    → read_inside false (quote_chars s ++ b'"' ∷ rest) ≡ some (flattened s, rest)
    → IsRead c s rest
unfolding read_inside quote_char add_char
quote_char-IsRead c s rest ih = elim (Bool-cases (c == b'\\')) [
  | inl e ↦ subst (λ x. IsRead x s rest) (sym ((==_iff c b'\\').0 e)) (ap (add_char b'\\') ih)
  | inr not_slash ↦ elim (Bool-cases (c == b'"')) [
    | inl e ↦ subst (λ x. IsRead x s rest) (sym ((==_iff c b'"').0 e)) (ap (add_char b'"') ih)
    | inr not_mark ↦ elim (Bool-cases (c == 13 || c == 10)) [
      | inl break ↦ rw (not_slash, not_mark, break) (ap (add_char 32) ih)
      | inr plain ↦
          rw (not_slash, not_mark, plain) (rw (not_mark, plain, not_slash) (ap (add_char c) ih))
    ]
  ]
]

read_inside-quote_chars :
    (s rest : Str) → read_inside false (quote_chars s ++ b'"' ∷ rest) ≡ some (flattened s, rest)
unfolding read_inside quote_chars flattened
read_inside-quote_chars [] rest = refl
read_inside-quote_chars (c ∷ s) rest = quote_char-IsRead c s rest (read_inside-quote_chars s rest)

-- Whatever is quoted, and whatever follows it in the command, a server reads one quoted string: the
-- text, with its line breaks as blanks, and then what follows.
imap_quote_lem : (s rest : Str) → read_quoted (imap_quote s ++ rest) ≡ some (flattened s, rest)
unfolding imap_quote read_quoted
imap_quote_lem s rest =
    ap (read_inside false) (append_assoc (quote_chars s) (b'"' ∷ []) rest)
    ∙ read_inside-quote_chars s rest
