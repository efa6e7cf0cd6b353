-- ===== src/Tool/Search/Tokens.antt =====
-- src/tool/search.rs: how a server reads the built command, whatever text is in the query.
use mathlib.Core.List.{append_assoc, append-nil}
use nexo_plugin_email.Base.{
  ℕ, Str, ◌||◌, Option, none, some, List, [], ◌∷◌, ◌++◌, ◌≡◌, refl, sym, ap, ◌∙◌, subst,
  if◌then◌else◌, ◌==◌, ==_iff, Bool-cases, inl, inr, join, All,
}
use nexo_plugin_email.ImapQuote.Injection.{flattened}
use nexo_plugin_email.ImapQuote.{imap_quote, quote_char, quote_chars}
use nexo_plugin_email.Tool.Search.{IsWordChar, IsWord, keyed}

-- A command is words and quoted strings, each after one blank.
pub data Token : Type 0 where
  word quoted : Str → Token

pub data Mode : Type 0 where
  start after : Mode
  in_word in_quoted escaped : Str → Mode

abbrev pub add : Token → Option (List Token) → Option (List Token)
add t none = none
add t (some ts) = some (t ∷ ts)

-- The reader of RFC 3501: in a quoted string a backslash takes the next character as it is, and a
-- line break is an error.
pub read : Mode → Str → Option (List Token)
read start [] = none
read start (c ∷ s) =
    let quote = read (in_quoted []) s in
    let plain = read (in_word (c ∷ [])) s in
    if c == b'"' then quote else if c == 32 then none else plain
read (in_word w) [] = some (word w ∷ [])
read (in_word w) (c ∷ s) =
    let next = add (word w) (read start s) in
    let more = read (in_word (w ++ c ∷ [])) s in
    if c == 32 then next else if c == b'"' then none else more
read (in_quoted w) [] = none
read (in_quoted w) (c ∷ s) =
    let closed = add (quoted w) (read after s) in
    let escape = read (escaped w) s in
    let more = read (in_quoted (w ++ c ∷ [])) s in
    if c == b'"'
    then closed
    else if c == 13 || c == 10
    then none
    else if c == b'\\'
    then escape
    else more
read (escaped w) [] = none
read (escaped w) (c ∷ s) = read (in_quoted (w ++ c ∷ [])) s
read after [] = some []
read after (c ∷ s) = let next = read start s in if c == 32 then next else none

read-in_word :
    (w s rest : Str)
    → All IsWordChar s
    → read (in_word w) (s ++ rest) ≡ read (in_word (w ++ s)) rest
unfolding read
read-in_word w [] rest h = rw append-nil
read-in_word w (c ∷ s) rest ((blank, mark), h) =
    rw (blank, mark) (read-in_word (w ++ c ∷ []) s rest h ∙ rw append_assoc)

abbrev IsQuotedChar : Str → ℕ → Str → Type 0
IsQuotedChar w c rest =
    read (in_quoted w) (quote_char c ++ rest)
    ≡ read (in_quoted (w ++ (if c == 13 || c == 10 then 32 else c) ∷ [])) rest

read-quote_char : (w : Str) (c : ℕ) (rest : Str) → IsQuotedChar w c rest
unfolding read quote_char
read-quote_char w c rest = elim (Bool-cases (c == b'\\')) [
  | inl e ↦ subst (λ x. IsQuotedChar w x rest) (sym ((==_iff c b'\\').0 e)) refl
  | inr not_slash ↦ elim (Bool-cases (c == b'"')) [
    | inl e ↦ subst (λ x. IsQuotedChar w x rest) (sym ((==_iff c b'"').0 e)) refl
    | inr not_mark ↦ elim (Bool-cases (c == 13 || c == 10)) [
      | inl break ↦ rw (not_slash, not_mark, break) refl
      | inr plain ↦ rw (not_slash, not_mark, plain) (rw (not_mark, plain, not_slash) refl)
    ]
  ]
]

read-quote_chars :
    (w s rest : Str)
    → read (in_quoted w) (quote_chars s ++ rest) ≡ read (in_quoted (w ++ flattened s)) rest
unfolding quote_chars flattened
read-quote_chars w [] rest = rw append-nil
read-quote_chars w (c ∷ s) rest =
    ap (read (in_quoted w)) (append_assoc (quote_char c) (quote_chars s) rest)
    ∙ read-quote_char w c (quote_chars s ++ rest)
    ∙ read-quote_chars (w ++ (if c == 13 || c == 10 then 32 else c) ∷ []) s rest
    ∙ ap (λ v. read (in_quoted v) rest)
        (append_assoc w ((if c == 13 || c == 10 then 32 else c) ∷ []) (flattened s))

read-imap_quote :
    (s rest : Str)
    → read start (imap_quote s ++ rest) ≡ add (quoted (flattened s)) (read after rest)
unfolding imap_quote read
read-imap_quote s rest =
    ap (read (in_quoted [])) (append_assoc (quote_chars s) (b'"' ∷ []) rest)
    ∙ read-quote_chars [] s (b'"' ∷ rest)

read_word : (w rest : Str) → IsWord w → read start (w ++ 32 ∷ rest) ≡ add (word w) (read start rest)
unfolding read
read_word [] rest h = elim h [ ]
read_word (c ∷ w) rest ((blank, mark), h) = rw (blank, mark) (read-in_word (c ∷ []) w (32 ∷ rest) h)

read_last_word : (w : Str) → IsWord w → read start w ≡ some (word w ∷ [])
unfolding read
read_last_word [] h = elim h [ ]
read_last_word (c ∷ w) ((blank, mark), h) =
    rw (blank, mark)
      (ap (read (in_word (c ∷ []))) (sym (append-nil w)) ∙ read-in_word (c ∷ []) w [] h)

-- The tokens of one part of a command, at its end or before another part.
abbrev pub add_all : List Token → Option (List Token) → Option (List Token)
add_all [] o = o
add_all (t ∷ ts) o = add t (add_all ts o)

abbrev pub IsPart : Str → Token → List Token → Type 0
IsPart p t u =
    (read start p ≡ some (t ∷ u))
    × ((rest : Str) → read start (p ++ 32 ∷ rest) ≡ add_all (t ∷ u) (read start rest))

pub word-IsPart : (w : Str) → IsWord w → IsPart w (word w) []
word-IsPart w h = (read_last_word w h, λ rest. read_word w rest h)

pub keyed_quote-IsPart :
    (key v : Str)
    → IsWord key
    → IsPart (keyed key (imap_quote v)) (word key) (quoted (flattened v) ∷ [])
unfolding read
keyed_quote-IsPart key v h = (
  read_word key (imap_quote v) h
      ∙ ap (add (word key))
          (ap (read start) (sym (append-nil (imap_quote v))) ∙ read-imap_quote v []),
  λ rest.
      ap (read start) (append_assoc key (32 ∷ imap_quote v) (32 ∷ rest))
      ∙ read_word key (imap_quote v ++ 32 ∷ rest) h
      ∙ ap (add (word key)) (read-imap_quote v (32 ∷ rest)),
)

pub keyed_word-IsPart :
    (key w : Str) → IsWord key → IsWord w → IsPart (keyed key w) (word key) (word w ∷ [])
keyed_word-IsPart key w h g = (
  read_word key w h ∙ ap (add (word key)) (read_last_word w g),
  λ rest.
      ap (read start) (append_assoc key (32 ∷ w) (32 ∷ rest))
      ∙ read_word key (w ++ 32 ∷ rest) h
      ∙ ap (add (word key)) (read_word w rest g),
)

-- The tokens of a list of parts.
abbrev pub AreParts : List Str → List Token → Type 0
AreParts [] ts = ts ≡ []
AreParts (p ∷ ps) ts =
    (t : Token) × (u : List Token) × (v : List Token) × (ts ≡ t ∷ u ++ v)
    × IsPart p t u
    × AreParts ps v

pub AreParts-append :
    (ps qs : List Str) (u v : List Token)
    → AreParts ps u
    → AreParts qs v
    → AreParts (ps ++ qs) (u ++ v)
AreParts-append [] qs u v h g = subst (λ x. AreParts qs (x ++ v)) (sym h) g
AreParts-append (p ∷ ps) qs u v (t, a, b, e, part, h) g = (
  t,
  a,
  b ++ v,
  ap (λ x. x ++ v) e ∙ ap (λ x. t ∷ x) (append_assoc a b v),
  part,
  AreParts-append ps qs b v h g,
)

add_all-some : (u v : List Token) → add_all u (some v) ≡ some (u ++ v)
add_all-some [] v = refl
add_all-some (t ∷ u) v = ap (add t) (add_all-some u v)

join_cons :
    (p q : Str) (ps : List Str) → join (32 ∷ []) (p ∷ q ∷ ps) ≡ p ++ 32 ∷ join (32 ∷ []) (q ∷ ps)
unfolding join
join_cons p q ps = append_assoc p (32 ∷ []) (join (32 ∷ []) (q ∷ ps))

pub read-join :
    (p : Str) (ps : List Str) (ts : List Token)
    → AreParts (p ∷ ps) ts
    → read start (join (32 ∷ []) (p ∷ ps)) ≡ some ts
unfolding join
read-join p [] ts (t, u, v, e, (alone, before), none_left) =
    alone
    ∙ ap (λ x. some (t ∷ x)) (sym (append-nil u))
    ∙ ap (λ x. some (t ∷ u ++ x)) (sym none_left)
    ∙ ap some (sym e)
read-join p (q ∷ ps) ts (t, u, v, e, (alone, before), h) =
    ap (read start) (join_cons p q ps)
    ∙ before (join (32 ∷ []) (q ∷ ps))
    ∙ ap (add_all (t ∷ u)) (read-join q ps v h)
    ∙ add_all-some (t ∷ u) v
    ∙ ap some (sym e)
