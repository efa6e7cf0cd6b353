-- ===== src/Metrics/Labels.antt =====
-- src/metrics.rs: a reader of labels, and what it reads of the text that `escape` makes.
use nexo_plugin_email.Base.{
  ℕ, Str, Bool, true, false, Option, none, some, [], ◌∷◌, ◌++◌, ◌≡◌, refl, sym, ap, ◌==◌,
  if◌then◌else◌, Bool-cases, inl, inr, subst, ==_iff,
}
use nexo_plugin_email.Metrics.{escape_char, escape}

-- A reader of the inside of a label (the text format of Prometheus): a backslash before an n is a
-- line break and before another character that character, a quote ends the label, and a line break
-- is an error. The answer is the label and the rest.
add_char : ℕ → Option (Str × Str) → Option (Str × Str)
add_char c none = none
add_char c (some (s, rest)) = some (c ∷ s, rest)

read_inside : (escaped : Bool) → Str → Option (Str × Str)
unfolding add_char
read_inside escaped [] = none
read_inside true (c ∷ s) =
    let rest = read_inside false s in add_char (if c == b'n' then 10 else c) rest
read_inside false (c ∷ s) =
    let escaped = read_inside true s in
    let plain = add_char c (read_inside false s) in
    if c == b'"'
    then some ([], s)
    else if c == 10
    then none
    else if c == b'\\'
    then escaped
    else plain

pub read_label : Str → Option (Str × Str)
unfolding read_inside
read_label s = read_inside false s

abbrev IsRead : ℕ → Str → Str → Type 0
IsRead c s rest =
    read_inside false ((escape_char c ++ escape s) ++ b'"' ∷ rest) ≡ some (c ∷ s, rest)

escape_char-IsRead :
    (c : ℕ) (s rest : Str)
    → read_inside false (escape s ++ b'"' ∷ rest) ≡ some (s, rest)
    → IsRead c s rest
unfolding read_inside escape_char add_char
escape_char-IsRead c s rest ih = elim (Bool-cases (c == b'\\')) [
  | inl e ↦ subst (λ x. IsRead x s rest) (sym ((==_iff c b'\\').0 e)) (ap (add_char b'\\') ih)
  | inr not_slash ↦ elim (Bool-cases (c == b'"')) [
    | inl e ↦ subst (λ x. IsRead x s rest) (sym ((==_iff c b'"').0 e)) (ap (add_char b'"') ih)
    | inr not_mark ↦ elim (Bool-cases (c == 10)) [
      | inl e ↦ subst (λ x. IsRead x s rest) (sym ((==_iff c 10).0 e)) (ap (add_char 10) ih)
      | inr plain ↦
          rw (not_slash, not_mark, plain) (rw (not_mark, plain, not_slash) (ap (add_char c) ih))
    ]
  ]
]

-- Whatever an instance is called, a reader of labels finds exactly that name in its label and goes
-- on after it, so that no name can end its label or its line.
pub escape_lem : (s rest : Str) → read_label (escape s ++ b'"' ∷ rest) ≡ some (s, rest)
unfolding read_label escape read_inside
escape_lem [] rest = refl
escape_lem (c ∷ s) rest = escape_char-IsRead c s rest (escape_lem s rest)
