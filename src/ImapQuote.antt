-- ===== src/ImapQuote.antt =====
-- src/tool/imap_op.rs, src/tool/uid_set.rs and src/tool/label.rs: the text that the tools put into
-- IMAP commands.
pub mod Injection
use nexo_plugin_email.Base.{
  ℕ, Str, Bool, true, false, ◌||◌, List, [], ◌∷◌, ◌++◌, map, ◌==◌, if◌then◌else◌, any,
  is_whitespace, join, decimal,
}

-- one character of the quoted text
unfoldable pub quote_char : ℕ → Str
quote_char c =
    if c == b'\\'
    then b'\\' ∷ b'\\' ∷ []
    else if c == b'"'
    then b'\\' ∷ b'"' ∷ []
    else if c == 13 || c == 10
    then 32 ∷ []
    else c ∷ []

unfoldable pub quote_chars : Str → Str
unfolding quote_char
quote_chars [] = []
quote_chars (c ∷ s) = quote_char c ++ quote_chars s

unfoldable pub imap_quote : Str → Str
unfolding quote_chars
imap_quote s = b'"' ∷ quote_chars s ++ b'"' ∷ []

unfoldable pub format_uid_set : List ℕ → Str
unfolding join decimal
format_uid_set uids = join (b',' ∷ []) (map decimal uids)

unfoldable pub needs_quote : Str → Bool
unfolding any is_whitespace
needs_quote [] = true
needs_quote (c ∷ l) =
    any (λ d. is_whitespace d || d == b'(' || d == b')' || d == b'"' || d == b'\\') (c ∷ l)

-- the two replacements, in the order of the code
unfoldable pub replace_char : ℕ → Str → Str → Str
replace_char d by [] = []
replace_char d by (c ∷ s) =
    let rest = replace_char d by s in if c == d then by ++ rest else c ∷ rest

unfoldable pub format_label : Str → Str
unfolding needs_quote replace_char
format_label l =
    if needs_quote l
    then b'"' ∷ replace_char b'"' (b'\\' ∷ b'"' ∷ []) (replace_char b'\\' (b'\\' ∷ b'\\' ∷ []) l)
      ++ b'"' ∷ []
    else l

unfoldable pub format_label_list : List Str → Str
unfolding format_label join
format_label_list [] = []
format_label_list (l ∷ ls) = b'(' ∷ join (32 ∷ []) (map format_label (l ∷ ls)) ++ b')' ∷ []
