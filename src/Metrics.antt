-- ===== src/Metrics.antt =====
-- src/metrics.rs: the text of a counter with a label.
pub mod Labels
pub mod Counters
pub mod Counting
pub mod Render
use nexo_plugin_email.Base.{
  ℕ, Str, List, [], ◌∷◌, ◌++◌, ◌==◌, if◌then◌else◌, codes, decimal, concat, map,
}

-- one character of a label
unfoldable pub escape_char : ℕ → Str
escape_char c =
    if c == b'\\'
    then b'\\' ∷ b'\\' ∷ []
    else if c == b'"'
    then b'\\' ∷ b'"' ∷ []
    else if c == 10
    then b'\\' ∷ b'n' ∷ []
    else c ∷ []

unfoldable pub escape : Str → Str
unfolding escape_char
escape [] = []
escape (c ∷ s) = escape_char c ++ escape s

-- The line of one instance, before its value.
unfoldable pub instance_label : Str → Str → Str
unfolding escape
instance_label name instance = name ++ (codes "{instance=\"" ++ (escape instance ++ codes "\"} "))

unfoldable pub instance_row : Str → Str × ℕ → Str
unfolding instance_label decimal
instance_row name (instance, v) = instance_label name instance ++ (decimal v ++ 10 ∷ [])

-- The rows of a counter, which are sorted by their instance, and a zero if there are none.
unfoldable pub render_instance_counter : Str → List (Str × ℕ) → Str
unfolding instance_row concat decimal
render_instance_counter name [] = name ++ codes "{instance=\"\"} 0\n"
render_instance_counter name (row ∷ rows) = concat (map (instance_row name) (row ∷ rows))
