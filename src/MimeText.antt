-- ===== src/MimeText.antt =====
-- src/mime_parse.rs: the cut of a body at a number of bytes.
pub mod Prefix
use nexo_plugin_email.Base.{
  ℕ, zero, suc, Str, Bool, true, false, Option, none, some, List, [], leb, if◌then◌else◌, byte_len,
  slice_to,
}

-- The loop down to a character boundary, which is where a slice does not panic, and the slice.
unfoldable pub cut_at : Str → ℕ → Str
unfolding slice_to
cut_at s zero = []
cut_at s (suc n) = let rest = cut_at s n in elim (slice_to (suc n) s) [ some r ↦ r | none ↦ rest ]

-- the text, and whether it was cut
unfoldable pub truncate_utf8 : Str → ℕ → Str × Bool
unfolding cut_at byte_len
truncate_utf8 s max = if leb (byte_len s) max then (s, false) else (cut_at s max, true)
