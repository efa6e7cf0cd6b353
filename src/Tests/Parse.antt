-- ===== src/Tests/Parse.antt =====
-- A concrete message, and the theorems on its parse.
use nexo_plugin_email.Base.{
  ℕ, Str, true, false, none, some, List, [], ◌∷◌, ◌≡◌, refl, codes, any, ◌==◌, inr, lookup,
}
use nexo_plugin_email.MimeParse.Bounds.{IsBounded, parse_eml-bounds}
use nexo_plugin_email.MimeParse.Eml.{parse_eml}
use nexo_plugin_email.MimeParse.Intact.{IsIntact}
use nexo_plugin_email.MimeParse.Outcome.{IsAnswer, parse_eml_lem}
use nexo_plugin_email.MimeParse.{
  MimeCrates, ParseConfig, FileSystem, Parsed, Part, binary, text, header_text, other_value,
}

-- A stand-in for a hash, which has no dot.
abbrev pub marks : List ℕ → Str
marks [] = []
marks (x ∷ b) = b'a' ∷ marks b

pub marks-plain : (b : List ℕ) → any (λ c. c == b'.') (marks b) ≡ false
unfolding any
marks-plain [] = refl
marks-plain (x ∷ b) = marks-plain b

abbrev part : Part
part = record {
  body = binary (1 ∷ 2 ∷ 3 ∷ []);
  content_type = none;
  content_disposition = none;
  content_id = none;
}

abbrev mail : Parsed
mail = record {
  from = none;
  to = none;
  cc = none;
  subject = some (codes "Hi");
  message_id = none;
  in_reply_to = other_value;
  references = other_value;
  date = none;
  body_text = some (codes "text");
  body_html = none;
  html_part = none;
  headers = (codes "Precedence", header_text (codes "bulk")) ∷ [];
  attachments = part ∷ record part { body = text (codes "b") } ∷ [];
}

abbrev pub crates : MimeCrates
crates = record {
  parse = λ raw. some mail;
  from_read = λ html. none;
  sha256_hex = marks;
  sha256_hex-plain = marks-plain;
}

abbrev pub cfg : ParseConfig
cfg = record {
  max_body_bytes = 3;
  max_attachment_bytes = 2;
  attachments_dir = codes "data";
  fallback_internal_date = 7;
}

-- All writes succeed, but for the last one of the second attachment.
abbrev pub fs : FileSystem
fs = record {
  create_dir_all = true;
  written = λ name. elim name [ [] ↦ 3 | _ ∷ [] ↦ 2 | _ ∷ _ ∷ _ ↦ 3 ];
  uuid = λ name. codes "0a";
}

pub no_files-IsIntact : IsIntact crates []
unfolding lookup
no_files-IsIntact name = inr tt

parse_eml_lem_example :
    IsIntact crates (parse_eml crates cfg fs (1 ∷ []) [] 0).0
    × IsAnswer crates cfg fs [] 0 (some mail) (parse_eml crates cfg fs (1 ∷ []) [] 0)
parse_eml_lem_example = parse_eml_lem crates cfg fs (1 ∷ []) [] 0 no_files-IsIntact

parse_eml-bounds_example : IsBounded crates cfg fs (parse_eml crates cfg fs (1 ∷ []) [] 0).2
parse_eml-bounds_example = parse_eml-bounds crates cfg fs (1 ∷ []) [] 0 no_files-IsIntact

-- The first file is whole; the second one is still under its temporary name, and is counted.
half_written :
    parse_eml crates cfg fs (1 ∷ []) [] 0
    ≡ ((codes "aa", 1 ∷ 2 ∷ []) ∷ (codes "a.tmp.0a", 98 ∷ []) ∷ [], 1, none)
unfolding parse_eml
half_written = refl
