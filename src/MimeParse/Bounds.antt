-- ===== src/MimeParse/Bounds.antt =====
-- src/mime_parse.rs, `parse_eml`: the bounds of what it makes.
use nexo_plugin_email.Base.{
  ℕ, ◌≤◌, Str, Bool, true, false, Option, none, some, List, [], ◌∷◌, ◌≡◌, ◌⊎◌, inl, inr, refl, sym,
  subst, arith, insert, str_is_eq, All, length, length-take, take, Bool-cases, byte_len, ltb,
  ltb→lt, Map, to_ascii_lowercase, str_eq, if◌then◌else◌,
}
use nexo_plugin_email.Events.{EmailAttachment, EmailMeta}
use nexo_plugin_email.MimeParse.Attach.{bytes_of, kept_bytes, attachment_of}
use nexo_plugin_email.MimeParse.Eml.{
  is_whitelisted, add_header, lift_headers, header_value_to_string, meta_of, parse_eml,
  body_text_raw,
}
use nexo_plugin_email.MimeParse.Intact.{IsIntact, described}
use nexo_plugin_email.MimeParse.Outcome.{IsAnswer, parse_eml_lem}
use nexo_plugin_email.MimeParse.{
  HeaderValue, Part, Parsed, MimeCrates, ParseConfig, ParsedMessage, Files, FileSystem,
}
use nexo_plugin_email.MimeText.Prefix.{truncate_utf8_lem}

abbrev IsListed : Str × Str → Type 0
IsListed (name, text) = is_whitelisted name ≡ true

insert-IsListed :
    (name text : Str) (extra : Map Str Str)
    → is_whitelisted name ≡ true
    → All IsListed extra
    → All IsListed (insert name text extra)
unfolding insert
insert-IsListed name text [] listed h = (listed, tt)
insert-IsListed name text ((k, v) ∷ extra) listed h =
    choose (str_eq k name) (insert-IsListed name text extra listed h.1)
  where
    choose :
        (b : Bool)
        → All IsListed (insert name text extra)
        → All IsListed (if b then (name, text) ∷ extra else (k, v) ∷ insert name text extra)
    choose true rest = (listed, h.1)
    choose false rest = (h.0, rest)

add_header-IsListed :
    (name : Str) (o : Option Str) (extra : Map Str Str)
    → is_whitelisted name ≡ true
    → All IsListed extra
    → All IsListed (add_header name o extra)
unfolding add_header
add_header-IsListed name none extra listed h = h
add_header-IsListed name (some text) extra listed h = insert-IsListed name text extra listed h

lift_headers-IsListed :
    (headers : List (Str × HeaderValue)) (extra : Map Str Str)
    → All IsListed extra
    → All IsListed (lift_headers headers extra)
unfolding lift_headers
lift_headers-IsListed [] extra h = h
lift_headers-IsListed ((name, value) ∷ headers) extra h =
    lift_headers-IsListed headers _ (choose (is_whitelisted (to_ascii_lowercase name)) refl)
  where
    choose :
        (b : Bool)
        → is_whitelisted (to_ascii_lowercase name) ≡ b
        → All IsListed (
            if b
            then add_header (to_ascii_lowercase name) (header_value_to_string value) extra
            else extra)
    choose true e =
        add_header-IsListed (to_ascii_lowercase name) (header_value_to_string value) extra e h
    choose false e = h

-- A record whose bytes are within the bound, or cut to exactly it.
abbrev IsCut : ℕ → EmailAttachment → Type 0
IsCut max a = (a.size_bytes ≤ max) × ((a.truncated ≡ false) ⊎ (a.size_bytes ≡ max))

kept_bytes-fits :
    (max : ℕ) (b : List ℕ)
    → (length (kept_bytes max b).0 ≤ max)
      × (((kept_bytes max b).1 ≡ false) ⊎ (length (kept_bytes max b).0 ≡ max))
unfolding kept_bytes
kept_bytes-fits max b = elim (Bool-cases (ltb max (length b))) [
  | inl long ↦
      let cut : length (take max b) ≡ max = omega (arith, length-take max b, ltb→lt _ _ long) in
      rw long (omega (arith, cut), inr cut)
  | inr short ↦ rw short (ground arith, inl refl)
]

module _ (crates : MimeCrates) (cfg : ParseConfig) (fs : FileSystem) where
  described-IsCut :
      (parts : List Part) → All (IsCut cfg.max_attachment_bytes) (described crates cfg fs parts)
  unfolding described attachment_of
  described-IsCut [] = tt
  described-IsCut (part ∷ parts) = by_bytes (bytes_of part.body) (described-IsCut parts)
    where
      by_bytes :
          (o : Option (List ℕ))
          → All (IsCut cfg.max_attachment_bytes) (described crates cfg fs parts)
          → All (IsCut cfg.max_attachment_bytes) (elim o [
            | none ↦ described crates cfg fs parts
            | some bytes ↦
                let (kept, truncated) = kept_bytes cfg.max_attachment_bytes bytes in
                attachment_of crates cfg part kept truncated ∷ described crates cfg fs parts
          ])
      by_bytes none rest = rest
      by_bytes (some bytes) rest = (kept_bytes-fits cfg.max_attachment_bytes bytes, rest)

  meta_of-fits :
      (m : Parsed)
      → (byte_len (meta_of crates cfg m).body_text ≤ cfg.max_body_bytes)
        × All IsListed (meta_of crates cfg m).headers_extra
  unfolding meta_of
  meta_of-fits m = (
    (truncate_utf8_lem (body_text_raw crates cfg m.body_text m.body_html)
        cfg.max_body_bytes).0.short,
    lift_headers-IsListed m.headers [] tt,
  )

  -- What a payload may have.
  abbrev pub IsBounded : Option ParsedMessage → Type 0
  IsBounded none = Unit {0}
  IsBounded (some p) =
      (byte_len p.meta.body_text ≤ cfg.max_body_bytes)
      × All IsListed p.meta.headers_extra
      × All (IsCut cfg.max_attachment_bytes) p.attachments

  IsAnswer-IsBounded :
      (files : Files) (errors : ℕ) (o : Option Parsed) (s : Files × ℕ × Option ParsedMessage)
      → IsAnswer crates cfg fs files errors o s
      → IsBounded s.2
  IsAnswer-IsBounded files errors none s h =
      subst (λ (x : Files × ℕ × Option ParsedMessage). IsBounded x.2) (sym h) tt
  IsAnswer-IsBounded files errors (some m) (after, count, none) h = tt
  IsAnswer-IsBounded files errors (some m) (after, count, some p) h =
      let fits = meta_of-fits m in
      (
        subst (λ (x : EmailMeta). byte_len x.body_text ≤ cfg.max_body_bytes) (sym h.1) fits.0,
        subst (λ (x : EmailMeta). All IsListed x.headers_extra) (sym h.1) fits.1,
        subst (λ l. All (IsCut cfg.max_attachment_bytes) l) (sym h.2)
            (described-IsCut m.attachments),
      )

  -- Whatever a message says, where the directory is one in which whole files have the hash of their
  -- bytes as their names: its payload has a plain-text body of at most the configured bytes (its HTML
  -- body is not cut), only headers of the list, under lower-case names, and of each attachment at
  -- most the configured bytes, of which it is exactly so many where it says that it was cut.
  pub parse_eml-bounds :
      (raw : List ℕ) (files : Files) (errors : ℕ)
      → IsIntact crates files
      → IsBounded (parse_eml crates cfg fs raw files errors).2
  parse_eml-bounds raw files errors h =
      IsAnswer-IsBounded files errors (crates.parse raw) _
        (parse_eml_lem crates cfg fs raw files errors h).1
