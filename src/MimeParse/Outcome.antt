-- ===== src/MimeParse/Outcome.antt =====
-- src/mime_parse.rs, `parse_eml`: all outcomes of a parse, and the bounds of what it makes.
use nexo_plugin_email.Base.{ℕ, ◌+◌, Option, none, some, List, ◌≡◌, refl, str_is_eq, All}
use nexo_plugin_email.Events.{EmailAttachment, EmailMeta}
use nexo_plugin_email.MimeParse.Attach.{Loop, parse_attachments}
use nexo_plugin_email.MimeParse.Eml.{meta_of, with_meta, parse_eml}
use nexo_plugin_email.MimeParse.Intact.{
  IsIntact, Holds, described, IsParsed, parse_attachments-IsGood,
}
use nexo_plugin_email.MimeParse.{Parsed, MimeCrates, ParseConfig, ParsedMessage, Files, FileSystem}

module _ (crates : MimeCrates) (cfg : ParseConfig) (fs : FileSystem) where
  -- What comes of a message: what mail-parser does not read changes nothing; for any other, either
  -- a write error is counted, or the payload has what the message says and a record of each part
  -- that has bytes, and the directory holds the file of each record.
  abbrev pub IsAnswer : Files → ℕ → Option Parsed → Files × ℕ × Option ParsedMessage → Type 0
  IsAnswer files errors none s = s ≡ (files, errors, none)
  IsAnswer files errors (some m) (after, count, none) = count ≡ errors + 1
  IsAnswer files errors (some m) (after, count, some p) =
      (count ≡ errors)
      × (p.meta ≡ meta_of crates cfg m)
      × (p.attachments ≡ described crates cfg fs m.attachments)
      × All (λ (a : EmailAttachment). Holds crates after a.sha256) p.attachments

  with_meta-IsAnswer :
      (files : Files) (errors : ℕ) (m : Parsed) (run : Loop crates cfg)
      → IsParsed crates cfg fs (described crates cfg fs m.attachments) errors run
      → IsAnswer files errors (some m) (with_meta crates cfg (meta_of crates cfg m) run)
  unfolding with_meta
  with_meta-IsAnswer files errors m (after, count, none) h = h
  with_meta-IsAnswer files errors m (after, count, some found) h = (h.0, refl, h.1, h.2)

  with_meta-files :
      (meta : EmailMeta) (run : Loop crates cfg)
      → IsIntact crates run.0
      → IsIntact crates (with_meta crates cfg meta run).0
  unfolding with_meta
  with_meta-files meta (after, count, none) h = h
  with_meta-files meta (after, count, some found) h = h

  -- In a directory where every file has the hash of its bytes as its name or is still being
  -- written, any message is parsed with the answer that is described, and the directory is such a
  -- one afterwards, at whatever point a write fails.
  pub parse_eml_lem :
      (raw : List ℕ) (files : Files) (errors : ℕ)
      → IsIntact crates files
      → IsIntact crates (parse_eml crates cfg fs raw files errors).0
        × IsAnswer files errors (crates.parse raw) (parse_eml crates cfg fs raw files errors)
  unfolding parse_eml
  parse_eml_lem raw files errors h = by_parse (crates.parse raw)
    where
      by_parse :
          (o : Option Parsed)
          → (let s : Files × ℕ × Option ParsedMessage = (elim o [
            | none ↦ (files, errors, none)
            | some m ↦
                with_meta crates cfg
                  (meta_of crates cfg m)
                  (parse_attachments crates cfg fs m.attachments files errors)
          ]) in
              IsIntact crates s.0 × IsAnswer files errors o s)
      by_parse none = (h, refl)
      by_parse (some m) =
          let g = parse_attachments-IsGood crates cfg fs m.attachments files errors h in
          (
            with_meta-files (meta_of crates cfg m) _ g.intact,
            with_meta-IsAnswer files errors m _ g.parsed,
          )
