-- ===== src/MimeParse/Intact.antt =====
-- src/mime_parse.rs: the directory of attachments, whatever messages come and wherever a write fails.
use nexo_plugin_email.Base.{
  ℕ, ◌+◌, Str, Bool, true, false, Option, none, some, List, [], ◌∷◌, ◌≡◌, ◌⊎◌, inl, inr, refl, sym,
  ap, ◌∙◌, subst, lookup, str_is_eq, All, Bool-cases,
}
use nexo_plugin_email.Events.{EmailAttachment}
use nexo_plugin_email.MimeParse.Attach.{
  bytes_of, kept_bytes, attachment_of, Loop, pushed, after_write, parse_attachments,
}
use nexo_plugin_email.MimeParse.Files.{has_dot, lookup-write_dedup, write_dedup-there}
use nexo_plugin_email.MimeParse.{Part, MimeCrates, ParseConfig, Files, FileSystem, write_dedup}

module _ (crates : MimeCrates) where
  abbrev pub IsWhole : Str → Option (List ℕ) → Type 0
  IsWhole name none = Unit {0}
  IsWhole name (some bytes) = crates.sha256_hex bytes ≡ name

  -- A file is one that is being written, as the dot in its name tells, or has the hash of its bytes
  -- as its name.
  abbrev pub IsIntact : Files → Type 0
  IsIntact files = (name : Str) → (has_dot name ≡ true) ⊎ IsWhole name (lookup name files)

  write_dedup-IsIntact :
      (fs : FileSystem) (bytes : List ℕ) (files : Files)
      → IsIntact files
      → IsIntact (write_dedup fs (crates.sha256_hex bytes) bytes files).0
  write_dedup-IsIntact fs bytes files h name = elim (Bool-cases (has_dot name)) [
    | inl dotted ↦ inl dotted
    | inr plain ↦ elim (lookup-write_dedup fs (crates.sha256_hex bytes) name bytes files plain) [
      | inl same ↦ elim (h name) [
        | inl dotted ↦ inl dotted
        | inr whole ↦ inr (subst (IsWhole name) (sym same) whole)
      ]
      | inr new ↦ inr (subst (IsWhole name) (sym new.2) new.0)
    ]
  ]

  -- A file of this name that has it as the hash of its bytes.
  abbrev pub Holds : Files → Str → Type 0
  Holds files name =
      (bytes : List ℕ) × (lookup name files ≡ some bytes) × (crates.sha256_hex bytes ≡ name)

  sha256_hex-has_dot : (b : List ℕ) → has_dot (crates.sha256_hex b) ≡ false
  unfolding has_dot
  sha256_hex-has_dot b = crates.sha256_hex-plain b

  write_dedup-Holds :
      (fs : FileSystem) (bytes : List ℕ) (files : Files) (name : Str)
      → has_dot name ≡ false
      → Holds files name
      → Holds (write_dedup fs (crates.sha256_hex bytes) bytes files).0 name
  write_dedup-Holds fs bytes files name plain (b, there, same) =
      elim (lookup-write_dedup fs (crates.sha256_hex bytes) name bytes files plain) [
        | inl kept ↦ (b, kept ∙ there, same)
        | inr new ↦ absurd (cc (new.1, there))
      ]

  written-Holds :
      (fs : FileSystem) (bytes : List ℕ) (files : Files)
      → IsIntact files
      → (write_dedup fs (crates.sha256_hex bytes) bytes files).1 ≡ true
      → Holds (write_dedup fs (crates.sha256_hex bytes) bytes files).0 (crates.sha256_hex bytes)
  written-Holds fs bytes files h done =
      let name = crates.sha256_hex bytes in
      let (x, there) = write_dedup-there fs name bytes files (sha256_hex-has_dot bytes) done in
      elim (write_dedup-IsIntact fs bytes files h name) [
        | inl dotted ↦ absurd (cc (sha256_hex-has_dot bytes, dotted))
        | inr whole ↦ (x, there, subst (IsWhole name) there whole)
      ]

  module _ (cfg : ParseConfig) (fs : FileSystem) where
    -- The records of the parts that have bytes, in their order.
    unfoldable pub described : List Part → List EmailAttachment
    described [] = []
    described (part ∷ parts) =
        let rest = described parts in
        elim (bytes_of part.body) [
          | none ↦ rest
          | some bytes ↦
              let (kept, truncated) = kept_bytes cfg.max_attachment_bytes bytes in
              attachment_of crates cfg part kept truncated ∷ rest
        ]

    -- These records are all found and their files are there, or the loop has stopped at a failed
    -- write.
    abbrev pub IsParsed : List EmailAttachment → ℕ → Loop crates cfg → Type 0
    IsParsed wanted errors (after, count, none) = count ≡ errors + 1
    IsParsed wanted errors (after, count, some found) =
        (count ≡ errors)
        × (found ≡ wanted)
        × All (λ (a : EmailAttachment). Holds after a.sha256) found

    -- What a run of the loop leaves, and what it keeps of the files that are there before it.
    pub record IsGood (wanted : List EmailAttachment) (errors : ℕ) (before : Files)
        (run : Loop crates cfg) : Type 0 where
      pub intact : IsIntact run.0
      pub parsed : IsParsed wanted errors run
      pub keeps : (name : Str) → has_dot name ≡ false → Holds before name → Holds run.0 name

    pushed-IsGood :
        (a : EmailAttachment) (wanted : List EmailAttachment) (errors : ℕ) (before : Files)
        (run : Loop crates cfg)
        → has_dot a.sha256 ≡ false
        → Holds before a.sha256
        → IsGood wanted errors before run
        → IsGood (a ∷ wanted) errors before (pushed crates cfg a run)
    unfolding pushed
    pushed-IsGood a wanted errors before (after, count, none) plain there g = record {
      intact = g.intact;
      parsed = g.parsed;
      keeps = g.keeps;
    }
    pushed-IsGood a wanted errors before (after, count, some found) plain there g = record {
      intact = g.intact;
      parsed = (g.parsed.0, ap (λ l. a ∷ l) g.parsed.1, (g.keeps a.sha256 plain there, g.parsed.2));
      keeps = g.keeps;
    }

    -- the write of one part, and the rest of the loop after it
    after_write-IsGood :
        (a : EmailAttachment) (wanted : List EmailAttachment) (errors : ℕ) (before : Files)
        (w : Files × Bool) (rest : Files → Loop crates cfg)
        → has_dot a.sha256 ≡ false
        → IsIntact w.0
        → (w.1 ≡ true → Holds w.0 a.sha256)
        → ((name : Str) → has_dot name ≡ false → Holds before name → Holds w.0 name)
        → IsGood wanted errors w.0 (rest w.0)
        → IsGood (a ∷ wanted) errors before (after_write crates cfg a w errors rest)
    unfolding after_write
    after_write-IsGood a wanted errors before (after, false) rest plain h there keeps g = record {
      intact = h;
      parsed = refl;
      keeps = keeps;
    }
    after_write-IsGood a wanted errors before (after, true) rest plain h there keeps g =
        let p = pushed-IsGood a wanted errors after (rest after) plain (there refl) g in
        record {
          intact = p.intact;
          parsed = p.parsed;
          keeps = λ name dotless held. p.keeps name dotless (keeps name dotless held);
        }

    attachment_of-sha256 :
        (part : Part) (b : List ℕ) (t : Bool)
        → (attachment_of crates cfg part b t).sha256 ≡ crates.sha256_hex b
    unfolding attachment_of
    attachment_of-sha256 part b t = refl

    pub parse_attachments-IsGood :
        (parts : List Part) (files : Files) (errors : ℕ)
        → IsIntact files
        → IsGood (described parts) errors files (parse_attachments crates cfg fs parts files errors)
    unfolding parse_attachments described
    parse_attachments-IsGood [] files errors h = record {
      intact = h;
      parsed = (refl, refl, tt);
      keeps = λ name plain held. held;
    }
    parse_attachments-IsGood (part ∷ parts) files errors h =
        by_bytes (bytes_of part.body)
          (λ after whole. parse_attachments-IsGood parts after errors whole)
      where
        one : List ℕ × Bool → Loop crates cfg
        one (kept, t) =
            after_write crates cfg (attachment_of crates cfg part kept t)
              (write_dedup fs (crates.sha256_hex kept) kept files) errors
              (λ after. parse_attachments crates cfg fs parts after errors)

        first : List ℕ × Bool → EmailAttachment
        first (kept, t) = attachment_of crates cfg part kept t

        by_kept :
            (k : List ℕ × Bool)
            → ((after : Files)
                → IsIntact after
                → IsGood
                    (described parts)
                    errors
                    after
                    (parse_attachments crates cfg fs parts after errors))
            → IsGood (first k ∷ described parts) errors files (one k)
        by_kept (kept, t) ih =
            let whole = write_dedup-IsIntact fs kept files h in
            let sha = attachment_of-sha256 part kept t in
            after_write-IsGood (attachment_of crates cfg part kept t) (described parts) errors files
              (write_dedup fs (crates.sha256_hex kept) kept files)
              (λ after. parse_attachments crates cfg fs parts after errors)
              (sha256_hex-has_dot kept) whole (written-Holds fs kept files h)
              (write_dedup-Holds fs kept files) (ih _ whole)

        by_bytes :
            (o : Option (List ℕ))
            → ((after : Files)
                → IsIntact after
                → IsGood
                    (described parts)
                    errors
                    after
                    (parse_attachments crates cfg fs parts after errors))
            → IsGood
                (elim o [
                  | none ↦ described parts
                  | some bytes ↦ first (kept_bytes cfg.max_attachment_bytes bytes) ∷ described parts
                ])
                errors
                files
                (elim o [
                  | none ↦ parse_attachments crates cfg fs parts files errors
                  | some bytes ↦ one (kept_bytes cfg.max_attachment_bytes bytes)
                ])
        by_bytes none ih = ih files h
        by_bytes (some bytes) ih = by_kept (kept_bytes cfg.max_attachment_bytes bytes) ih
