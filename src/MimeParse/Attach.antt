-- ===== src/MimeParse/Attach.antt =====
-- src/mime_parse.rs, `parse_eml`: the loop over the attachments.
use nexo_plugin_email.Base.{
  ℕ, ◌+◌, Str, Bool, true, false, Option, none, some, List, [], ◌∷◌, ◌++◌, ltb, if◌then◌else◌,
  codes, into_bytes, length, take,
}
use nexo_plugin_email.Events.{EmailAttachment, AttachmentDisposition, inline, attachment}
use nexo_plugin_email.MimeParse.{
  PartType, binary, inline_binary, text, html, other_type, PartKind, Disposition, Part, MimeCrates,
  ParseConfig, Files, FileSystem, write_dedup,
}

-- A part of another type is passed over.
unfoldable pub bytes_of : PartType → Option (List ℕ)
unfolding into_bytes
bytes_of (binary b) = some b
bytes_of (inline_binary b) = some b
bytes_of (text t) = some (into_bytes t)
bytes_of (html t) = some (into_bytes t)
bytes_of other_type = none

unfoldable pub kept_bytes : ℕ → List ℕ → List ℕ × Bool
kept_bytes max bytes = if ltb max (length bytes) then (take max bytes, true) else (bytes, false)

unfoldable pub subtyped : Str → Option Str → Str
subtyped ctype none = ctype
subtyped ctype (some sub) = ctype ++ b'/' ∷ sub

unfoldable pub mime_type_of : Option PartKind → Str
unfolding subtyped
mime_type_of none = codes "application/octet-stream"
mime_type_of (some ct) = subtyped ct.ctype ct.subtype

unfoldable pub named : Option PartKind → Option Str
named none = none
named (some ct) = ct.name

unfoldable pub filename_of : Option Disposition → Option PartKind → Option Str
unfolding named
filename_of none ct = named ct
filename_of (some cd) ct = elim cd.filename [ some f ↦ some f | none ↦ named ct ]

unfoldable pub disposition_of : Option Disposition → AttachmentDisposition
disposition_of none = attachment
disposition_of (some cd) = if cd.is_inline then inline else attachment

module _ (crates : MimeCrates) (cfg : ParseConfig) where
  -- The record of a part, of the bytes that are kept of it.
  unfoldable pub attachment_of : Part → List ℕ → Bool → EmailAttachment
  unfolding mime_type_of filename_of disposition_of
  attachment_of part bytes truncated = record {
    sha256 = crates.sha256_hex bytes;
    local_path = cfg.attachments_dir ++ b'/' ∷ crates.sha256_hex bytes;
    size_bytes = length bytes;
    mime_type = mime_type_of part.content_type;
    filename = filename_of part.content_disposition part.content_type;
    content_id = part.content_id;
    disposition = disposition_of part.content_disposition;
    truncated = truncated;
  }

  -- What a run of the loop leaves: the files, the write errors counted, and the records, or none
  -- after an error.
  abbrev pub Loop : Type 0
  Loop = Files × ℕ × Option (List EmailAttachment)

  unfoldable pub pushed : EmailAttachment → Loop → Loop
  pushed a (files, errors, none) = (files, errors, none)
  pushed a (files, errors, some rest) = (files, errors, some (a ∷ rest))

  -- after the write of one part: the rest of the loop, or the error
  unfoldable pub after_write : EmailAttachment → Files × Bool → ℕ → (Files → Loop) → Loop
  unfolding pushed
  after_write a (files, true) errors rest = pushed a (rest files)
  after_write a (files, false) errors rest = (files, errors + 1, none)

  unfoldable pub parse_attachments : FileSystem → List Part → Files → ℕ → Loop
  unfolding bytes_of kept_bytes attachment_of after_write write_dedup
  parse_attachments fs [] files errors = (files, errors, some [])
  parse_attachments fs (part ∷ parts) files errors =
      let rest = λ (after : Files). parse_attachments fs parts after errors in
      elim (bytes_of part.body) [
        | none ↦ rest files
        | some bytes ↦
            let (kept, truncated) = kept_bytes cfg.max_attachment_bytes bytes in
            after_write (attachment_of part kept truncated)
              (write_dedup fs (crates.sha256_hex kept) kept files) errors rest
      ]
