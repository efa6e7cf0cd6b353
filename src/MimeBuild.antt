-- ===== src/MimeBuild.antt =====
-- src/mime_build.rs: the bytes of an outbound message.
pub mod Html
use mathlib.Core.Option
use nexo_plugin_email.Base.{
  ℕ, Str, Bool, true, false, ◌&&◌, ◌||◌, Option, none, some, List, [], ◌∷◌, ◌++◌, map, codes,
  if◌then◌else◌, ltb, is_whitespace, trim, trim_start, trim_end, ◌==◌, byte_len, slice_to,
  to_ascii_lowercase, starts_with, contains, rsplit_once, join, decimal, concat, String, into_bytes,
}
use nexo_plugin_email.Events.{
  AttachmentDisposition, inline, attachment, OutboundAttachmentRef, OutboundCommand,
}

abbrev pub crlf : Str
crlf = 13 ∷ 10 ∷ []

domain_of : Option (Str × Str) → Str
domain_of none = codes "nexo"
domain_of (some (local_part, [])) = codes "nexo"
domain_of (some (local_part, c ∷ d)) = c ∷ d

-- `ts_ms` is the clock in milliseconds and `uuid` the fresh v4 id, in hexadecimal.
unfoldable pub generate_message_id : (ts_ms : ℕ) (uuid from : Str) → Str
unfolding rsplit_once decimal domain_of concat
generate_message_id ts_ms uuid from = concat (
    (b'<' ∷ decimal ts_ms)
    ∷ (b'.' ∷ uuid)
    ∷ (b'@' ∷ domain_of (rsplit_once b'@' from))
    ∷ (b'>' ∷ [])
    ∷ [])

-- `date` is what chrono prints for `now` in the RFC 2822 format.
pub record BuildContext : Type 0 where
  pub message_id : Str
  pub from : Str
  pub date : Str

unfoldable pub strip_brackets : Str → Str
unfolding is_whitespace trim_start trim_end
strip_brackets s = trim_end (λ c. c == b'>') (trim_start (λ c. c == b'<') (trim s))

abbrev html_markers : Str → Bool
html_markers low =
    starts_with (codes "<!doctype html") low
    || starts_with (codes "<html") low
    || contains (codes "<html") low

-- `none` is a panic: `&head[..64]` inside a character.
unfoldable pub looks_like_html : Str → Option Bool
unfolding is_whitespace trim_start byte_len slice_to to_ascii_lowercase starts_with contains
looks_like_html body =
    let head = trim_start is_whitespace body in
    Option.map (λ h. html_markers (to_ascii_lowercase h))
      (if ltb 64 (byte_len head) then slice_to 64 head else some head)

unfoldable pub is_ascii : Str → Bool
is_ascii [] = true
is_ascii (c ∷ s) = ltb c 128 && is_ascii s

-- One part behind the body: its type, its Content-ID or file name, and its bytes.
pub data Part : Type 0 where
  inline_part attachment_part : (mime_type name : Str) → List ℕ → Part

-- An inline part with no Content-ID gets one from its file name.
content_id_of : OutboundAttachmentRef → Str
content_id_of a = elim a.content_id [ some cid ↦ cid | none ↦ codes "inline-" ++ a.filename ]

part_of : AttachmentDisposition → OutboundAttachmentRef → List ℕ → Str → Part
unfolding content_id_of
part_of inline a bytes mime_type = inline_part mime_type (content_id_of a) bytes
part_of attachment a bytes mime_type = attachment_part mime_type a.filename bytes

-- What the module takes from base64, the file system, mime_guess and mail-builder.
pub record MimeLib : Type 0 where
  pub base64 : List ℕ → Str
  pub read_file : Str → Option (List ℕ)
  pub guess_mime : Str → Str
  -- the message that mail-builder writes: the context, the command without its Bcc, whether the
  -- body is HTML, and the loaded attachments
  pub write_multipart :
      BuildContext
      → (to cc : List Str) (subject body : Str) (in_reply_to : Option Str) (references : List Str)
      → Bool
      → List Part
      → Option (List ℕ)

abbrev pub header : String → Str → Str
header name value = codes name ++ value ++ crlf

abbrev pub optional_list : String → Str → List Str → Str
optional_list name sep [] = []
optional_list name sep (x ∷ xs) = header name (join sep (x ∷ xs))

abbrev pub optional : String → Option Str → Str
optional name none = []
optional name (some v) = header name v

-- `ends_with('\n')`
abbrev pub ends_with_newline : Str → Bool
ends_with_newline [] = false
ends_with_newline (c ∷ []) = c == 10
ends_with_newline (c ∷ d ∷ s) = ends_with_newline (d ∷ s)

module _ (lib : MimeLib) where
  unfoldable pub encode_subject_if_needed : Str → Str
  unfolding is_ascii into_bytes
  encode_subject_if_needed s =
      if is_ascii s then s else codes "=?utf-8?B?" ++ lib.base64 (into_bytes s) ++ codes "?="

  -- the message for the given answer of `looks_like_html`
  unfoldable pub text_message : Bool → BuildContext → OutboundCommand → Str
  unfolding encode_subject_if_needed join concat
  text_message html ctx cmd = concat (
      codes "MIME-Version: 1.0"
      ∷ crlf
      ∷ header "Content-Type: "
          (if html then codes "text/html; charset=utf-8" else codes "text/plain; charset=utf-8")
      ∷ codes "Content-Transfer-Encoding: 8bit"
      ∷ crlf
      ∷ header "Date: " ctx.date
      ∷ header "Message-ID: " ctx.message_id
      ∷ header "From: " ctx.from
      ∷ optional_list "To: " (codes ", ") cmd.to
      ∷ optional_list "Cc: " (codes ", ") cmd.cc
      ∷ header "Subject: " (encode_subject_if_needed cmd.subject)
      ∷ optional "In-Reply-To: " cmd.in_reply_to
      ∷ optional_list "References: " (codes " ") cmd.references
      ∷ crlf
      ∷ cmd.body
      ∷ (if ends_with_newline cmd.body then [] else crlf)
      ∷ [])

  unfoldable pub build_text_only : BuildContext → OutboundCommand → Option (List ℕ)
  unfolding looks_like_html text_message into_bytes
  build_text_only ctx cmd =
      Option.map (λ html. into_bytes (text_message html ctx cmd)) (looks_like_html cmd.body)

  -- the bytes of an attachment, `none` where the build fails
  unfoldable pub attachment_bytes : OutboundAttachmentRef → Option (List ℕ)
  attachment_bytes a = elim a.data_inline [
    | some b ↦ some b
    | none ↦ elim a.data_path [ [] ↦ none | c ∷ p ↦ lib.read_file (c ∷ p) ]
  ]

  unfoldable pub load_attachment : OutboundAttachmentRef → Option Part
  unfolding attachment_bytes part_of
  load_attachment a =
      Option.map
        (λ bytes.
          part_of a.disposition a bytes
            (elim a.mime_type [ some t ↦ t | none ↦ lib.guess_mime a.filename ]))
        (attachment_bytes a)

  unfoldable pub load_all : List OutboundAttachmentRef → Option (List Part)
  unfolding load_attachment
  load_all [] = some []
  load_all (a ∷ rest) = elim (load_attachment a) [
    | none ↦ none
    | some x ↦ elim (load_all rest) [ none ↦ none | some xs ↦ some (x ∷ xs) ]
  ]

  unfoldable pub build_multipart :
      BuildContext → OutboundCommand → Option (List Part) → Option Bool → Option (List ℕ)
  unfolding strip_brackets
  build_multipart ctx cmd none html = none
  build_multipart ctx cmd (some parts) none = none
  build_multipart ctx cmd (some parts) (some html) =
      lib.write_multipart (record ctx { message_id = strip_brackets ctx.message_id }) cmd.to cmd.cc
        cmd.subject cmd.body (Option.map strip_brackets cmd.in_reply_to)
        (map strip_brackets cmd.references) html parts

  -- `none` is a failed build or a panic; in neither is a message queued.
  unfoldable pub build_mime : BuildContext → OutboundCommand → Option (List ℕ)
  unfolding build_text_only load_all build_multipart looks_like_html
  build_mime ctx cmd = elim cmd.attachments [
    | [] ↦ build_text_only ctx cmd
    | a ∷ rest ↦ build_multipart ctx cmd (load_all (a ∷ rest)) (looks_like_html cmd.body)
  ]
