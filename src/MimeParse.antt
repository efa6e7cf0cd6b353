-- ===== src/MimeParse.antt =====
-- src/mime_parse.rs: `parse_eml`, which makes the payload of an inbound message and writes its
-- attachments. What the code reads of a message that mail-parser has parsed is the record Parsed.
pub mod Attach
pub mod Eml
pub mod Files
pub mod Intact
pub mod Outcome
pub mod Bounds
use nexo_plugin_email.Base.{
  ℕ, zero, suc, ◌+◌, ◌-◌, ◌^◌, ◌%◌, Str, Bool, true, false, not, ◌&&◌, ◌==◌, ◌≡◌, Option, none,
  some, List, [], ◌∷◌, ◌++◌, map, ltb, leb, if◌then◌else◌, codes, any, str_eq, eq_ignore_ascii_case,
  str_is_eq, to_ascii_lowercase, into_bytes, join, length, take, Map, lookup, insert, remove,
}
use nexo_plugin_email.Events.{
  AddressEntry, EmailMeta, EmailAttachment, AttachmentDisposition, inline, attachment,
}
use nexo_plugin_email.MimeText.{truncate_utf8}

-- `first`, `as_list` and `iter` are mail-parser's; an address may be of a group.
pub record Addr : Type 0 where
  pub address : Option Str
  pub name : Option Str

pub record Address : Type 0 where
  pub first : Option Addr
  pub as_list : Option (List Addr)
  pub iter : List Addr

pub data HeaderValue : Type 0 where
  header_text : Str → HeaderValue
  text_list : List Str → HeaderValue
  header_address : Address → HeaderValue
  other_value : HeaderValue

pub data PartType : Type 0 where
  binary inline_binary : List ℕ → PartType
  text html : Str → PartType
  other_type : PartType

pub record PartKind : Type 0 where
  pub ctype : Str
  pub subtype : Option Str
  pub name : Option Str

pub record Disposition : Type 0 where
  pub is_inline : Bool
  pub filename : Option Str

pub record Part : Type 0 where
  pub body : PartType
  pub content_type : Option PartKind
  pub content_disposition : Option Disposition
  pub content_id : Option Str

-- `date` is a Unix time, where one before 1970 is a zero: the code drops both.
pub record Parsed : Type 0 where
  pub from : Option Address
  pub to : Option Address
  pub cc : Option Address
  pub subject : Option Str
  pub message_id : Option Str
  pub in_reply_to : HeaderValue
  pub references : HeaderValue
  pub date : Option ℕ
  pub body_text : Option Str
  pub body_html : Option Str
  pub html_part : Option Part
  pub headers : List (Str × HeaderValue)
  pub attachments : List Part

-- mail-parser, html2text, and sha2 with hex, whose text has hexadecimal digits alone.
pub record MimeCrates : Type 0 where
  pub parse : List ℕ → Option Parsed
  pub from_read : Str → Option Str
  pub sha256_hex : List ℕ → Str
  pub sha256_hex-plain : (b : List ℕ) → any (λ c. c == b'.') (sha256_hex b) ≡ false

pub record ParseConfig : Type 0 where
  pub max_body_bytes : ℕ
  pub max_attachment_bytes : ℕ
  pub attachments_dir : Str
  pub fallback_internal_date : ℕ

pub record ParsedMessage : Type 0 where
  pub meta : EmailMeta
  pub attachments : List EmailAttachment

-- The files of the directory by their names.
abbrev pub Files : Type 0
Files = Map Str (List ℕ)

pub data FileWrite : Type 0 where
  put : Str → List ℕ → FileWrite
  rename : Str → Str → FileWrite

unfoldable pub write_file : FileWrite → Files → Files
unfolding insert lookup remove
write_file (put name bytes) files = insert name bytes files
write_file (rename from to) files = elim (lookup from files) [
  | none ↦ files
  | some bytes ↦ insert to bytes (remove from files)
]

unfoldable pub write_files : List FileWrite → Files → Files
unfolding write_file
write_files [] files = files
write_files (w ∷ ws) files = write_files ws (write_file w files)

-- The file system: whether the directory is there or can be made, how many of the three writes of a
-- file succeed, and the uuid of its temporary file.
pub record FileSystem : Type 0 where
  pub create_dir_all : Bool
  pub written : Str → ℕ
  pub uuid : Str → Str

abbrev pub temporary : FileSystem → Str → Str
temporary fs name = name ++ (codes ".tmp." ++ fs.uuid name)

abbrev pub file_writes : Str → Str → List ℕ → List FileWrite
file_writes tmp name bytes = put tmp [] ∷ put tmp bytes ∷ rename tmp name ∷ []

-- the files after it, and whether it succeeded
unfoldable pub write_dedup : FileSystem → Str → List ℕ → Files → Files × Bool
unfolding lookup write_files
write_dedup fs name bytes files =
    if not fs.create_dir_all then (files, false) else elim (lookup name files) [
      | some _ ↦ (files, true)
      | none ↦ (
        write_files (take (fs.written name) (file_writes (temporary fs name) name bytes)) files,
        leb 3 (fs.written name),
      )
    ]
