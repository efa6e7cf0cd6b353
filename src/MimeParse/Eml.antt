-- ===== src/MimeParse/Eml.antt =====
-- src/mime_parse.rs, `parse_eml`: addresses, headers and body, and the whole of it.
use nexo_plugin_email.Base.{
  ℕ, ltb, Str, Bool, false, Option, none, some, List, [], ◌∷◌, ◌++◌, map, if◌then◌else◌, codes, any,
  str_eq, str_is_eq, eq_ignore_ascii_case, to_ascii_lowercase, join, Map, insert,
}
use nexo_plugin_email.Events.{AddressEntry, EmailMeta}
use nexo_plugin_email.MimeParse.Attach.{Loop, parse_attachments}
use nexo_plugin_email.MimeParse.{
  Addr, Address, HeaderValue, header_text, text_list, header_address, other_value, Part, PartKind,
  Parsed, MimeCrates, ParseConfig, ParsedMessage, Files, FileSystem,
}
use nexo_plugin_email.MimeText.{truncate_utf8}

unfoldable pub or_empty : Option Str → Str
or_empty none = []
or_empty (some s) = s

unfoldable pub entry_of : Addr → AddressEntry
unfolding or_empty
entry_of addr = record { address = or_empty addr.address; name = addr.name }

unfoldable pub first_entry : Option Addr → AddressEntry
unfolding entry_of
first_entry none = record { address = []; name = none }
first_entry (some addr) = entry_of addr

unfoldable pub first_address_or_default : Option Address → AddressEntry
unfolding first_entry
first_address_or_default none = first_entry none
first_address_or_default (some a) = first_entry a.first

unfoldable pub listed : Option (List Addr) → List AddressEntry
unfolding entry_of
listed none = []
listed (some addrs) = map entry_of addrs

unfoldable pub address_list : Option Address → List AddressEntry
unfolding listed
address_list none = []
address_list (some a) = listed a.as_list

unfoldable pub header_first_string : HeaderValue → Option Str
header_first_string (header_text s) = some s
header_first_string (text_list []) = none
header_first_string (text_list (s ∷ l)) = some s
header_first_string (header_address a) = none
header_first_string other_value = none

unfoldable pub header_string_list : HeaderValue → List Str
header_string_list (header_text s) = s ∷ []
header_string_list (text_list l) = l
header_string_list (header_address a) = []
header_string_list other_value = []

unfoldable pub bracket_each : List Addr → List Str
bracket_each [] = []
bracket_each (a ∷ l) =
    let rest = bracket_each l in
    elim a.address [ none ↦ rest | some s ↦ (b'<' ∷ s ++ b'>' ∷ []) ∷ rest ]

unfoldable pub joined_parts : List Str → Option Str
unfolding join
joined_parts [] = none
joined_parts (p ∷ parts) = some (join (codes ", ") (p ∷ parts))

unfoldable pub header_value_to_string : HeaderValue → Option Str
unfolding join bracket_each joined_parts
header_value_to_string (header_text s) = some s
header_value_to_string (text_list l) = some (join (codes ", ") l)
header_value_to_string (header_address a) = joined_parts (bracket_each a.iter)
header_value_to_string other_value = none

abbrev pub headers_extra_whitelist : List Str
headers_extra_whitelist =
    codes "auto-submitted"
    ∷ codes "auto-reply"
    ∷ codes "list-id"
    ∷ codes "list-unsubscribe"
    ∷ codes "list-unsubscribe-post"
    ∷ codes "precedence"
    ∷ codes "x-auto-response-suppress"
    ∷ codes "x-spam-flag"
    ∷ codes "x-spam-status"
    ∷ codes "feedback-id"
    ∷ codes "x-mailer"
    ∷ codes "x-campaignid"
    ∷ codes "x-mailchimp-campaign"
    ∷ []

unfoldable pub is_whitelisted : Str → Bool
unfolding any str_eq
is_whitelisted name = any (str_eq name) headers_extra_whitelist

unfoldable pub add_header : Str → Option Str → Map Str Str → Map Str Str
unfolding insert
add_header name none extra = extra
add_header name (some text) extra = insert name text extra

-- The loop over the headers, with what it has so far; a later header replaces an earlier one.
unfoldable pub lift_headers : List (Str × HeaderValue) → Map Str Str → Map Str Str
unfolding add_header to_ascii_lowercase is_whitelisted header_value_to_string
lift_headers [] extra = extra
lift_headers ((name, value) ∷ headers) extra = lift_headers headers (
    if is_whitelisted (to_ascii_lowercase name)
    then add_header (to_ascii_lowercase name) (header_value_to_string value) extra
    else extra)

unfoldable pub date_of : ℕ → Option ℕ → ℕ
date_of fallback none = fallback
date_of fallback (some t) = if ltb 0 t then t else fallback

unfoldable pub is_html : Option Str → Bool
unfolding to_ascii_lowercase str_eq
is_html none = false
is_html (some s) = eq_ignore_ascii_case s (codes "html")

unfoldable pub kind_is_html : Option PartKind → Bool
unfolding is_html
kind_is_html none = false
kind_is_html (some ct) = is_html ct.subtype

unfoldable pub has_html_part : Option Part → Bool
unfolding kind_is_html
has_html_part none = false
has_html_part (some p) = kind_is_html p.content_type

module _ (crates : MimeCrates) (cfg : ParseConfig) where
  unfoldable pub html_to_text : Str → Str
  html_to_text html = elim (crates.from_read html) [ some text ↦ text | none ↦ html ]

  unfoldable pub body_text_raw : Option Str → Option Str → Str
  unfolding html_to_text
  body_text_raw (some text) html = text
  body_text_raw none none = []
  body_text_raw none (some html) = html_to_text html

  unfoldable pub meta_of : Parsed → EmailMeta
  unfolding body_text_raw has_html_part date_of header_first_string header_string_list
      first_address_or_default address_list or_empty lift_headers truncate_utf8
  meta_of m =
      let (body_text, body_truncated) =
        truncate_utf8 (body_text_raw m.body_text m.body_html) cfg.max_body_bytes in
      record {
        message_id = m.message_id;
        in_reply_to = header_first_string m.in_reply_to;
        references = header_string_list m.references;
        from = first_address_or_default m.from;
        to = address_list m.to;
        cc = address_list m.cc;
        subject = or_empty m.subject;
        body_text = body_text;
        body_html = if has_html_part m.html_part then m.body_html else none;
        date = date_of cfg.fallback_internal_date m.date;
        headers_extra = lift_headers m.headers [];
        body_truncated = body_truncated;
      }

  unfoldable pub with_meta : EmailMeta → Loop crates cfg → Files × ℕ × Option ParsedMessage
  with_meta meta (files, errors, none) = (files, errors, none)
  with_meta meta (files, errors, some found) =
      (files, errors, some (record { meta = meta; attachments = found }))

  -- the files and the count of write errors after it, and its answer
  unfoldable pub parse_eml : FileSystem → List ℕ → Files → ℕ → Files × ℕ × Option ParsedMessage
  unfolding parse_attachments meta_of with_meta
  parse_eml fs raw files errors = elim (crates.parse raw) [
    | none ↦ (files, errors, none)
    | some m ↦ with_meta (meta_of m) (parse_attachments crates cfg fs m.attachments files errors)
  ]
