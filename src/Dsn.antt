-- ===== src/Dsn.antt =====
-- src/dsn.rs: the delivery reports. mail-parser and the lossy decoding of UTF-8 are parameters.
pub mod Report
pub mod Fields
use mathlib.Core.List.{reverse}
use nexo_plugin_email.Base.{
  ℕ, Str, Bool, true, false, not, ◌&&◌, ◌||◌, Option, none, some, List, [], ◌∷◌, ◌++◌, ◌==◌, codes,
  if◌then◌else◌, any, str_eq, ends_with, split_once, rsplit_once, trim, trim_start, trim_end,
  is_whitespace, to_ascii_lowercase, eq_ignore_ascii_case, starts_with, drop, String, length,
}
use nexo_plugin_email.Events.{EmailMeta}

pub data BounceClassification : Type 0 where
  permanent transient unknown : BounceClassification

-- of the first character of the trimmed code
unfoldable pub from_first : Str → BounceClassification
from_first [] = unknown
from_first (c ∷ s) = if c == b'5' then permanent else if c == b'4' then transient else unknown

unfoldable pub from_status_code : Option Str → BounceClassification
unfolding from_first trim_end trim_start is_whitespace
from_status_code none = unknown
from_status_code (some s) = from_first (trim s)

pub record ParsedBounce : Type 0 where
  pub original_message_id : Option Str
  pub recipient : Option Str
  pub status_code : Option Str
  pub action : Option Str
  pub reason : Option Str
  pub classification : BounceClassification

abbrev pub empty_bounce : ParsedBounce
empty_bounce = record {
  original_message_id = none;
  recipient = none;
  status_code = none;
  action = none;
  reason = none;
  classification = unknown;
}

pub record BounceEvent : Type 0 where
  pub account_id : Str
  pub instance_id : Str
  pub original_message_id : Option Str
  pub recipient : Option Str
  pub status_code : Option Str
  pub action : Option Str
  pub reason : Option Str
  pub classification : BounceClassification

-- What the module sees of a message that mail-parser has parsed.
pub record ContentType : Type 0 where
  pub ctype : Str
  pub subtype : Option Str
  pub report_type : Option Str

pub record MessagePart : Type 0 where
  pub content_type : Option ContentType
  pub contents : List ℕ

pub record Message : Type 0 where
  pub content_type : Option ContentType
  pub parts : List MessagePart

pub record MailParser : Type 0 where
  pub parse : List ℕ → Option Message
  pub inner_message_id : List ℕ → Option Str
  pub from_utf8_lossy : List ℕ → Str

-- the headers of a report that are kept
pub data DsnField : Type 0 where
  action status final_recipient diagnostic_code : DsnField

-- The part of a line up to its end is gathered backwards; `\n` and `\r\n` end a line.
unfoldable pub finished_line : Str → Str
finished_line [] = []
finished_line (c ∷ before) = if c == 13 then reverse before else reverse (c ∷ before)

unfoldable pub lines_from : Str → Str → List Str
unfolding finished_line
lines_from [] [] = []
lines_from (c ∷ before) [] = reverse (c ∷ before) ∷ []
lines_from before (c ∷ s) =
    if c == 10 then finished_line before ∷ lines_from [] s else lines_from (c ∷ before) s

-- str::lines
unfoldable pub lines : Str → List Str
unfolding lines_from
lines s = lines_from [] s

abbrev pub set_action : Str → Option Str → ParsedBounce → ParsedBounce
set_action v none out = record out { action = some v }
set_action v (some _) out = out

abbrev pub set_status : Str → Option Str → ParsedBounce → ParsedBounce
set_status v none out = record out { status_code = some v }
set_status v (some _) out = out

-- without the `addr-type;`
abbrev pub recipient_of : Str → Option (Str × Str) → Str
recipient_of v none = v
recipient_of v (some (addr_type, rest)) = trim rest

abbrev pub set_recipient : Str → Option Str → ParsedBounce → ParsedBounce
set_recipient addr none out = record out { recipient = some addr }
set_recipient addr (some _) out = out

abbrev pub set_reason : Str → Option Str → ParsedBounce → ParsedBounce
set_reason v none out = record out { reason = some v }
set_reason v (some _) out = out

-- a value that is not empty, for its field
unfoldable pub flush_value : DsnField → Str → ParsedBounce → ParsedBounce
unfolding trim_end trim_start is_whitespace split_once
flush_value f [] out = out
flush_value action (c ∷ v) out = set_action (c ∷ v) out.action out
flush_value status (c ∷ v) out = set_status (c ∷ v) out.status_code out
flush_value final_recipient (c ∷ v) out =
    set_recipient (recipient_of (c ∷ v) (split_once b';' (c ∷ v))) out.recipient out
flush_value diagnostic_code (c ∷ v) out = set_reason (c ∷ v) out.reason out

unfoldable pub flush_dsn_field : Option DsnField → Str → ParsedBounce → ParsedBounce
unfolding flush_value trim_end trim_start is_whitespace
flush_dsn_field none buf out = out
flush_dsn_field (some key) buf out = flush_value key (trim buf) out

unfoldable pub key_of : Str → ParsedBounce → Option DsnField
unfolding str_eq
key_of n out =
    if str_eq n (codes "action")
    then some action
    else if str_eq n (codes "status")
    then some status
    else if str_eq n (codes "final-recipient")
    then some final_recipient
    else if str_eq n (codes "original-recipient")
    then elim (out.recipient) [ none ↦ some final_recipient | some _ ↦ none ]
    else if str_eq n (codes "diagnostic-code")
    then some diagnostic_code
    else none

-- What the loop over the lines carries.
pub record DsnScan : Type 0 where
  pub current : Option DsnField
  pub buf : Str
  pub out : ParsedBounce

unfoldable pub is_folded : Str → Bool
is_folded [] = false
is_folded (c ∷ s) = c == 32 || c == 9

-- a new header, after the flush of the one before
unfoldable pub start_field : Option (Str × Str) → ParsedBounce → DsnScan
unfolding key_of trim_end trim_start is_whitespace to_ascii_lowercase
start_field none out = record { current = none; buf = []; out = out }
start_field (some (name, value)) out = record {
  current = key_of (to_ascii_lowercase (trim name)) out;
  buf = trim value;
  out = out;
}

unfoldable pub scan_line : Str → DsnScan → DsnScan
unfolding is_folded start_field flush_dsn_field split_once trim_end trim_start is_whitespace
scan_line raw_line s =
    if is_folded raw_line
    then record s { buf = s.buf ++ 32 ∷ trim raw_line }
    else start_field (split_once b':' raw_line) (flush_dsn_field s.current s.buf s.out)

unfoldable pub scan_lines : List Str → DsnScan → DsnScan
unfolding scan_line
scan_lines [] s = s
scan_lines (l ∷ ls) s = scan_lines ls (scan_line l s)

unfoldable pub finish_scan : DsnScan → ParsedBounce
unfolding flush_dsn_field
finish_scan s = flush_dsn_field s.current s.buf s.out

unfoldable pub extract_delivery_status_fields : Str → ParsedBounce → ParsedBounce
unfolding scan_lines finish_scan lines
extract_delivery_status_fields body out =
    finish_scan (scan_lines (lines body) (record { current = none; buf = []; out = out }))

-- `strip_prefix("Message-ID:")`, then `strip_prefix("Message-Id:")`, on the lines of the headers
abbrev header_value : String → Str → Option Str
header_value name line =
    if starts_with (codes name) line
    then elim (trim (drop (length (codes name)) line)) [ [] ↦ none | c ∷ v ↦ some (c ∷ v) ]
    else none

unfoldable pub find_message_id : List Str → Option Str
unfolding starts_with trim_end trim_start is_whitespace
find_message_id [] = none
find_message_id (line ∷ rest) = elim (header_value "Message-ID:" line) [
  | some v ↦ some v
  | none ↦ elim (header_value "Message-Id:" line) [ some v ↦ some v | none ↦ find_message_id rest ]
]

abbrev set_original : Option Str → ParsedBounce → ParsedBounce
set_original none b = b
set_original (some v) b = record b { original_message_id = some v }

abbrev text_of : Option Str → Str
text_of none = []
text_of (some s) = s

abbrev is_text : String → Str → Bool
is_text word s = str_eq (to_ascii_lowercase s) (codes word)

abbrev option_is_text : String → Option Str → Bool
option_is_text word none = false
option_is_text word (some s) = eq_ignore_ascii_case s (codes word)

abbrev is_type : String → String → ContentType → Bool
is_type ctype subtype ct = is_text ctype ct.ctype && is_text subtype (text_of ct.subtype)

-- the DSN marker of a content type
unfoldable pub is_dsn : Option ContentType → Bool
unfolding str_eq to_ascii_lowercase
is_dsn none = false
is_dsn (some ct) =
    eq_ignore_ascii_case ct.ctype (codes "multipart")
    && option_is_text "report" ct.subtype
    && option_is_text "delivery-status" ct.report_type

abbrev pub mailer_daemon_localparts : List Str
mailer_daemon_localparts =
    codes "mailer-daemon" ∷ codes "mail-daemon" ∷ codes "mail.daemon" ∷ codes "postmaster" ∷ []

unfoldable pub mail_domain_of : Str → Option Str
unfolding rsplit_once trim_end trim_start is_whitespace to_ascii_lowercase
mail_domain_of address = elim (rsplit_once b'@' address) [
  | none ↦ none
  | some (l, d) ↦ some (to_ascii_lowercase (trim d))
]

unfoldable pub is_aligned : Option Str → Option Str → Bool
unfolding str_eq ends_with
is_aligned (some (f ∷ fs)) (some (a ∷ at)) =
    str_eq (f ∷ fs) (a ∷ at)
    || ends_with (b'.' ∷ a ∷ at) (f ∷ fs)
    || ends_with (b'.' ∷ f ∷ fs) (a ∷ at)
is_aligned _ _ = false

unfoldable pub is_daemon : Str → Bool
unfolding split_once trim_end trim_start is_whitespace to_ascii_lowercase any str_eq
is_daemon address = elim (split_once b'@' address) [
  | none ↦ false
  | some (l, d) ↦
      any (λ m. eq_ignore_ascii_case (to_ascii_lowercase (trim l)) m) mailer_daemon_localparts
]

-- the fallback for a sender that is a mail system of the account's domain
unfoldable pub is_heuristic : EmailMeta → Str → Bool
unfolding is_daemon is_aligned mail_domain_of
is_heuristic meta account_address =
    is_daemon meta.from.address
    && is_aligned (mail_domain_of meta.from.address) (mail_domain_of account_address)

module _ (parser : MailParser) where
  -- one part that has a content type
  unfoldable pub read_typed : ContentType → List ℕ → ParsedBounce → ParsedBounce
  unfolding extract_delivery_status_fields find_message_id lines str_eq to_ascii_lowercase
  read_typed ct contents b =
      if is_type "message" "delivery-status" ct
      then extract_delivery_status_fields (parser.from_utf8_lossy contents) b
      else if is_type "message" "rfc822" ct
      then elim (parser.inner_message_id contents) [
        | none ↦ b
        | some mid ↦ record b { original_message_id = some (b'<' ∷ mid ++ b'>' ∷ []) }
      ]
      else if is_type "text" "rfc822-headers" ct
      then set_original (find_message_id (lines (parser.from_utf8_lossy contents))) b
      else b

  unfoldable pub read_part : MessagePart → ParsedBounce → ParsedBounce
  unfolding read_typed
  read_part part b = elim (part.content_type) [ none ↦ b | some ct ↦ read_typed ct part.contents b ]

  unfoldable pub read_parts : List MessagePart → ParsedBounce → ParsedBounce
  unfolding read_part
  read_parts [] b = b
  read_parts (part ∷ parts) b = read_parts parts (read_part part b)

  unfoldable pub classified : ParsedBounce → ParsedBounce
  unfolding from_status_code
  classified b = record b { classification = from_status_code b.status_code }

  -- from the parsed message on
  unfoldable pub bounce_of : Bool → Message → Option ParsedBounce
  unfolding read_parts classified
  bounce_of false m = none
  bounce_of true m = some (classified (read_parts m.parts empty_bounce))

  unfoldable pub parse_bounce : EmailMeta → List ℕ → Str → Option ParsedBounce
  unfolding bounce_of is_dsn is_heuristic
  parse_bounce meta raw_bytes account_address = elim (parser.parse raw_bytes) [
    | none ↦ none
    | some m ↦ bounce_of (is_dsn m.content_type || is_heuristic meta account_address) m
  ]
