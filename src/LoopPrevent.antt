-- ===== src/LoopPrevent.antt =====
-- src/loop_prevent.rs: which inbound mail is not published, because it would feed a loop.
pub mod Skip
use nexo_plugin_email.Base.{
  Str, String, Bool, true, false, not, ◌&&◌, ◌||◌, Option, none, some, List, [], ◌∷◌, codes,
  if◌then◌else◌, str_eq, any, contains, trim, trim_start, trim_end, is_whitespace,
  to_ascii_lowercase, eq_ignore_ascii_case, lookup, str_is_eq, Map,
}
use nexo_plugin_email.Events.{EmailMeta}
use nexo_plugin_email.Threading.{is_self_thread}

-- `LoopPreventionCfg` of src/config.rs
pub record LoopPreventionCfg : Type 0 where
  pub auto_submitted : Bool
  pub list_headers : Bool
  pub self_from : Bool
  pub spam_flag : Bool
  pub feedback_id : Bool
  pub esp_mailer : Bool

abbrev pub default_cfg : LoopPreventionCfg
default_cfg = record {
  auto_submitted = true;
  list_headers = true;
  self_from = true;
  spam_flag = true;
  feedback_id = true;
  esp_mailer = true;
}

pub data SkipReason : Type 0 where
  auto_submitted list_mail precedence_bulk self_from spam_flag feedback_id esp_mailer dsn_inbound :
      SkipReason

unfoldable pub metric_label : SkipReason → Str
metric_label auto_submitted = codes "auto_submitted"
metric_label list_mail = codes "list_mail"
metric_label precedence_bulk = codes "precedence_bulk"
metric_label self_from = codes "self_from"
metric_label spam_flag = codes "spam_flag"
metric_label feedback_id = codes "feedback_id"
metric_label esp_mailer = codes "esp_mailer"
metric_label dsn_inbound = codes "dsn_inbound"

abbrev pub esp_mailer_signatures : List Str
esp_mailer_signatures =
    codes "mailchimp"
    ∷ codes "sendgrid"
    ∷ codes "mailgun"
    ∷ codes "marketo"
    ∷ codes "constant contact"
    ∷ codes "constantcontact"
    ∷ codes "sendinblue"
    ∷ codes "brevo"
    ∷ codes "campaign monitor"
    ∷ codes "campaignmonitor"
    ∷ codes "klaviyo"
    ∷ codes "hubspot"
    ∷ codes "amazonses"
    ∷ codes "amazon ses"
    ∷ codes "mandrill"
    ∷ codes "postmark"
    ∷ codes "elasticemail"
    ∷ codes "elastic email"
    ∷ codes "getresponse"
    ∷ codes "activecampaign"
    ∷ codes "doppleremailer"
    ∷ codes "mailerlite"
    ∷ codes "mailjet"
    ∷ codes "convertkit"
    ∷ codes "drip"
    ∷ codes "omnisend"
    ∷ codes "moosend"
    ∷ []

-- `headers_extra.get(name)` and a test of its value
unfoldable pub header_is : (Str → Bool) → String → EmailMeta → Bool
unfolding lookup str_eq
header_is test name meta = elim (lookup (codes name) meta.headers_extra) [
  | none ↦ false
  | some v ↦ test v
]

-- `headers_extra.contains_key(name)`
abbrev pub has_header : String → EmailMeta → Bool
has_header name meta = header_is (λ _. true) name meta

unfoldable pub is_automatic : Str → Bool
unfolding trim_end trim_start is_whitespace str_eq to_ascii_lowercase
is_automatic v = not (eq_ignore_ascii_case (trim v) (codes "no"))

unfoldable pub is_one_of : List Str → Str → Bool
unfolding any trim_end trim_start is_whitespace str_eq to_ascii_lowercase
is_one_of words v = any (str_eq (to_ascii_lowercase (trim v))) words

abbrev pub bulk_words : List Str
bulk_words = codes "bulk" ∷ codes "junk" ∷ codes "list" ∷ []

abbrev pub spam_words : List Str
spam_words = codes "yes" ∷ codes "true" ∷ codes "y" ∷ []

unfoldable pub is_esp_mailer : Str → Bool
unfolding any to_ascii_lowercase contains
is_esp_mailer mailer = any (λ sig. contains sig (to_ascii_lowercase mailer)) esp_mailer_signatures

-- the tests of the six rules, without the switches
abbrev pub is_list_mail : EmailMeta → Bool
is_list_mail meta = has_header "list-id" meta || has_header "list-unsubscribe" meta

unfoldable pub should_skip : EmailMeta → Str → LoopPreventionCfg → Option SkipReason
unfolding header_is is_automatic is_one_of is_esp_mailer is_self_thread
should_skip meta account_address cfg =
    if cfg.auto_submitted && header_is is_automatic "auto-submitted" meta
    then some auto_submitted
    else if cfg.list_headers && is_list_mail meta
    then some list_mail
    else if cfg.list_headers && header_is (is_one_of bulk_words) "precedence" meta
    then some precedence_bulk
    else if cfg.spam_flag && header_is (is_one_of spam_words) "x-spam-flag" meta
    then some spam_flag
    else if cfg.feedback_id && has_header "feedback-id" meta
    then some feedback_id
    else if cfg.esp_mailer && header_is is_esp_mailer "x-mailer" meta
    then some esp_mailer
    else if cfg.self_from && is_self_thread meta account_address
    then some self_from
    else none
