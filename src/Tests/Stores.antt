-- ===== src/Tests/Stores.antt =====
-- Concrete cursors, attachments, bounces, reports and mailboxes, and the theorems on them.
use nexo_plugin_email.Base.{
  true, false, none, some, [], ◌∷◌, ◌≡◌, refl, arith, codes, if◌then◌else◌, lookup, str_is_eq, ◌==◌,
  ℕ,
}
use nexo_plugin_email.Events.{EmailMeta}
use nexo_plugin_email.CursorStore.{CursorTable}
use nexo_plugin_email.AttachmentStore.{AttachmentTable, gc}
use nexo_plugin_email.AttachmentStore.Sweep.{IsSwept, HasDistinctKeys, cutoff_of, gc_lem}
use nexo_plugin_email.Dsn.{
  BounceEvent, unknown, ParsedBounce, Message, MailParser, empty_bounce,
  extract_delivery_status_fields,
}
use nexo_plugin_email.Dsn.Fields.{KeepsFields, extract_delivery_status_fields_lem}
use nexo_plugin_email.BounceStore
use nexo_plugin_email.BounceStore.{BounceTable, record_bounce, prune, u64_saturated}
use nexo_plugin_email.BounceStore.Record.{is_about, next_status, record_bounce_lem}
use nexo_plugin_email.Inbound.{Mailbox, InboundCfg, InboundWorker, drain_pending}
use nexo_plugin_email.Inbound.Drain.{IsRun, drain_pending_lem}
use nexo_plugin_email.LoopPrevent.{default_cfg}

abbrev cursors : CursorTable
cursors = (codes "ops", record { uid_validity = 7; last_uid = 40; updated_at = 3 }) ∷ []

abbrev files : AttachmentTable
files =
    (codes "aa", record { first_seen = 1; last_seen = 2; count = 3 })
    ∷ (codes "bb", record { first_seen = 1; last_seen = 90; count = 1 })
    ∷ []

files-HasDistinctKeys : HasDistinctKeys files
files-HasDistinctKeys = (ground arith, (ground arith, tt))

gc_lem_example :
    IsSwept
      (cutoff_of 50 100)
      (codes "bb")
      (gc (λ _. true) 50 100 files).files
      (gc (λ _. true) 50 100 files).table
      (lookup (codes "bb") files)
gc_lem_example = gc_lem (λ _. true) 50 100 files (codes "bb") files-HasDistinctKeys

abbrev bounce : BounceEvent
bounce = record {
  account_id = codes "ops@x.com";
  instance_id = codes "ops";
  original_message_id = none;
  recipient = some (codes " Ana@Y.com");
  status_code = some (codes "5.1.1");
  action = some (codes "failed");
  reason = none;
  classification = unknown;
}

abbrev pub bounces : BounceTable
bounces =
    (
      (codes "ops", codes "ana@y.com"),
      record {
        classification = codes "permanent";
        status_code = none;
        action = none;
        last_seen = 5;
        count = 2;
      },
    )
    ∷ []

record_bounce_lem_example :
    BounceStore.get (codes "ops") (codes "ANA@y.com") (record_bounce bounce 9 bounces) ≡ (
      if is_about bounce (codes "ops") (codes "ANA@y.com")
      then some (
          next_status bounce 9
            (codes "ops")
            (codes "ANA@y.com")
            (BounceStore.get (codes "ops") (codes "ANA@y.com") bounces))
      else BounceStore.get (codes "ops") (codes "ANA@y.com") bounces)
record_bounce_lem_example = record_bounce_lem bounce 9 (codes "ops") (codes "ANA@y.com") bounces

abbrev half_read : ParsedBounce
half_read = record empty_bounce { action = some (codes "failed") }

extract_delivery_status_fields_lem_example :
    KeepsFields half_read
      (extract_delivery_status_fields (codes "Action: delayed\nStatus: 4.2.0\n") half_read)
extract_delivery_status_fields_lem_example =
    extract_delivery_status_fields_lem (codes "Action: delayed\nStatus: 4.2.0\n") half_read

-- A parser that finds no content type and no parts.
abbrev plain_message : Message
plain_message = record { content_type = none; parts = [] }

abbrev plain_parser : MailParser
plain_parser = record {
  parse = λ _. some plain_message;
  inner_message_id = λ _. none;
  from_utf8_lossy = λ b. b;
}

abbrev daemon_meta : EmailMeta
daemon_meta = record {
  message_id = none;
  in_reply_to = none;
  references = [];
  from = record { address = codes "MAILER-DAEMON@mta.x.com"; name = none };
  to = [];
  cc = [];
  subject = [];
  body_text = [];
  body_html = none;
  date = 0;
  headers_extra = [];
  body_truncated = false;
}

-- A server with three messages, whose broker refuses the third.
abbrev box : Mailbox
box = record {
  search_since = λ _. some (41 ∷ 42 ∷ 43 ∷ []);
  fetch_uid = λ uid. some (record { uid = uid; internal_date = 0; raw_bytes = [] });
  parse_eml = λ _. none;
  publish = λ e. if e.uid == 43 then false else true;
  records = λ e. true;
  publish_bounce = λ e. false;
  now = λ uid. uid;
}

abbrev cfg : InboundCfg
cfg = record {
  address = codes "ops@x.com";
  instance_id = codes "ops";
  bootstrap_limit = none;
  loop_prevention = default_cfg;
}

abbrev worker : InboundWorker
worker = record {
  cursor = cursors;
  attachments = some files;
  bounces = some bounces;
  published = [];
  bounce_events = [];
  loop_skipped = [];
  messages_seen_total = 0;
  parse_errors = 0;
}

drain_pending_lem_example :
    IsRun box plain_parser cfg
      (41 ∷ 42 ∷ 43 ∷ [])
      40
      worker
      (drain_pending box plain_parser cfg 40 worker)
drain_pending_lem_example =
    drain_pending_lem box plain_parser cfg 40 (41 ∷ 42 ∷ 43 ∷ []) worker refl

abbrev seen : ℕ
seen = 7
