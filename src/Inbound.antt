-- ===== src/Inbound.antt =====
-- src/inbound.rs: the worker that fetches the mail of one account. The IMAP server, the parser of
-- messages, the broker, the answers of the bounce store and the clock are the record Mailbox. An SQL
-- error of the cursor store or of the attachment store is not modelled.
pub mod Drain
pub mod Bootstrap
pub mod Loop
use nexo_plugin_email.Base.{
  ℕ, ◌+◌, ◌-◌, ◌*◌, ◌^◌, ◌%◌, min, Str, Bool, true, false, not, ◌&&◌, Option, none, some, List, [],
  ◌∷◌, ◌++◌, ◌==◌, ltb, if◌then◌else◌, codes, str_eq,
}
use nexo_plugin_email.Events.{EmailMeta, EmailAttachment, InboundEvent}
use nexo_plugin_email.Threading.{resolve_thread_root}
use nexo_plugin_email.LoopPrevent.{LoopPreventionCfg, SkipReason, metric_label, should_skip}
use nexo_plugin_email.Dsn.{ParsedBounce, BounceEvent, MailParser, parse_bounce}
use nexo_plugin_email.CursorStore.{UidCursor, CursorTable, get, set, reset_if_validity_changed}
use nexo_plugin_email.AttachmentStore.{AttachmentTable, record_attachment}
use nexo_plugin_email.BounceStore.{BounceTable, record_bounce}

-- `jittered x` is what the drawn jitter makes of `x` milliseconds.
unfoldable pub jittered_backoff : (jittered : ℕ → ℕ) → ℕ → ℕ
jittered_backoff jittered attempt =
    jittered (min (min (1000 * 2 ^ min attempt 6) (2 ^ 64 - 1)) 60000)

pub record FetchedMessage : Type 0 where
  pub uid : ℕ
  pub internal_date : ℕ
  pub raw_bytes : List ℕ

pub record ParsedMail : Type 0 where
  pub meta : EmailMeta
  pub attachments : List EmailAttachment

-- `none` and `false` are errors; `now uid` is the clock while the message is handled.
pub record Mailbox : Type 0 where
  pub search_since : ℕ → Option (List ℕ)
  pub fetch_uid : ℕ → Option FetchedMessage
  pub parse_eml : FetchedMessage → Option ParsedMail
  pub publish : InboundEvent → Bool
  pub records : BounceEvent → Bool
  pub publish_bounce : BounceEvent → Bool
  pub now : ℕ → ℕ

-- The parts of an account's configuration that the loop reads.
pub record InboundCfg : Type 0 where
  pub address : Str
  pub instance_id : Str
  pub bootstrap_limit : Option ℕ
  pub loop_prevention : LoopPreventionCfg

-- The stores, what went to the broker, oldest first, the labels of the skipped messages, and two
-- counters.
pub record InboundWorker : Type 0 where
  pub cursor : CursorTable
  pub attachments : Option AttachmentTable
  pub bounces : Option BounceTable
  pub published : List InboundEvent
  pub bounce_events : List BounceEvent
  pub loop_skipped : List Str
  pub messages_seen_total : ℕ
  pub parse_errors : ℕ

-- What a message comes to.
pub data Verdict : Type 0 where
  bounced : BounceEvent → Verdict
  skipped : Str → Verdict
  delivered : InboundEvent → Verdict

module _ (box : Mailbox) (parser : MailParser) (cfg : InboundCfg) where
  abbrev pub event_of :
      FetchedMessage → Option EmailMeta → List EmailAttachment → Option Str → InboundEvent
  event_of msg meta attachments root = record {
    account_id = cfg.address;
    instance_id = cfg.instance_id;
    uid = msg.uid;
    internal_date = msg.internal_date;
    raw_bytes = msg.raw_bytes;
    meta = meta;
    attachments = attachments;
    thread_root_id = root;
  }

  abbrev pub bounce_event_of : ParsedBounce → BounceEvent
  bounce_event_of parsed = record {
    account_id = cfg.address;
    instance_id = cfg.instance_id;
    original_message_id = parsed.original_message_id;
    recipient = parsed.recipient;
    status_code = parsed.status_code;
    action = parsed.action;
    reason = parsed.reason;
    classification = parsed.classification;
  }

  -- the bounce, else the reason to skip, else the event
  unfoldable pub judge : Option ParsedBounce → Option SkipReason → InboundEvent → Verdict
  unfolding metric_label
  judge (some parsed) reason event = bounced (bounce_event_of parsed)
  judge none (some reason) event = skipped (metric_label reason)
  judge none none event = delivered event

  -- from the answer of `parse_eml` on
  unfoldable pub verdict_on : FetchedMessage → Option ParsedMail → Verdict
  unfolding judge parse_bounce should_skip resolve_thread_root
  verdict_on msg none = delivered (event_of msg none [] none)
  verdict_on msg (some p) =
      judge (parse_bounce parser p.meta msg.raw_bytes cfg.address)
        (should_skip p.meta cfg.address cfg.loop_prevention)
        (event_of msg (some p.meta) p.attachments
          (some (resolve_thread_root p.meta msg.uid cfg.address)))

  unfoldable pub verdict_of : FetchedMessage → Verdict
  unfolding verdict_on
  verdict_of msg = verdict_on msg (box.parse_eml msg)

  unfoldable pub record_all : ℕ → List EmailAttachment → AttachmentTable → AttachmentTable
  unfolding record_attachment
  record_all now [] t = t
  record_all now (a ∷ rest) t = record_all now rest (record_attachment a.sha256 now t)

  -- the references to the attachments, or the count of a message that does not parse
  unfoldable pub note_parse : ℕ → Option ParsedMail → InboundWorker → InboundWorker
  unfolding record_all
  note_parse now none w = record w { parse_errors = (w.parse_errors + 1) % 2 ^ 64 }
  note_parse now (some p) w = record w {
    attachments = elim (w.attachments) [
      | none ↦ none
      | some t ↦ some (record_all now p.attachments t)
    ];
  }

  -- Whether the message is dealt with, and the state. A bounce that the store or the broker refuses
  -- is dealt with too.
  unfoldable pub settle : ℕ → Verdict → InboundWorker → Bool × InboundWorker
  unfolding record_bounce
  settle now (bounced event) w = (
    true,
    record w {
      bounces = elim (w.bounces) [
        | none ↦ none
        | some t ↦ some (if box.records event then record_bounce event now t else t)
      ];
      bounce_events =
          if box.publish_bounce event then w.bounce_events ++ event ∷ [] else w.bounce_events;
      loop_skipped = w.loop_skipped ++ codes "dsn_inbound" ∷ [];
    },
  )
  settle now (skipped label) w = (true, record w { loop_skipped = w.loop_skipped ++ label ∷ [] })
  settle now (delivered event) w =
      if box.publish event
      then (
        true,
        record w {
          published = w.published ++ event ∷ [];
          messages_seen_total = min (w.messages_seen_total + 1) (2 ^ 64 - 1);
        },
      )
      else (false, w)

  -- the update of the cursor after a message
  unfoldable pub advance : ℕ → Option UidCursor → InboundWorker → InboundWorker
  unfolding set
  advance uid none w = w
  advance uid (some existing) w = record w {
    cursor =
        set cfg.instance_id
          (record {
            uid_validity = existing.uid_validity;
            last_uid = uid;
            updated_at = box.now uid;
          })
          w.cursor;
  }

  unfoldable pub handle_message : ℕ → Option FetchedMessage → InboundWorker → Bool × InboundWorker
  unfolding settle verdict_of note_parse
  handle_message uid none w = (false, w)
  handle_message uid (some msg) w =
      settle (box.now uid) (verdict_of msg) (note_parse (box.now uid) (box.parse_eml msg) w)

  -- the loop over the uids: the highest one, or `none` after an error
  unfoldable pub drain_uids : List ℕ → ℕ → InboundWorker → Option ℕ × InboundWorker
  unfolding handle_message advance get
  drain_uids [] highest w = (some highest, w)
  drain_uids (uid ∷ uids) highest w =
      let handled = handle_message uid (box.fetch_uid uid) w in
      let rest =
        drain_uids uids uid (advance uid (get cfg.instance_id handled.1.cursor) handled.1) in
      if handled.0 then rest else (none, handled.1)

  unfoldable pub drain_pending : ℕ → InboundWorker → Option ℕ × InboundWorker
  unfolding drain_uids
  drain_pending last_uid w = elim (box.search_since last_uid) [
    | none ↦ (none, w)
    | some uids ↦ drain_uids uids last_uid w
  ]

  -- where a fresh cursor begins, for a configured limit
  unfoldable pub bootstrap_uid : ℕ → ℕ → Option ℕ → ℕ
  bootstrap_uid last_uid uid_next none = last_uid
  bootstrap_uid last_uid uid_next (some limit) =
      if last_uid == 0 && ltb (limit + 1) uid_next then uid_next - (limit + 1) else last_uid

  -- the cursor and the state before the first fetch of a connection
  unfoldable pub persist_bootstrap : ℕ → ℕ → UidCursor → InboundWorker → ℕ × InboundWorker
  unfolding bootstrap_uid set
  persist_bootstrap uid_next now current w =
      let last_uid = bootstrap_uid current.last_uid uid_next cfg.bootstrap_limit in
      if last_uid == current.last_uid then (last_uid, w) else (
        last_uid,
        record w {
          cursor =
              set cfg.instance_id
                (record {
                  uid_validity = current.uid_validity;
                  last_uid = last_uid;
                  updated_at = now;
                })
                w.cursor;
        },
      )

  unfoldable pub open_mailbox : (uid_validity uid_next now : ℕ) → InboundWorker → ℕ × InboundWorker
  unfolding reset_if_validity_changed persist_bootstrap
  open_mailbox uid_validity uid_next now w =
      let reset = reset_if_validity_changed cfg.instance_id uid_validity now w.cursor in
      persist_bootstrap uid_next now reset.0 (record w { cursor = reset.1 })
