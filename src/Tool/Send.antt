-- ===== src/Tool/Send.antt =====
-- src/tool/send.rs: a message of an agent, with the bounces of its recipients.
pub mod Strict
use nexo_plugin_email.Base.{
  Str, Bool, true, false, Option, none, some, List, [], ◌∷◌, ◌++◌, filter_by, if◌then◌else◌, ℕ,
}
use nexo_plugin_email.BounceStore
use nexo_plugin_email.BounceStore.{BounceTable, RecipientStatus}
use nexo_plugin_email.Dispatcher.{DispatcherCore, Moment, EnqueueResult, enqueue_for_instance}
use nexo_plugin_email.Dsn.{BounceClassification, permanent, transient, unknown}
use nexo_plugin_email.Events.{OutboundCommand, OutboundAttachmentRef}
use nexo_plugin_email.MimeBuild.{MimeLib}
use nexo_plugin_email.OutboundQueue.{Storage}
use nexo_plugin_email.Reload.{EmailAccountConfig, find_account}

pub record SendArgs : Type 0 where
  pub instance_id : Str
  pub to : List Str
  pub cc : List Str
  pub bcc : List Str
  pub subject : Str
  pub body : Str
  pub attachments : List OutboundAttachmentRef
  pub strict_bounce_check : Bool

-- The recipient as it was given, and what is known of it.
pub record RecipientWarning : Type 0 where
  pub recipient : Str
  pub classification : BounceClassification
  pub status_code : Option Str
  pub last_seen : ℕ
  pub count : ℕ

-- The bounce store, and whether its query for a recipient succeeds.
pub record BounceReader : Type 0 where
  pub table : BounceTable
  pub reads : Str → Bool

-- `store.get`, where the outer `none` is an SQL error
unfoldable pub query_bounce : BounceReader → Str → Str → Option (Option RecipientStatus)
unfolding BounceStore.get
query_bounce store id r = if store.reads r then some (BounceStore.get id r store.table) else none

-- the match on the answer, whose error is only logged
unfoldable pub warning_of : Str → Option (Option RecipientStatus) → List RecipientWarning
warning_of r none = []
warning_of r (some none) = []
warning_of r (some (some s)) =
    record {
      recipient = r;
      classification = s.classification;
      status_code = s.status_code;
      last_seen = s.last_seen;
      count = s.count;
    }
    ∷ []

-- the loop over the recipients
unfoldable pub warnings_of : BounceReader → Str → List Str → List RecipientWarning
unfolding warning_of query_bounce
warnings_of store id [] = []
warnings_of store id (r ∷ rs) = warning_of r (query_bounce store id r) ++ warnings_of store id rs

unfoldable pub collect_recipient_warnings :
    Option BounceReader → Str → List Str → List Str → List Str → List RecipientWarning
unfolding warnings_of
collect_recipient_warnings none id to cc bcc = []
collect_recipient_warnings (some store) id to cc bcc = warnings_of store id (to ++ cc ++ bcc)

abbrev pub is_permanent_class : BounceClassification → Bool
is_permanent_class permanent = true
is_permanent_class transient = false
is_permanent_class unknown = false

abbrev pub is_permanent : RecipientWarning → Bool
is_permanent w = is_permanent_class w.classification

abbrev pub command_of : SendArgs → OutboundCommand
command_of args = record {
  to = args.to;
  cc = args.cc;
  bcc = args.bcc;
  subject = args.subject;
  body = args.body;
  in_reply_to = none;
  references = [];
  attachments = args.attachments;
  message_id = none;
}

-- The answer: a refusal, or what the dispatcher answers, with the warnings.
pub data SendReply : Type 0 where
  unknown_account : SendReply
  refused : List RecipientWarning → SendReply
  dispatched : EnqueueResult → List RecipientWarning → SendReply

-- the warnings that a strict check refuses for
unfoldable pub blocking : Bool → List RecipientWarning → List RecipientWarning
unfolding filter_by
blocking false warnings = []
blocking true warnings = filter_by is_permanent warnings

module _ (io : Storage) (lib : MimeLib) where
  -- from the blocking warnings on
  unfoldable pub run_checked :
      SendArgs → Moment → DispatcherCore → List RecipientWarning → List RecipientWarning → SendReply
  unfolding enqueue_for_instance
  run_checked args moment core warnings (w ∷ ws) = refused (w ∷ ws)
  run_checked args moment core warnings [] =
      dispatched (enqueue_for_instance io lib args.instance_id (command_of args) moment core)
        warnings

  -- from the account of the instance on
  unfoldable pub run_for :
      Option EmailAccountConfig
      → SendArgs
      → Moment
      → Option BounceReader
      → DispatcherCore
      → SendReply
  unfolding run_checked blocking collect_recipient_warnings
  run_for none args moment bounces core = unknown_account
  run_for (some account) args moment bounces core =
      let warnings = collect_recipient_warnings bounces args.instance_id args.to args.cc args.bcc in
      run_checked args moment core warnings (blocking args.strict_bounce_check warnings)

  unfoldable pub run :
      List EmailAccountConfig → SendArgs → Moment → Option BounceReader → DispatcherCore → SendReply
  unfolding find_account run_for
  run accounts args moment bounces core =
      run_for (find_account args.instance_id accounts) args moment bounces core
