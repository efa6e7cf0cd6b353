-- ===== src/Tool/Reply.antt =====
-- src/tool/reply.rs: the recipients, the subject and the threading of a reply.
pub mod Recipients
use nexo_plugin_email.Base.{
  Str, Bool, true, false, not, ◌&&◌, Option, none, some, List, [], ◌∷◌, ◌++◌, map, any, filter_by,
  leb, if◌then◌else◌, codes, trim_start, is_whitespace, to_ascii_lowercase, str_eq, byte_len,
  slice_to, eq_ignore_ascii_case,
}
use nexo_plugin_email.Dispatcher.{DispatcherCore, Moment, EnqueueResult, enqueue_for_instance}
use nexo_plugin_email.Events.{EmailMeta, AddressEntry, OutboundCommand, OutboundAttachmentRef}
use nexo_plugin_email.MimeBuild.{MimeLib}
use nexo_plugin_email.OutboundQueue.{Storage}
use nexo_plugin_email.Reload.{EmailAccountConfig, find_account}
use nexo_plugin_email.Threading.{enrich_reply_threading}

-- `[]` for an empty address
unfoldable pub to_of : Str → List Str
to_of [] = []
to_of (c ∷ s) = (c ∷ s) ∷ []

abbrev pub is_empty_text : Str → Bool
is_empty_text [] = true
is_empty_text (c ∷ s) = false

-- what is left by the three filters
unfoldable pub is_other : Str → Str → Str → Bool
unfolding str_eq to_ascii_lowercase
is_other own from s =
    not (is_empty_text s) && not (eq_ignore_ascii_case s own) && not (eq_ignore_ascii_case s from)

-- the `retain` with the addresses seen so far
unfoldable pub dedupe : List Str → List Str → List Str
unfolding any str_eq to_ascii_lowercase
dedupe seen [] = []
dedupe seen (s ∷ rest) =
    let dropped = dedupe seen rest in
    let kept = dedupe (s ∷ seen) rest in
    if any (λ p. eq_ignore_ascii_case p s) seen then dropped else s ∷ kept

unfoldable pub cc_of : Bool → EmailMeta → Str → List Str
unfolding is_other dedupe filter_by
cc_of false parent own_address = []
cc_of true parent own_address = dedupe [] (
    filter_by (is_other own_address parent.from.address)
      (map (λ (a : AddressEntry). a.address) (parent.to ++ parent.cc)))

unfoldable pub derive_reply_recipients : EmailMeta → Bool → Str → List Str × List Str
unfolding to_of cc_of
derive_reply_recipients parent reply_all own_address =
    (to_of parent.from.address, cc_of reply_all parent own_address)

-- `none` is the panic of the slice of the first three bytes
unfoldable pub prefix_re : Str → Option Str
unfolding trim_start is_whitespace byte_len slice_to str_eq to_ascii_lowercase
prefix_re subject =
    let trimmed = trim_start is_whitespace subject in
    if leb 3 (byte_len trimmed)
    then elim (slice_to 3 trimmed) [
      | none ↦ none
      | some head ↦
          some
            (if eq_ignore_ascii_case head (codes "re:") then subject else codes "Re: " ++ subject)
    ]
    else some (codes "Re: " ++ subject)

pub record ReplyArgs : Type 0 where
  pub instance_id : Str
  pub body : Str
  pub reply_all : Bool
  pub attachments : List OutboundAttachmentRef

-- The answer; `threading_panicked` and `subject_panicked` stand for the two calls that can panic.
pub data ReplyAnswer : Type 0 where
  unknown_account no_parent no_recipient subject_panicked threading_panicked : ReplyAnswer
  replied : EnqueueResult → List Str → List Str → ReplyAnswer

abbrev pub reply_command : ReplyArgs → List Str → List Str → Str → OutboundCommand
reply_command args to cc subject = record {
  to = to;
  cc = cc;
  bcc = [];
  subject = subject;
  body = args.body;
  in_reply_to = none;
  references = [];
  attachments = args.attachments;
  message_id = none;
}

module _ (io : Storage) (lib : MimeLib) where
  -- from the threaded command on
  unfoldable pub enqueue_reply :
      ReplyArgs
      → Moment
      → DispatcherCore
      → List Str
      → List Str
      → Option OutboundCommand
      → ReplyAnswer
  unfolding enqueue_for_instance
  enqueue_reply args moment core to cc none = threading_panicked
  enqueue_reply args moment core to cc (some cmd) =
      replied (enqueue_for_instance io lib args.instance_id cmd moment core) to cc

  -- from the subject on
  unfoldable pub thread_reply :
      ReplyArgs
      → EmailMeta
      → Moment
      → DispatcherCore
      → List Str
      → List Str
      → Option Str
      → ReplyAnswer
  unfolding enqueue_reply enrich_reply_threading
  thread_reply args parent moment core to cc none = subject_panicked
  thread_reply args parent moment core to cc (some subject) =
      enqueue_reply args moment core to cc
        (enrich_reply_threading parent (reply_command args to cc subject))

  -- from the recipients on
  unfoldable pub reply_to :
      ReplyArgs → EmailMeta → Moment → DispatcherCore → List Str × List Str → ReplyAnswer
  unfolding thread_reply prefix_re
  reply_to args parent moment core ([], cc) = no_recipient
  reply_to args parent moment core (a ∷ to, cc) =
      thread_reply args parent moment core (a ∷ to) cc (prefix_re parent.subject)

  -- the fetched and parsed parent is an argument; `none` is an error of either
  unfoldable pub run_reply :
      List EmailAccountConfig → ReplyArgs → Option EmailMeta → Moment → DispatcherCore → ReplyAnswer
  unfolding find_account reply_to derive_reply_recipients
  run_reply accounts args parent moment core = elim (find_account args.instance_id accounts) [
    | none ↦ unknown_account
    | some account ↦ elim parent [
      | none ↦ no_parent
      | some meta ↦
          reply_to args meta moment core
            (derive_reply_recipients meta args.reply_all account.address)
    ]
  ]
