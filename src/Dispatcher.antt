-- ===== src/Dispatcher.antt =====
-- src/outbound.rs, `DispatcherCore`: the entry to the queues of the accounts, for the tools and for
-- the commands that arrive on the broker.
pub mod Enqueue
use nexo_plugin_email.Base.{
  ℕ, Str, Bool, false, Option, none, some, List, [], ◌∷◌, true, trim_start, trim_end, Map, lookup,
  insert, str_is_eq,
}
use nexo_plugin_email.Events.{OutboundCommand}
use nexo_plugin_email.MimeBuild.{
  MimeLib, build_mime, generate_message_id, strip_brackets, BuildContext,
}
use nexo_plugin_email.OutboundQueue.{OutboundQueue, OutboundJob, Storage, write_all, enqueue}

pub record InstanceState : Type 0 where
  pub queue : OutboundQueue
  pub address : Str

abbrev pub DispatcherCore : Type 0
DispatcherCore = Map Str InstanceState

-- The clock, in seconds and in milliseconds, the date it prints, and the fresh uuid of one call.
pub record Moment : Type 0 where
  pub timestamp : ℕ
  pub timestamp_millis : ℕ
  pub date : Str
  pub uuid : Str

pub data EnqueueResult : Type 0 where
  no_recipients unknown_instance build_failed : EnqueueResult
  queued : (message_id : Str) → DispatcherCore → EnqueueResult

-- whether to, cc and bcc are all empty
unfoldable pub has_no_recipients : OutboundCommand → Bool
has_no_recipients cmd = elim (cmd.to) [
  | _ ∷ _ ↦ false
  | [] ↦ elim (cmd.cc) [ _ ∷ _ ↦ false | [] ↦ elim (cmd.bcc) [ _ ∷ _ ↦ false | [] ↦ true ] ]
]

-- the id of the caller without its brackets, or a fresh one
unfoldable pub message_id_of : Option Str → (fresh : Str) → Str
unfolding strip_brackets
message_id_of none fresh = fresh
message_id_of (some s) fresh = elim (strip_brackets s) [ [] ↦ fresh | c ∷ id ↦ c ∷ id ]

abbrev pub job_of : Str → Str → Str → OutboundCommand → List ℕ → ℕ → OutboundJob
job_of instance_id message_id from cmd raw now = record {
  message_id = message_id;
  instance_id = instance_id;
  envelope = record { from = from; to = cmd.to; cc = cmd.cc; bcc = cmd.bcc };
  raw_mime = raw;
  attempts = 0;
  next_attempt_at = now;
  last_error = none;
  created_at = now;
  done = false;
}

module _ (io : Storage) (lib : MimeLib) where
  -- from the answer of `build_mime` on
  unfoldable pub queue_built :
      Str
      → Str
      → OutboundCommand
      → ℕ
      → Option (List ℕ)
      → InstanceState
      → DispatcherCore
      → EnqueueResult
  unfolding enqueue write_all insert
  queue_built instance_id message_id cmd now none state core = build_failed
  queue_built instance_id message_id cmd now (some raw) state core =
      let job = job_of instance_id message_id state.address cmd raw now in
      queued message_id
        (insert instance_id (record state { queue = write_all (enqueue io job) state.queue }) core)

  -- from the answer of `instances.get` on
  unfoldable pub enqueue_at :
      Str → OutboundCommand → Moment → Option InstanceState → DispatcherCore → EnqueueResult
  unfolding queue_built build_mime message_id_of generate_message_id
  enqueue_at instance_id cmd moment none core = unknown_instance
  enqueue_at instance_id cmd moment (some state) core =
      let message_id =
        message_id_of cmd.message_id
          (generate_message_id moment.timestamp_millis moment.uuid state.address) in
      let ctx : BuildContext = record {
        message_id = message_id;
        from = state.address;
        date = moment.date;
      } in
      queue_built instance_id message_id cmd moment.timestamp (build_mime lib ctx cmd) state core

  unfoldable pub enqueue_for_instance :
      Str → OutboundCommand → Moment → DispatcherCore → EnqueueResult
  unfolding enqueue_at lookup has_no_recipients
  enqueue_for_instance instance_id cmd moment core = elim (has_no_recipients cmd) [
    | true ↦ no_recipients
    | false ↦ enqueue_at instance_id cmd moment (lookup instance_id core) core
  ]

  -- the same for a command of the broker: the worker has its own queue and address at hand, and the
  -- recipients are not looked at
  unfoldable pub enqueue_command :
      Str → OutboundCommand → Moment → InstanceState → DispatcherCore → EnqueueResult
  unfolding enqueue_at
  enqueue_command instance_id cmd moment state core =
      enqueue_at instance_id cmd moment (some state) core
