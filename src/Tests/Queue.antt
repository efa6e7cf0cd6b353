-- ===== src/Tests/Queue.antt =====
-- Concrete queues, workers and dispatchers, and the theorems on them.
use nexo_plugin_email.Base.{
  ℕ, Str, Bool, true, false, none, some, [], ◌∷◌, ◌≡◌, ◌⊎◌, refl, arith, codes, if◌then◌else◌,
  str_eq, take, subst, sym,
}
use nexo_plugin_email.Events.{OutboundCommand}
use nexo_plugin_email.MimeBuild.{MimeLib}
use nexo_plugin_email.OutboundQueue.{
  OutboundQueue, OutboundJob, write_all, enqueue, move_to_dlq, list_pending, compact_if_needed,
  read_latest_per_id, values, read_line, read_from, sort_by_created, insert_by_created,
}
use nexo_plugin_email.OutboundQueue.Pending.{pending, pending-enqueue, move_to_dlq_crash}
use nexo_plugin_email.OutboundQueue.Ids.{HasDistinctIds, find_job}
use nexo_plugin_email.OutboundQueue.Listing.{IsSorted, list_pending_lem}
use nexo_plugin_email.OutboundQueue.Compaction.{pending-compact}
use nexo_plugin_email.Outbound.{
  Answer, CircuitBreaker, OutboundWorker, transient, handle_outcome, drain_tick,
}
use nexo_plugin_email.Outbound.Outcome.{IsSettled, KeepsOthers, handle_outcome_lem}
use nexo_plugin_email.Outbound.Drain.{
  HasFewAttempts, IsAccounted, drain_tick_lem, drain_tick-HasFewAttempts, IsFew,
}
use nexo_plugin_email.Dispatcher.{DispatcherCore, Moment, enqueue_for_instance}
use nexo_plugin_email.Dispatcher.Enqueue.{IsAnswered, enqueue_for_instance_lem}
use nexo_plugin_email.Tests.Codec.{storage, to_string, from_str-to_string, is_blank-to_string}

abbrev pub job : Str → ℕ → OutboundJob
job id created = record {
  message_id = id;
  instance_id = codes "ops";
  envelope = record { from = codes "ops@x.com"; to = codes "ana@y.com" ∷ []; cc = []; bcc = [] };
  raw_mime = 77 ∷ 73 ∷ [];
  attempts = 0;
  next_attempt_at = created;
  last_error = none;
  created_at = created;
  done = false;
}

abbrev pub first_job : OutboundJob
first_job = job (codes "a1") 20

abbrev second_job : OutboundJob
second_job = job (codes "b2") 10

-- two jobs, the second of which is done
abbrev half_done : OutboundQueue
half_done = record {
  queue_lines =
      to_string first_job
      ∷ to_string second_job
      ∷ to_string (record second_job { done = true })
      ∷ [];
  dlq_lines = to_string first_job ∷ to_string second_job ∷ [];
}

abbrev pub two_jobs : OutboundQueue
two_jobs = record { queue_lines = to_string first_job ∷ to_string second_job ∷ []; dlq_lines = [] }

-- the older job is listed first
list_two_jobs : list_pending storage two_jobs ≡ second_job ∷ first_job ∷ []
unfolding list_pending read_latest_per_id read_from read_line values sort_by_created
    insert_by_created
list_two_jobs = simp (from_str-to_string, is_blank-to_string) refl

list_pending_example :
    IsSorted (list_pending storage two_jobs)
    × HasDistinctIds (list_pending storage two_jobs)
    × ((k : Str) → find_job k (list_pending storage two_jobs) ≡ pending storage two_jobs k)
list_pending_example = list_pending_lem storage two_jobs

move_to_dlq_crash_example :
    ((write_all (take 1 (move_to_dlq storage first_job)) two_jobs).dlq_lines ≡ [])
    ⊎ (pending storage (write_all (take 1 (move_to_dlq storage first_job)) two_jobs) (codes "a1")
        ≡ none)
move_to_dlq_crash_example = move_to_dlq_crash storage two_jobs first_job 1

pending-compact_example :
    (pending storage (write_all (compact_if_needed storage half_done).1 half_done) (codes "a1")
      ≡ pending storage half_done (codes "a1"))
    × ((write_all (compact_if_needed storage half_done).1 half_done).dlq_lines
        ≡ half_done.dlq_lines)
pending-compact_example = pending-compact storage half_done (codes "a1")

-- SMTP that defers one send, under a breaker that is always closed.
abbrev pub closed : CircuitBreaker
closed = record { State = Unit; allow = λ s. (true, s); on_success = λ s. s; on_failure = λ s. s }

abbrev pub deferred : Answer
deferred = record { outcome = transient 421 (codes "busy"); finished_at = 30; jittered = λ x. x }

abbrev pub worker : OutboundWorker storage closed
worker = record {
  instance_id = codes "ops";
  queue = two_jobs;
  breaker = tt;
  in_flight = [];
  outbound_sent_total = 0;
  outbound_failed_total = 0;
  metric_sent = 0;
  metric_failed = 0;
  acks = [];
  max_dlq_lines = 100;
}

handle_outcome_lem_example :
    IsSettled storage closed first_job 30 worker
      (handle_outcome storage closed first_job deferred worker)
    × KeepsOthers storage closed first_job worker
        (handle_outcome storage closed first_job deferred worker)
handle_outcome_lem_example = handle_outcome_lem storage closed first_job deferred worker refl

drain_tick_lem_example :
    IsAccounted storage closed worker
      (drain_tick storage closed (λ _. false) (λ _. deferred) 25 worker)
drain_tick_lem_example = drain_tick_lem storage closed (λ _. false) (λ _. deferred) 25 worker

abbrev pub empty_queue : OutboundQueue
empty_queue = record { queue_lines = []; dlq_lines = [] }

abbrev one_job : OutboundQueue
one_job = record { queue_lines = to_string first_job ∷ []; dlq_lines = [] }

abbrev small_worker : OutboundWorker storage closed
small_worker = record worker { queue = one_job }

small_worker-HasFewAttempts : HasFewAttempts storage closed small_worker
unfolding pending enqueue write_all
small_worker-HasFewAttempts k =
    subst IsFew (sym (pending-enqueue storage empty_queue first_job k))
      (few (str_eq (codes "a1") k))
  where
    few : (b : Bool) → IsFew (if b then some first_job else none)
    few true = omega arith
    few false = tt

drain_tick-HasFewAttempts_example :
    HasFewAttempts storage closed
      (drain_tick storage closed (λ _. false) (λ _. deferred) 25 small_worker)
drain_tick-HasFewAttempts_example =
    drain_tick-HasFewAttempts storage closed (λ _. false) (λ _. deferred) 25 small_worker
      small_worker-HasFewAttempts

-- A builder of messages that writes the subject alone, and no files.
abbrev pub plain_lib : MimeLib
plain_lib = record {
  base64 = λ b. b;
  read_file = λ _. none;
  guess_mime = λ _. codes "application/octet-stream";
  write_multipart = λ ctx to cc subject body reply refs html parts. some subject;
}

abbrev pub core : DispatcherCore
core = (codes "ops", record { queue = empty_queue; address = codes "ops@x.com" }) ∷ []

abbrev command : OutboundCommand
command = record {
  to = codes "ana@y.com" ∷ [];
  cc = [];
  bcc = codes "audit@x.com" ∷ [];
  subject = codes "Hi";
  body = codes "text";
  in_reply_to = none;
  references = [];
  attachments = [];
  message_id = some (codes "<m1@x.com>");
}

abbrev pub moment : Moment
moment = record { timestamp = 7; timestamp_millis = 7000; date = codes "Thu"; uuid = codes "0a" }

enqueue_for_instance_lem_example :
    IsAnswered storage plain_lib
      (codes "ops")
      command
      moment
      core
      (enqueue_for_instance storage plain_lib (codes "ops") command moment core)
enqueue_for_instance_lem_example =
    enqueue_for_instance_lem storage plain_lib (codes "ops") command moment core
