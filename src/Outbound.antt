-- ===== src/Outbound.antt =====
-- src/outbound.rs: the dispatcher that queues commands, and the worker that drains the queue.
-- A worker runs its ticks one after another. SMTP, the clock, the jitter, cancellation and the
-- circuit breaker are arguments; the broker is the list of the acks that are published.
pub mod Backoff
pub mod Outcome
pub mod Sends
pub mod Drain
use nexo_plugin_email.Base.{
  ℕ, zero, suc, ◌+◌, ◌-◌, ◌*◌, ◌/◌, ◌%◌, ◌^◌, min, Str, String, Bool, true, false, not, ◌&&◌, ◌||◌,
  Option, none, some, List, [], ◌∷◌, ◌++◌, codes, if◌then◌else◌, ltb, leb, ◌==◌, str_eq, str_is_eq,
  any, filter_by, decimal, concat, lookup, Map, trim, trim_start, trim_end, is_whitespace,
}
use nexo_plugin_email.Events.{OutboundCommand, AckStatus, sent, failed, retrying, OutboundAck}
use nexo_plugin_email.OutboundQueue.{
  OutboundQueue, OutboundJob, Storage, write_all, enqueue, update, mark_done, move_to_dlq,
  list_pending, compact_if_needed, trim_dlq,
}
use nexo_plugin_email.MimeBuild.{MimeLib, build_mime, generate_message_id}

abbrev pub max_attempts : ℕ
max_attempts = 5

abbrev pub transient_backoff_base_ms : ℕ
transient_backoff_base_ms = 2000

abbrev pub transient_backoff_max_ms : ℕ
transient_backoff_max_ms = 30000

abbrev u64_max : ℕ
u64_max = 2 ^ 64 - 1

abbrev u32_max : ℕ
u32_max = 2 ^ 32 - 1

-- `jittered x` is `((x as f64) * jitter) as u64` for the jitter that was drawn.
unfoldable pub transient_backoff_ms : (jittered : ℕ → ℕ) → ℕ → ℕ
transient_backoff_ms jittered attempts = jittered (
    min (min (transient_backoff_base_ms * 2 ^ min (attempts - 1) 5) u64_max)
      transient_backoff_max_ms)

-- `SmtpSendOutcome` of nexo-email-probe, or the error of a send, as the text that is logged.
pub data SendResult : Type 0 where
  accepted : SendResult
  permanent transient : (code : ℕ) (message : Str) → SendResult
  network_error : Str → SendResult

-- What the world answers to one send: the outcome, and the clock and the jitter afterwards.
pub record Answer : Type 0 where
  pub outcome : SendResult
  pub finished_at : ℕ
  pub jittered : ℕ → ℕ

-- nexo_resilience::CircuitBreaker
pub record CircuitBreaker : Type 1 where
  pub State : Type 0
  pub allow : State → Bool × State
  pub on_success : State → State
  pub on_failure : State → State

unfoldable pub outbound_topic_for : Str → Str
outbound_topic_for [] = codes "plugin.outbound.email"
outbound_topic_for (c ∷ instance_id) = codes "plugin.outbound.email." ++ c ∷ instance_id

abbrev pub smtp_reason : ℕ → Str → Str
smtp_reason code message = concat (codes "smtp " ∷ decimal code ∷ codes ": " ∷ message ∷ [])

abbrev saturating_incr : ℕ → ℕ → ℕ
saturating_incr top n = min (n + 1) top

module _ (io : Storage) (B : CircuitBreaker) where
  -- The worker of one account with the parts of the shared state that it writes: its queue, the
  -- breaker, two counters of its health row, its two metrics and the published acks, oldest first.
  pub record OutboundWorker : Type 0 where
    pub instance_id : Str
    pub queue : OutboundQueue
    pub breaker : B.State
    pub in_flight : List Str
    pub outbound_sent_total : ℕ
    pub outbound_failed_total : ℕ
    pub metric_sent : ℕ
    pub metric_failed : ℕ
    pub acks : List (Str × OutboundAck)
    pub max_dlq_lines : ℕ

  -- the publish at the end of `handle_outcome`
  unfoldable pub publish_ack : Str → AckStatus → Option Str → OutboundWorker → OutboundWorker
  unfolding outbound_topic_for
  publish_ack message_id status reason w = record w {
    acks =
        w.acks
        ++ (
          outbound_topic_for w.instance_id ++ codes ".ack",
          record { message_id = message_id; status = status; reason = reason },
        )
          ∷ [];
  }

  unfoldable pub complete_job : OutboundJob → OutboundWorker → OutboundWorker
  unfolding publish_ack mark_done write_all
  complete_job job w = publish_ack job.message_id sent none (record w {
    queue = write_all (mark_done io job.message_id w.queue) w.queue;
    outbound_sent_total = saturating_incr u64_max w.outbound_sent_total;
    metric_sent = (w.metric_sent + 1) % 2 ^ 64;
  })

  unfoldable pub dead_letter : OutboundJob → Str → OutboundWorker → OutboundWorker
  unfolding publish_ack move_to_dlq write_all
  dead_letter job reason w = publish_ack job.message_id failed (some reason) (record w {
    queue = write_all (move_to_dlq io job) w.queue;
    outbound_failed_total = saturating_incr u64_max w.outbound_failed_total;
    metric_failed = (w.metric_failed + 1) % 2 ^ 64;
  })

  -- the row of a job that is tried again
  unfoldable pub rescheduled : OutboundJob → Str → Answer → OutboundJob
  unfolding transient_backoff_ms
  rescheduled job error answer = record job {
    attempts = saturating_incr u32_max job.attempts;
    next_attempt_at =
        answer.finished_at
        + transient_backoff_ms answer.jittered (saturating_incr u32_max job.attempts) / 1000;
    last_error = some error;
  }

  unfoldable pub retry :
      OutboundJob → (error reason : Str) → Answer → OutboundWorker → OutboundWorker
  unfolding publish_ack rescheduled update write_all
  retry job error reason answer w =
      publish_ack job.message_id retrying (some reason)
        (record w { queue = write_all (update io (rescheduled job error answer)) w.queue })

  unfoldable pub handle_transient : OutboundJob → ℕ → Str → Answer → OutboundWorker → OutboundWorker
  unfolding dead_letter retry decimal concat
  handle_transient job code message answer w =
      let next_attempts = saturating_incr u32_max job.attempts in
      if leb max_attempts next_attempts
      then dead_letter job
          (concat (
            codes "smtp "
            ∷ decimal code
            ∷ codes " after "
            ∷ decimal next_attempts
            ∷ codes " attempts: "
            ∷ message
            ∷ []))
          w
      else retry job (smtp_reason code message)
          (concat (
            codes "smtp "
            ∷ decimal code
            ∷ codes " (attempt "
            ∷ decimal next_attempts
            ∷ codes "): "
            ∷ message
            ∷ []))
          answer w

  unfoldable pub handle_error : OutboundJob → Str → Answer → OutboundWorker → OutboundWorker
  unfolding dead_letter retry
  handle_error job e answer w =
      if leb max_attempts (saturating_incr u32_max job.attempts)
      then dead_letter job (codes "network: " ++ e) w
      else retry job (codes "network: " ++ e) (codes "network: " ++ e) answer w

  abbrev noted_success : OutboundWorker → OutboundWorker
  noted_success w = record w { breaker = B.on_success w.breaker }

  abbrev noted_failure : OutboundWorker → OutboundWorker
  noted_failure w = record w { breaker = B.on_failure w.breaker }

  unfoldable pub handle_result : SendResult → OutboundJob → Answer → OutboundWorker → OutboundWorker
  unfolding complete_job dead_letter handle_transient handle_error
  handle_result accepted job answer w = complete_job job (noted_success w)
  handle_result (permanent code message) job answer w =
      dead_letter job (smtp_reason code message) (noted_success w)
  handle_result (transient code message) job answer w =
      handle_transient job code message answer (noted_success w)
  handle_result (network_error e) job answer w = handle_error job e answer (noted_failure w)

  unfoldable pub handle_outcome : OutboundJob → Answer → OutboundWorker → OutboundWorker
  unfolding handle_result
  handle_outcome job answer w = handle_result answer.outcome job answer w

  -- compaction and the trim of the dead-letter file, on an idle tick
  unfoldable pub idle : OutboundWorker → OutboundWorker
  unfolding compact_if_needed trim_dlq write_all
  idle w =
      let compacted = write_all (compact_if_needed io w.queue).1 w.queue in
      record w { queue = write_all (trim_dlq io w.max_dlq_lines compacted).1 compacted }

  module _ (cancelled : OutboundJob → Bool) (answer : OutboundJob → Answer) where
    -- the send of one job that is due, under the single-flight guard
    unfoldable pub send_guarded : OutboundJob → OutboundWorker → OutboundWorker
    unfolding handle_outcome str_eq any filter_by
    send_guarded job w =
        if any (str_eq job.message_id) w.in_flight
        then w
        else let flying = record w { in_flight = job.message_id ∷ w.in_flight } in
          let landed = record flying {
            in_flight = filter_by (λ i. not (str_eq job.message_id i)) flying.in_flight;
          } in
          handle_outcome job (answer job) landed

    -- the loop of `drain_tick` over the pending jobs
    unfoldable pub drain_jobs : ℕ → List OutboundJob → OutboundWorker → OutboundWorker
    unfolding send_guarded
    drain_jobs now [] w = w
    drain_jobs now (job ∷ jobs) w =
        let rest =
          drain_jobs now jobs (if ltb now job.next_attempt_at then w else send_guarded job w) in
        if cancelled job then w else rest

    -- the branch on an empty list of pending jobs
    unfoldable pub drain_listed : ℕ → List OutboundJob → OutboundWorker → OutboundWorker
    unfolding drain_jobs idle
    drain_listed now [] w = idle w
    drain_listed now (job ∷ jobs) w = drain_jobs now (job ∷ jobs) w

    unfoldable pub drain_tick : ℕ → OutboundWorker → OutboundWorker
    unfolding drain_listed list_pending
    drain_tick now w =
        let asked = B.allow w.breaker in
        let noted = record w { breaker = asked.1 } in
        if not asked.0 then noted else drain_listed now (list_pending io w.queue) noted
