-- ===== src/Outbound/Outcome.antt =====
-- src/outbound.rs: what `handle_outcome` does with a job, whatever the server answers.
use nexo_plugin_email.Base.{
  ℕ, ◌+◌, ◌^◌, ◌≤◌, ◌<◌, min, Str, false, Option, none, some, [], ◌∷◌, ◌++◌, ◌≡◌, ◌⊎◌, inl, inr,
  refl, arith, leb, if◌then◌else◌, str_eq, str_eq_iff, Bool-cases, codes, str_eq_refl, ◌-◌, ◌∙◌, ap,
}
use nexo_plugin_email.Events.{AckStatus, sent, failed, retrying}
use nexo_plugin_email.OutboundQueue.{OutboundJob, Storage}
use nexo_plugin_email.OutboundQueue.Pending.{
  pending, pending-update, pending-mark_done, move_to_dlq_lem, dlq-mark_done, dlq-update,
}
use nexo_plugin_email.Outbound.{
  max_attempts, SendResult, accepted, permanent, transient, network_error, Answer, CircuitBreaker,
  OutboundWorker, publish_ack, complete_job, dead_letter, retry, rescheduled, handle_transient,
  handle_error, handle_result, handle_outcome, outbound_topic_for,
}

others_of :
    (id k : Str) (new own old : Option OutboundJob)
    → new ≡ (if str_eq id k then own else old)
    → (id ≡ k) ⊎ (new ≡ old)
others_of id k new own old e = elim (Bool-cases (str_eq id k)) [
  | inl same ↦ inl ((str_eq_iff id k).0 same)
  | inr other ↦ inr (e ∙ ap (λ b. if b then own else old) other)
]

module _ (io : Storage) (B : CircuitBreaker) where
  -- The worker `w'` has published one more ack than `w`, for `job` with this status.
  abbrev pub HasAcked : OutboundJob → AckStatus → OutboundWorker io B → OutboundWorker io B → Type 0
  HasAcked job status w w' =
      (reason : Option Str) × (w'.acks
        ≡ w.acks
          ++ (
            outbound_topic_for w.instance_id ++ codes ".ack",
            record { message_id = job.message_id; status = status; reason = reason },
          )
            ∷ [])

  -- The fate of a job that was sent: done, dead-lettered, or pending again with one more attempt.
  pub record IsCompleted (job : OutboundJob) (w w' : OutboundWorker io B) : Type 0 where
    pub acked : HasAcked job sent w w'
    pub gone : pending io w'.queue job.message_id ≡ none
    pub dlq : w'.queue.dlq_lines ≡ w.queue.dlq_lines

  pub record IsDeadLettered (job : OutboundJob) (w w' : OutboundWorker io B) : Type 0 where
    pub acked : HasAcked job failed w w'
    pub gone : pending io w'.queue job.message_id ≡ none
    pub dlq : w'.queue.dlq_lines ≡ w.queue.dlq_lines ++ io.to_string job ∷ []

  pub record IsRescheduled (job : OutboundJob) (now : ℕ) (w w' : OutboundWorker io B) : Type 0 where
    pub acked : HasAcked job retrying w w'
    pub next : OutboundJob
    pub kept : pending io w'.queue job.message_id ≡ some next
    pub attempts : next.attempts ≡ job.attempts + 1
    pub few : next.attempts < max_attempts
    pub later : now ≤ next.next_attempt_at
    pub dlq : w'.queue.dlq_lines ≡ w.queue.dlq_lines

  abbrev pub IsSettled : OutboundJob → ℕ → OutboundWorker io B → OutboundWorker io B → Type 0
  IsSettled job now w w' =
      IsCompleted job w w' ⊎ (IsDeadLettered job w w' ⊎ IsRescheduled job now w w')

  -- Every id but the job's is as it was.
  abbrev pub KeepsOthers : OutboundJob → OutboundWorker io B → OutboundWorker io B → Type 0
  KeepsOthers job w w' =
      (k : Str) → (job.message_id ≡ k) ⊎ (pending io w'.queue k ≡ pending io w.queue k)

  complete_job_lem :
      (job : OutboundJob) (w : OutboundWorker io B)
      → IsCompleted job w (complete_job io B job w) × KeepsOthers job w (complete_job io B job w)
  unfolding complete_job publish_ack
  complete_job_lem job w = (
    record {
      acked = (none, refl);
      gone =
          rw (
            pending-mark_done io w.queue job.message_id job.message_id,
            str_eq_refl job.message_id,
          );
      dlq = dlq-mark_done io w.queue job.message_id;
    },
    λ k. others_of job.message_id k _ _ _ (pending-mark_done io w.queue job.message_id k),
  )

  dead_letter_lem :
      (job : OutboundJob) (reason : Str) (w : OutboundWorker io B)
      → IsDeadLettered job w (dead_letter io B job reason w)
        × KeepsOthers job w (dead_letter io B job reason w)
  unfolding dead_letter publish_ack
  dead_letter_lem job reason w = (
    record {
      acked = (some reason, refl);
      gone = rw ((move_to_dlq_lem io w.queue job job.message_id).0, str_eq_refl job.message_id);
      dlq = (move_to_dlq_lem io w.queue job job.message_id).1;
    },
    λ k. others_of job.message_id k _ _ _ (move_to_dlq_lem io w.queue job k).0,
  )

  retry_lem :
      (job : OutboundJob) (error reason : Str) (answer : Answer) (w : OutboundWorker io B)
      → job.done ≡ false
      → leb max_attempts (min (job.attempts + 1) (2 ^ 32 - 1)) ≡ false
      → IsRescheduled job answer.finished_at w (retry io B job error reason answer w)
        × KeepsOthers job w (retry io B job error reason answer w)
  unfolding retry publish_ack rescheduled
  retry_lem job error reason answer w live few =
      let next = rescheduled io B job error answer in
      (
        record {
          acked = (some reason, refl);
          next = next;
          kept =
              rw (pending-update io w.queue next job.message_id, str_eq_refl job.message_id, live);
          attempts = ground arith;
          few = ground arith;
          later = omega arith;
          dlq = dlq-update io w.queue next;
        },
        λ k. others_of job.message_id k _ _ _ (pending-update io w.queue next k),
      )

  -- `w` and `w₀` differ in the breaker alone.
  abbrev pub Outcome : OutboundJob → ℕ → OutboundWorker io B → OutboundWorker io B → Type 0
  Outcome job now w w' = IsSettled job now w w' × KeepsOthers job w w'

  handle_transient_lem :
      (job : OutboundJob) (code : ℕ) (message : Str) (answer : Answer) (w : OutboundWorker io B)
      → job.done ≡ false
      → Outcome job answer.finished_at w (handle_transient io B job code message answer w)
  unfolding handle_transient
  handle_transient_lem job code message answer w live =
      elim (Bool-cases (leb max_attempts (min (job.attempts + 1) (2 ^ 32 - 1)))) [
        | inl many ↦
            let (dead, others) = dead_letter_lem job _ w in rw many (inr (inl dead), others)
        | inr few ↦
            let (again, others) = retry_lem job _ _ answer w live few in
            rw few (inr (inr again), others)
      ]

  handle_error_lem :
      (job : OutboundJob) (e : Str) (answer : Answer) (w : OutboundWorker io B)
      → job.done ≡ false
      → Outcome job answer.finished_at w (handle_error io B job e answer w)
  unfolding handle_error
  handle_error_lem job e answer w live =
      elim (Bool-cases (leb max_attempts (min (job.attempts + 1) (2 ^ 32 - 1)))) [
        | inl many ↦
            let (dead, others) = dead_letter_lem job _ w in rw many (inr (inl dead), others)
        | inr few ↦
            let (again, others) = retry_lem job _ _ answer w live few in
            rw few (inr (inr again), others)
      ]

  noted :
      (job : OutboundJob) (now : ℕ) (b : B.State) (w w' : OutboundWorker io B)
      → Outcome job now (record w { breaker = b }) w'
      → Outcome job now w w'
  noted job now b w w' (inl c, others) =
      (inl (record { acked = c.acked; gone = c.gone; dlq = c.dlq }), others)
  noted job now b w w' (inr (inl c), others) =
      (inr (inl (record { acked = c.acked; gone = c.gone; dlq = c.dlq })), others)
  noted job now b w w' (inr (inr c), others) = (
    inr (
        inr (record {
          acked = c.acked;
          next = c.next;
          kept = c.kept;
          attempts = c.attempts;
          few = c.few;
          later = c.later;
          dlq = c.dlq;
        })),
    others,
  )

  handle_result_lem :
      (result : SendResult) (job : OutboundJob) (answer : Answer) (w : OutboundWorker io B)
      → job.done ≡ false
      → Outcome job answer.finished_at w (handle_result io B result job answer w)
  unfolding handle_result
  handle_result_lem accepted job answer w live =
      let up = record w { breaker = B.on_success w.breaker } in
      let (done, others) = complete_job_lem job up in
      noted job answer.finished_at _ w _ (inl done, others)
  handle_result_lem (permanent code message) job answer w live =
      let up = record w { breaker = B.on_success w.breaker } in
      let (dead, others) = dead_letter_lem job _ up in
      noted job answer.finished_at _ w _ (inr (inl dead), others)
  handle_result_lem (transient code message) job answer w live =
      noted job answer.finished_at _ w _ (
        handle_transient_lem job code message answer (record w { breaker = B.on_success w.breaker })
          live)
  handle_result_lem (network_error e) job answer w live =
      noted job answer.finished_at _ w _
        (handle_error_lem job e answer (record w { breaker = B.on_failure w.breaker }) live)

  -- Whatever the send of a job that is not done answers, one ack is published, and the job is done,
  -- or dead-lettered, or pending again with one more attempt, of fewer than five, and not before
  -- the clock; the jobs of other ids stay.
  pub handle_outcome_lem :
      (job : OutboundJob) (answer : Answer) (w : OutboundWorker io B)
      → job.done ≡ false
      → IsSettled job answer.finished_at w (handle_outcome io B job answer w)
        × KeepsOthers job w (handle_outcome io B job answer w)
  unfolding handle_outcome
  handle_outcome_lem job answer w live = handle_result_lem answer.outcome job answer w live
