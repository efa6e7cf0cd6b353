-- ===== src/Outbound/Drain.antt =====
-- src/outbound.rs: the tick of the worker, over all jobs of the queue.
use mathlib.Core.List.{append_assoc, append-nil}
use nexo_plugin_email.Base.{
  ℕ, ◌<◌, Str, Bool, false, not, Option, none, some, List, [], ◌∷◌, ◌++◌, ◌≡◌, ◌⊎◌, inl, inr, refl,
  sym, ◌∙◌, ap, if◌then◌else◌, str_eq, Bool-cases, ltb, any, filter_by, All, Elem, Elem-append_left,
  Elem-append_right, subst,
}
use nexo_plugin_email.Events.{OutboundAck}
use nexo_plugin_email.OutboundQueue.{
  OutboundJob, Storage, write_all, list_pending, compact_if_needed,
}
use nexo_plugin_email.OutboundQueue.Pending.{pending}
use nexo_plugin_email.OutboundQueue.Compaction.{pending-compact}
use nexo_plugin_email.OutboundQueue.DeadLetters.{trim_dlq_lem}
use nexo_plugin_email.OutboundQueue.Listing.{list_pending-live}
use nexo_plugin_email.Outbound.{
  max_attempts, Answer, CircuitBreaker, OutboundWorker, handle_outcome, send_guarded, drain_jobs,
  idle, drain_tick, drain_listed,
}
use nexo_plugin_email.Outbound.Outcome.{IsSettled, KeepsOthers, handle_outcome_lem}

-- The ids that a list of published acks is about.
abbrev pub acked_ids : List (Str × OutboundAck) → List Str
acked_ids [] = []
acked_ids ((topic, ack) ∷ acks) = ack.message_id ∷ acked_ids acks

acked_ids-append :
    (xs ys : List (Str × OutboundAck)) → acked_ids (xs ++ ys) ≡ acked_ids xs ++ acked_ids ys
acked_ids-append [] ys = refl
acked_ids-append ((t, a) ∷ xs) ys = ap (λ r. a.message_id ∷ r) (acked_ids-append xs ys)

-- A job that has been sent fewer than five times, if there is one.
abbrev pub IsFew : Option OutboundJob → Type 0
IsFew none = Unit
IsFew (some j) = j.attempts < max_attempts

module _ (io : Storage) (B : CircuitBreaker) where
  abbrev pub HasFewAttempts : OutboundWorker io B → Type 0
  HasFewAttempts w = (k : Str) → IsFew (pending io w.queue k)

  -- From `w` to `w'` only new acks were published, and an id is pending as it was, or one of the
  -- new acks is about it.
  pub record IsAccounted (w w' : OutboundWorker io B) : Type 0 where
    pub fresh : List (Str × OutboundAck)
    pub acks : w'.acks ≡ w.acks ++ fresh
    pub kept : (k : Str) → (pending io w'.queue k ≡ pending io w.queue k) ⊎ Elem k (acked_ids fresh)

  same_queue-IsAccounted :
      (w w' : OutboundWorker io B)
      → w'.acks ≡ w.acks
      → ((k : Str) → pending io w'.queue k ≡ pending io w.queue k)
      → IsAccounted w w'
  same_queue-IsAccounted w w' e h = record {
    fresh = [];
    acks = e ∙ sym (append-nil w.acks);
    kept = λ k. inl (h k);
  }

  IsAccounted-trans :
      (u v w : OutboundWorker io B) → IsAccounted u v → IsAccounted v w → IsAccounted u w
  IsAccounted-trans u v w a b = record {
    fresh = a.fresh ++ b.fresh;
    acks = b.acks ∙ ap (λ r. r ++ b.fresh) a.acks ∙ append_assoc u.acks a.fresh b.fresh;
    kept = λ k. rw (acked_ids-append a.fresh b.fresh) (join k (a.kept k) (b.kept k));
  }
    where
      join :
          (k : Str)
          → (pending io v.queue k ≡ pending io u.queue k) ⊎ Elem k (acked_ids a.fresh)
          → (pending io w.queue k ≡ pending io v.queue k) ⊎ Elem k (acked_ids b.fresh)
          → (pending io w.queue k ≡ pending io u.queue k)
            ⊎ Elem k (acked_ids a.fresh ++ acked_ids b.fresh)
      join k (inl p) (inl q) = inl (q ∙ p)
      join k (inr p) q = inr (Elem-append_left k (acked_ids a.fresh) (acked_ids b.fresh) p)
      join k (inl p) (inr q) = inr (Elem-append_right k (acked_ids a.fresh) (acked_ids b.fresh) q)

  -- What one settled job does to both properties.
  handle_outcome-IsAccounted :
      (job : OutboundJob) (answer : Answer) (w : OutboundWorker io B)
      → job.done ≡ false
      → IsAccounted w (handle_outcome io B job answer w)
  handle_outcome-IsAccounted job answer w live = settled (handle_outcome_lem io B job answer w live)
    where
      other :
          (w' : OutboundWorker io B) (k : Str)
          → KeepsOthers io B job w w'
          → (pending io w'.queue k ≡ pending io w.queue k) ⊎ Elem k (job.message_id ∷ [])
      other w' k others = elim (others k) [ inl e ↦ inr (inl (sym e)) | inr e ↦ inl e ]

      settled :
          {w' : OutboundWorker io B}
          → IsSettled io B job answer.finished_at w w' × KeepsOthers io B job w w'
          → IsAccounted w w'
      settled {w'} (inl c, others) = record {
        fresh = _;
        acks = c.acked.1;
        kept = λ k. other w' k others;
      }
      settled {w'} (inr (inl c), others) = record {
        fresh = _;
        acks = c.acked.1;
        kept = λ k. other w' k others;
      }
      settled {w'} (inr (inr c), others) = record {
        fresh = _;
        acks = c.acked.1;
        kept = λ k. other w' k others;
      }

  -- A settled job is not pending any more, or it is with few attempts.
  IsSettled-IsFew :
      (job : OutboundJob) (now : ℕ) (w w' : OutboundWorker io B)
      → IsSettled io B job now w w'
      → IsFew (pending io w'.queue job.message_id)
  IsSettled-IsFew job now w w' (inl c) = subst IsFew (sym c.gone) tt
  IsSettled-IsFew job now w w' (inr (inl c)) = subst IsFew (sym c.gone) tt
  IsSettled-IsFew job now w w' (inr (inr c)) = subst IsFew (sym c.kept) c.few

  handle_outcome-HasFewAttempts :
      (job : OutboundJob) (answer : Answer) (w : OutboundWorker io B)
      → job.done ≡ false
      → HasFewAttempts w
      → HasFewAttempts (handle_outcome io B job answer w)
  handle_outcome-HasFewAttempts job answer w live few k =
      let (settled, others) = handle_outcome_lem io B job answer w live in
      let w' = handle_outcome io B job answer w in
      elim (others k) [
        | inl e ↦
            subst (λ i. IsFew (pending io w'.queue i)) e
              (IsSettled-IsFew job answer.finished_at w w' settled)
        | inr e ↦ subst IsFew (sym e) (few k)
      ]

  -- No job is lost and no job has too many attempts.
  abbrev pub IsSafe : OutboundWorker io B → OutboundWorker io B → Type 0
  IsSafe w w' = IsAccounted w w' × (HasFewAttempts w → HasFewAttempts w')

  same_queue-IsSafe :
      (w w' : OutboundWorker io B)
      → w'.acks ≡ w.acks
      → ((k : Str) → pending io w'.queue k ≡ pending io w.queue k)
      → IsSafe w w'
  same_queue-IsSafe w w' e h =
      (same_queue-IsAccounted w w' e h, λ few k. subst IsFew (sym (h k)) (few k))

  IsSafe-trans : (u v w : OutboundWorker io B) → IsSafe u v → IsSafe v w → IsSafe u w
  IsSafe-trans u v w a b = (IsAccounted-trans u v w a.0 b.0, λ few. b.1 (a.1 few))

  idle-IsSafe : (w : OutboundWorker io B) → IsSafe w (idle io B w)
  unfolding idle pending
  idle-IsSafe w =
      let compacted = write_all (compact_if_needed io w.queue).1 w.queue in
      same_queue-IsSafe w _ refl (λ k.
        ap (λ lines. pending io (record w.queue { queue_lines = lines }) k)
          ((trim_dlq_lem io w.max_dlq_lines compacted).3)
        ∙ (pending-compact io w.queue k).0)

  module _ (cancelled : OutboundJob → Bool) (answer : OutboundJob → Answer) where
    send_guarded-IsSafe :
        (job : OutboundJob) (w : OutboundWorker io B)
        → job.done ≡ false
        → IsSafe w (send_guarded io B cancelled answer job w)
    unfolding send_guarded
    send_guarded-IsSafe job w live =
        let landed = record w {
          in_flight = filter_by (λ i. not (str_eq job.message_id i)) (job.message_id ∷ w.in_flight);
        } in
        let sent = handle_outcome-IsAccounted job (answer job) landed live in
        elim (Bool-cases (any (str_eq job.message_id) w.in_flight)) [
          | inl e ↦ rw e (same_queue-IsSafe w w refl (λ k. refl))
          | inr e ↦ rw e (
            record { fresh = sent.fresh; acks = sent.acks; kept = sent.kept },
            handle_outcome-HasFewAttempts job (answer job) landed live,
          )
        ]

    drain_jobs-IsSafe :
        (now : ℕ) (jobs : List OutboundJob) (w : OutboundWorker io B)
        → All (λ j. j.done ≡ false) jobs
        → IsSafe w (drain_jobs io B cancelled answer now jobs w)
    unfolding drain_jobs
    drain_jobs-IsSafe now [] w live = same_queue-IsSafe w w refl (λ k. refl)
    drain_jobs-IsSafe now (job ∷ jobs) w live =
        let next =
          if ltb now job.next_attempt_at then w else send_guarded io B cancelled answer job w in
        let step : IsSafe w next = elim (Bool-cases (ltb now job.next_attempt_at)) [
          | inl e ↦ rw e (same_queue-IsSafe w w refl (λ k. refl))
          | inr e ↦ rw e (send_guarded-IsSafe job w live.0)
        ] in
        let rest = IsSafe-trans w next _ step (drain_jobs-IsSafe now jobs next live.1) in
        elim (Bool-cases (cancelled job)) [
          | inl e ↦ rw e (same_queue-IsSafe w w refl (λ k. refl))
          | inr e ↦ rw e rest
        ]

    drain_listed-IsSafe :
        (now : ℕ) (jobs : List OutboundJob) (w : OutboundWorker io B)
        → All (λ j. j.done ≡ false) jobs
        → IsSafe w (drain_listed io B cancelled answer now jobs w)
    unfolding drain_listed
    drain_listed-IsSafe now [] w live = idle-IsSafe w
    drain_listed-IsSafe now (job ∷ jobs) w live = drain_jobs-IsSafe now (job ∷ jobs) w live

    drain_tick-IsSafe :
        (now : ℕ) (w : OutboundWorker io B) → IsSafe w (drain_tick io B cancelled answer now w)
    unfolding drain_tick
    drain_tick-IsSafe now w =
        let noted = record w { breaker = (B.allow w.breaker).1 } in
        let asked = same_queue-IsSafe w noted refl (λ k. refl) in
        let live = list_pending-live io w.queue in
        elim (Bool-cases (B.allow w.breaker).0) [
          | inl e ↦ rw e (
              IsSafe-trans w noted _ asked
                (drain_listed-IsSafe now (list_pending io w.queue) noted live))
          | inr e ↦ rw e asked
        ]

    -- A tick loses no job: what was pending under an id is pending unchanged, unless one of the
    -- acks that the tick published is about that id; and the acks of before stay.
    pub drain_tick_lem :
        (now : ℕ) (w : OutboundWorker io B) → IsAccounted w (drain_tick io B cancelled answer now w)
    drain_tick_lem now w = (drain_tick-IsSafe now w).0

    -- When every pending job has been tried fewer than five times, this is so after a tick.
    pub drain_tick-HasFewAttempts :
        (now : ℕ) (w : OutboundWorker io B)
        → HasFewAttempts w
        → HasFewAttempts (drain_tick io B cancelled answer now w)
    drain_tick-HasFewAttempts now w = (drain_tick-IsSafe now w).1
