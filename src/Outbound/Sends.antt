-- ===== src/Outbound/Sends.antt =====
-- src/outbound.rs: how often one job is sent, over all that the worker does with it.
use mathlib.Core.Option.{some-injective}
use nexo_plugin_email.Base.{
  ℕ, suc, ◌+◌, ◌≤◌, ◌<◌, Str, none, some, ◌≡◌, ◌⊎◌, inl, inr, sym, ap, ◌∙◌, subst, arith,
}
use nexo_plugin_email.Outbound.Outcome.{IsSettled, handle_outcome_lem}
use nexo_plugin_email.Outbound.{
  max_attempts, Answer, CircuitBreaker, OutboundWorker, handle_outcome,
}
use nexo_plugin_email.OutboundQueue.Pending.{pending, pending-live}
use nexo_plugin_email.OutboundQueue.{OutboundJob, Storage}

module _ (io : Storage) (B : CircuitBreaker) (id : Str) where
  -- The runs of the worker in which the pending job of this id is sent so many times, with any
  -- answers, and in which anything else may happen that keeps what is pending under the id.
  pub data Sends (w : OutboundWorker io B) : ℕ → OutboundWorker io B → Type 0 where
    unsent : Sends w 0 w
    sends :
        {n : ℕ} {u : OutboundWorker io B} (job : OutboundJob) (answer : Answer)
        → Sends w n u
        → pending io u.queue id ≡ some job
        → Sends w (suc n) (handle_outcome io B job answer u)
    elsewhere :
        {n : ℕ} {u : OutboundWorker io B} (v : OutboundWorker io B)
        → Sends w n u
        → pending io v.queue id ≡ pending io u.queue id
        → Sends w n v

  -- The job is gone, or pending with this many attempts, which are fewer than five.
  abbrev IsTried : ℕ → OutboundWorker io B → Type 0
  IsTried tried u =
      (pending io u.queue id ≡ none)
      ⊎ ((job : OutboundJob) × (pending io u.queue id ≡ some job)
          × (job.attempts ≡ tried)
          × (tried < max_attempts))

  settled-IsTried :
      (job : OutboundJob) (now tried : ℕ) (u v : OutboundWorker io B)
      → job.message_id ≡ id
      → job.attempts ≡ tried
      → IsSettled io B job now u v
      → IsTried (suc tried) v
  settled-IsTried job now tried u v same e (inl done) =
      inl (subst (λ k. pending io v.queue k ≡ none) same done.gone)
  settled-IsTried job now tried u v same e (inr (inl dead)) =
      inl (subst (λ k. pending io v.queue k ≡ none) same dead.gone)
  settled-IsTried job now tried u v same e (inr (inr again)) = inr (
    again.next,
    subst (λ k. pending io v.queue k ≡ some again.next) same again.kept,
    omega (arith, again.attempts, e),
    omega (arith, again.attempts, again.few, e),
  )

  Sends-IsTried :
      {w u : OutboundWorker io B} {n : ℕ} (job : OutboundJob)
      → Sends w n u
      → pending io w.queue id ≡ some job
      → job.attempts < max_attempts
      → IsTried (job.attempts + n) u
  Sends-IsTried job unsent known few = inr (job, known, omega arith, omega (arith, few))
  Sends-IsTried {w} job (elsewhere {n} {u} v r keeps) known few =
      moved (Sends-IsTried job r known few)
    where
      moved : IsTried (job.attempts + n) u → IsTried (job.attempts + n) v
      moved (inl gone) = inl (keeps ∙ gone)
      moved (inr (j, there, count, less)) = inr (j, keeps ∙ there, count, less)
  Sends-IsTried {w} job (sends {n} {u} j answer r there) known few =
      tried (Sends-IsTried job r known few)
    where
      tried :
          IsTried (job.attempts + n) u
          → IsTried (job.attempts + suc n) (handle_outcome io B j answer u)
      tried (inl gone) = absurd (cc)
      tried (inr (i, same, count, few')) =
          let e : j ≡ i = some-injective _ _ (sym there ∙ same) in
          let (named, live) = pending-live io u.queue id j there in
          subst (λ k. IsTried k (handle_outcome io B j answer u)) (omega arith)
            (settled-IsTried j answer.finished_at (job.attempts + n) u _ named
              (ap (λ (x : OutboundJob). x.attempts) e ∙ count)
              (handle_outcome_lem io B j answer u live).0)

  -- A job that was pending with fewer than five attempts is not pending any more after as many sends
  -- as it has attempts left of the five, however the server answers each, if what happens between
  -- two sends leaves what is pending under its id as it is (a job that is queued again under that id
  -- does not).
  pub Sends-settle :
      {w u : OutboundWorker io B} {n : ℕ} (job : OutboundJob)
      → Sends w n u
      → pending io w.queue id ≡ some job
      → job.attempts < max_attempts
      → max_attempts ≤ job.attempts + n
      → pending io u.queue id ≡ none
  Sends-settle {w} {u} {n} job r known few enough = end (Sends-IsTried job r known few)
    where
      end : IsTried (job.attempts + n) u → pending io u.queue id ≡ none
      end (inl gone) = gone
      end (inr (j, there, count, less)) = absurd (omega (arith, less, enough))
