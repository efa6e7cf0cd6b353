-- ===== src/Dispatcher/Enqueue.antt =====
-- src/outbound.rs: what `enqueue_for_instance` queues, and what it refuses.
use nexo_plugin_email.Base.{
  ℕ, Str, Bool, true, false, Option, none, some, List, [], ◌∷◌, ◌≡◌, inl, inr, refl, sym, ◌∙◌,
  arith, if◌then◌else◌, Bool-cases, lookup, insert, lookup-insert, str_eq, str_is_eq, str_eq_iff,
  ◌&&◌, ap, ◌↔◌,
}
use nexo_plugin_email.Events.{OutboundCommand}
use nexo_plugin_email.MimeBuild.{MimeLib, build_mime, generate_message_id, BuildContext}
use nexo_plugin_email.OutboundQueue.{OutboundJob, Storage, write_all, enqueue}
use nexo_plugin_email.OutboundQueue.Pending.{pending, pending-enqueue}
use nexo_plugin_email.Dispatcher.{
  InstanceState, DispatcherCore, Moment, EnqueueResult, no_recipients, unknown_instance,
  build_failed, queued, has_no_recipients, message_id_of, job_of, queue_built, enqueue_at,
  enqueue_for_instance,
}

abbrev pub HasNoRecipients : OutboundCommand → Type 0
HasNoRecipients cmd = (cmd.to ≡ []) × (cmd.cc ≡ []) × (cmd.bcc ≡ [])

has_no_recipients_iff :
    (cmd : OutboundCommand) → (has_no_recipients cmd ≡ true) ↔ HasNoRecipients cmd
unfolding has_no_recipients
has_no_recipients_iff cmd = none_in cmd.to cmd.cc cmd.bcc
  where
    none_in :
        (to cc bcc : List Str)
        → ((elim to [
          | _ ∷ _ ↦ false
          | [] ↦ elim cc [ _ ∷ _ ↦ false | [] ↦ elim bcc [ _ ∷ _ ↦ false | [] ↦ true ] ]
        ])
            ≡ true)
          ↔ ((to ≡ []) × (cc ≡ []) × (bcc ≡ []))
    none_in [] [] [] = (λ _. (refl, refl, refl), λ _. refl)
    none_in [] [] (x ∷ xs) = ground arith
    none_in [] (x ∷ xs) bcc = ground arith
    none_in (x ∷ xs) cc bcc = ground arith

module _ (io : Storage) (lib : MimeLib) where
  abbrev id_for : OutboundCommand → Moment → InstanceState → Str
  id_for cmd moment state =
      message_id_of cmd.message_id
        (generate_message_id moment.timestamp_millis moment.uuid state.address)

  abbrev context : OutboundCommand → Moment → InstanceState → BuildContext
  context cmd moment state = record {
    message_id = id_for cmd moment state;
    from = state.address;
    date = moment.date;
  }

  -- the pending job of an id in the queue of an instance
  abbrev pub pending_in : Str → Option InstanceState → Option OutboundJob
  pending_in k none = none
  pending_in k (some s) = pending io s.queue k

  abbrev pub pending_at : DispatcherCore → Str → Str → Option OutboundJob
  pending_at core i k = pending_in k (lookup i core)

  -- The command is queued under `message_id` for an instance that is known and whose message is
  -- built, in this instance's queue alone, under this id alone, with no attempt made and due now.
  pub record IsQueued (instance_id : Str) (cmd : OutboundCommand) (moment : Moment)
      (core : DispatcherCore) (message_id : Str) (core' : DispatcherCore) : Type 0 where
    pub state : InstanceState
    pub known : lookup instance_id core ≡ some state
    pub id : message_id ≡ id_for cmd moment state
    pub raw : List ℕ
    pub built : build_mime lib (context cmd moment state) cmd ≡ some raw
    pub now_pending :
        (i k : Str)
        → pending_at core' i k ≡ (
            if str_eq instance_id i && str_eq message_id k
            then some (job_of instance_id message_id state.address cmd raw moment.timestamp)
            else pending_at core i k)

  insert-pending_at :
      (instance_id : Str) (state : InstanceState) (job : OutboundJob) (core : DispatcherCore)
      → lookup instance_id core ≡ some state
      → job.done ≡ false
      → (i k : Str)
      → pending_at
          (insert instance_id
            (record state { queue = write_all (enqueue io job) state.queue })
            core)
          i
          k
        ≡ (if str_eq instance_id i && str_eq job.message_id k
            then some job
            else pending_at core i k)
  insert-pending_at instance_id state job core known live i k =
      ap (pending_in k) (lookup-insert instance_id i _ core)
      ∙ elim (Bool-cases (str_eq instance_id i)) [
        | inl e ↦
            let same : instance_id ≡ i = (str_eq_iff instance_id i).0 e in
            let at_i = ap (pending_in k) (ap (λ x. lookup x core) (sym same) ∙ known) in
            rw (e, pending-enqueue io state.queue job k, at_i, live) refl
        | inr e ↦ rw e refl
      ]

  -- What each answer says of the command.
  abbrev pub IsAnswered : Str → OutboundCommand → Moment → DispatcherCore → EnqueueResult → Type 0
  IsAnswered instance_id cmd moment core no_recipients = HasNoRecipients cmd
  IsAnswered instance_id cmd moment core unknown_instance =
      (¬ HasNoRecipients cmd) × (lookup instance_id core ≡ none)
  IsAnswered instance_id cmd moment core build_failed =
      (¬ HasNoRecipients cmd)
      × ((state : InstanceState) × (lookup instance_id core ≡ some state)
          × (build_mime lib (context cmd moment state) cmd ≡ none))
  IsAnswered instance_id cmd moment core (queued id core') =
      (¬ HasNoRecipients cmd) × IsQueued instance_id cmd moment core id core'

  queue_built-IsAnswered :
      (instance_id : Str) (cmd : OutboundCommand) (moment : Moment) (state : InstanceState)
      (core : DispatcherCore) (o : Option (List ℕ))
      → ¬ HasNoRecipients cmd
      → lookup instance_id core ≡ some state
      → build_mime lib (context cmd moment state) cmd ≡ o
      → IsAnswered instance_id cmd moment core (
          queue_built io lib instance_id
            (id_for cmd moment state)
            cmd
            moment.timestamp
            o
            state
            core)
  unfolding queue_built
  queue_built-IsAnswered instance_id cmd moment state core none some_to known built =
      (some_to, (state, known, built))
  queue_built-IsAnswered instance_id cmd moment state core (some raw) some_to known built = (
    some_to,
    record {
      state = state;
      known = known;
      id = refl;
      raw = raw;
      built = built;
      now_pending = insert-pending_at instance_id state _ core known refl;
    },
  )

  enqueue_at-IsAnswered :
      (instance_id : Str) (cmd : OutboundCommand) (moment : Moment) (core : DispatcherCore)
      (o : Option InstanceState)
      → ¬ HasNoRecipients cmd
      → lookup instance_id core ≡ o
      → IsAnswered instance_id cmd moment core (enqueue_at io lib instance_id cmd moment o core)
  unfolding enqueue_at
  enqueue_at-IsAnswered instance_id cmd moment core none some_to e = (some_to, e)
  enqueue_at-IsAnswered instance_id cmd moment core (some state) some_to e =
      queue_built-IsAnswered instance_id cmd moment state core _ some_to e refl

  -- A command without recipients is refused; else one for an instance that is not known; else one
  -- whose message is not built. Any other is pending in the queue of its instance, under the id
  -- that is returned, with no attempt made; and nothing else changes in any queue.
  pub enqueue_for_instance_lem :
      (instance_id : Str) (cmd : OutboundCommand) (moment : Moment) (core : DispatcherCore)
      → IsAnswered instance_id cmd moment core
          (enqueue_for_instance io lib instance_id cmd moment core)
  unfolding enqueue_for_instance
  enqueue_for_instance_lem instance_id cmd moment core = go (has_no_recipients cmd) refl
    where
      go :
          (b : Bool)
          → has_no_recipients cmd ≡ b
          → IsAnswered instance_id cmd moment core (elim b [
            | true ↦ no_recipients
            | false ↦ enqueue_at io lib instance_id cmd moment (lookup instance_id core) core
          ])
      go true e = (has_no_recipients_iff cmd).0 e
      go false e =
          enqueue_at-IsAnswered instance_id cmd moment core _
            (λ h. ground (arith, (has_no_recipients_iff cmd).1 h)) refl
