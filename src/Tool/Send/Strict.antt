-- ===== src/Tool/Send/Strict.antt =====
-- src/tool/send.rs: when a message is refused for a bounce of a recipient.
use nexo_plugin_email.Base.{
  Str, Bool, true, false, ◌&&◌, ◌||◌, Option, none, some, List, [], ◌∷◌, ◌++◌, ◌≡◌, refl, sym, ap,
  ◌∙◌, arith, any, filter_by, Elem, inl, inr, ℕ, if◌then◌else◌,
}
use nexo_plugin_email.BounceStore
use nexo_plugin_email.BounceStore.Record.{is_about, next_status, record_bounce_lem}
use nexo_plugin_email.BounceStore.{BounceTable, RecipientStatus, record_bounce}
use nexo_plugin_email.Dispatcher.Enqueue.{IsAnswered, enqueue_for_instance_lem}
use nexo_plugin_email.Dispatcher.{DispatcherCore, Moment}
use nexo_plugin_email.Dsn.{BounceEvent, permanent, transient, unknown}
use nexo_plugin_email.MimeBuild.{MimeLib}
use nexo_plugin_email.OutboundQueue.{Storage}
use nexo_plugin_email.Reload.{EmailAccountConfig, find_account}
use nexo_plugin_email.Tool.Send.{
  SendArgs, RecipientWarning, BounceReader, query_bounce, warning_of, warnings_of,
  collect_recipient_warnings, is_permanent, is_permanent_class, command_of, SendReply,
  unknown_account, refused, dispatched, blocking, run_checked, run_for, run,
}

-- Whether a query succeeds and the last bounce that it gives was permanent.
abbrev pub is_dead : Option (Option RecipientStatus) → Bool
is_dead none = false
is_dead (some none) = false
is_dead (some (some s)) = elim (s.classification) [
  | permanent ↦ true
  | transient ↦ false
  | unknown ↦ false
]

abbrev pub has_dead : Option BounceReader → Str → List Str → Bool
has_dead none id rs = false
has_dead (some store) id rs = any (λ r. is_dead (query_bounce store id r)) rs

abbrev pub recipients : SendArgs → List Str
recipients args = args.to ++ args.cc ++ args.bcc

abbrev has_some : List RecipientWarning → Bool
has_some [] = false
has_some (w ∷ ws) = true

has_some-warning_of :
    (r : Str) (o : Option (Option RecipientStatus)) (ws : List RecipientWarning)
    → has_some (filter_by is_permanent (warning_of r o ++ ws))
      ≡ (is_dead o || has_some (filter_by is_permanent ws))
unfolding warning_of filter_by
has_some-warning_of r none ws = refl
has_some-warning_of r (some none) ws = refl
has_some-warning_of r (some (some s)) ws = one (is_permanent_class s.classification)
  where
    one :
        (b : Bool)
        → has_some (
            if b
            then record {
              recipient = r;
              classification = s.classification;
              status_code = s.status_code;
              last_seen = s.last_seen;
              count = s.count;
            }
              ∷ filter_by is_permanent ws
            else filter_by is_permanent ws)
          ≡ (b || has_some (filter_by is_permanent ws))
    one true = refl
    one false = refl

has_some-warnings_of :
    (store : BounceReader) (id : Str) (rs : List Str)
    → has_some (filter_by is_permanent (warnings_of store id rs)) ≡ has_dead (some store) id rs
unfolding warnings_of any filter_by
has_some-warnings_of store id [] = refl
has_some-warnings_of store id (r ∷ rs) =
    has_some-warning_of r (query_bounce store id r) (warnings_of store id rs)
    ∙ ap (λ b. is_dead (query_bounce store id r) || b) (has_some-warnings_of store id rs)

has_some-blocking :
    (strict : Bool) (bounces : Option BounceReader) (args : SendArgs)
    → has_some (
        blocking strict
          (collect_recipient_warnings bounces args.instance_id args.to args.cc args.bcc))
      ≡ (strict && has_dead bounces args.instance_id (recipients args))
unfolding blocking collect_recipient_warnings filter_by
has_some-blocking false bounces args = refl
has_some-blocking true none args = refl
has_some-blocking true (some store) args =
    has_some-warnings_of store args.instance_id (recipients args)

module _ (io : Storage) (lib : MimeLib) where
  -- What an answer says of the call.
  abbrev pub IsReply :
      List EmailAccountConfig
      → SendArgs
      → Moment
      → Option BounceReader
      → DispatcherCore
      → SendReply
      → Type 0
  IsReply accounts args moment bounces core unknown_account =
      find_account args.instance_id accounts ≡ none
  IsReply accounts args moment bounces core (refused ws) =
      (args.strict_bounce_check ≡ true)
      × (has_dead bounces args.instance_id (recipients args) ≡ true)
  IsReply accounts args moment bounces core (dispatched answer ws) =
      ((args.strict_bounce_check && has_dead bounces args.instance_id (recipients args)) ≡ false)
      × (ws ≡ collect_recipient_warnings bounces args.instance_id args.to args.cc args.bcc)
      × IsAnswered io lib args.instance_id (command_of args) moment core answer

  run_checked_lem :
      (accounts : List EmailAccountConfig) (args : SendArgs) (moment : Moment)
      (bounces : Option BounceReader) (core : DispatcherCore) (block : List RecipientWarning)
      → has_some block
        ≡ (args.strict_bounce_check && has_dead bounces args.instance_id (recipients args))
      → IsReply accounts args moment bounces core (
          run_checked io lib args moment core
            (collect_recipient_warnings bounces args.instance_id args.to args.cc args.bcc)
            block)
  unfolding run_checked
  run_checked_lem accounts args moment bounces core (w ∷ ws) h = (ground arith, ground arith)
  run_checked_lem accounts args moment bounces core [] h =
      (sym h, refl, enqueue_for_instance_lem io lib args.instance_id (command_of args) moment core)

  pub run_lem :
      (accounts : List EmailAccountConfig) (args : SendArgs) (moment : Moment)
      (bounces : Option BounceReader) (core : DispatcherCore)
      → IsReply accounts args moment bounces core (run io lib accounts args moment bounces core)
  unfolding run
  run_lem accounts args moment bounces core = answered (find_account args.instance_id accounts) refl
    where
      answered :
          (o : Option EmailAccountConfig)
          → find_account args.instance_id accounts ≡ o
          → IsReply accounts args moment bounces core (run_for io lib o args moment bounces core)
      answered none e = unfold run_for in e
      answered (some account) e =
          unfold run_for in
          run_checked_lem accounts args moment bounces core
            (blocking args.strict_bounce_check
              (collect_recipient_warnings bounces args.instance_id args.to args.cc args.bcc))
            (has_some-blocking args.strict_bounce_check bounces args)

  any-Elem : (p : Str → Bool) (r : Str) (rs : List Str) → Elem r rs → p r ≡ true → any p rs ≡ true
  unfolding any
  any-Elem p r [] i h = elim i [ ]
  any-Elem p r (x ∷ rs) (inl e) h = rw (← e, h) refl
  any-Elem p r (x ∷ rs) (inr i) h = ground (arith, any-Elem p r rs i h)

  abbrev pub IsRefused : SendReply → Type 0
  IsRefused s = (ws : List RecipientWarning) × (s ≡ refused ws)

  reply-IsRefused :
      (accounts : List EmailAccountConfig) (args : SendArgs) (moment : Moment)
      (bounces : Option BounceReader) (core : DispatcherCore) (account : EmailAccountConfig)
      (s : SendReply)
      → IsReply accounts args moment bounces core s
      → find_account args.instance_id accounts ≡ some account
      → args.strict_bounce_check ≡ true
      → has_dead bounces args.instance_id (recipients args) ≡ true
      → IsRefused s
  reply-IsRefused accounts args moment bounces core account unknown_account h known strict dead =
      absurd (cc)
  reply-IsRefused accounts args moment bounces core account (refused ws) h known strict dead =
      (ws, refl)
  reply-IsRefused accounts args moment bounces core account (dispatched a ws) (open_, same, ok)
        known strict dead =
      absurd (ground (arith, open_, strict, dead))

  -- After a permanent bounce is recorded, a strict call of a configured instance with a recipient
  -- that the bounce is about, whatever the case and the outer blanks of its address, is refused if
  -- the query of the bounce store for that recipient succeeds.
  pub record_bounce-run :
      (accounts : List EmailAccountConfig) (args : SendArgs) (moment : Moment)
      (core : DispatcherCore) (account : EmailAccountConfig) (event : BounceEvent) (now : ℕ)
      (r : Str) (table : BounceTable) (reads : Str → Bool)
      → reads r ≡ true
      → find_account args.instance_id accounts ≡ some account
      → args.strict_bounce_check ≡ true
      → event.classification ≡ permanent
      → is_about event args.instance_id r ≡ true
      → Elem r (recipients args)
      → IsRefused (
          run io lib accounts args moment
            (some (record { table = record_bounce event now table; reads = reads }))
            core)
  record_bounce-run accounts args moment core account event now r table reads readable known strict
        dead about there =
      let store : BounceReader = record { table = record_bounce event now table; reads = reads } in
      reply-IsRefused accounts args moment (some store) core account _
        (run_lem accounts args moment (some store) core) known strict
        (any-Elem (λ x. is_dead (query_bounce store args.instance_id x)) r (recipients args) there
          (is_dead-query reads r (record_bounce event now table) readable
            ∙ ap (λ o. is_dead (some o)) (record_bounce_lem event now args.instance_id r table)
            ∙ known_dead (BounceStore.get args.instance_id r table)))
    where
      is_dead-query :
          (reads : Str → Bool) (r : Str) (table : BounceTable)
          → reads r ≡ true
          → is_dead (query_bounce (record { table = table; reads = reads }) args.instance_id r)
            ≡ is_dead (some (BounceStore.get args.instance_id r table))
      is_dead-query reads r table readable = unfold query_bounce in rw readable refl

      known_dead :
          (o : Option RecipientStatus)
          → is_dead (
              some (
                if is_about event args.instance_id r
                then some (next_status event now args.instance_id r o)
                else o))
            ≡ true
      known_dead o = unfold next_status in rw (about, dead) refl
