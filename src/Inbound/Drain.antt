-- ===== src/Inbound/Drain.antt =====
-- src/inbound.rs: a run of `drain_pending`, by what it publishes and where the cursor stands.
use mathlib.Core.List.{append_assoc, append-nil}
use nexo_plugin_email.Base.{
  ℕ, Bool, true, false, Option, none, some, List, [], ◌∷◌, ◌++◌, ◌≡◌, ◌≢◌, ◌⊎◌, inl, inr, refl, sym,
  ap, ◌∙◌, arith, if◌then◌else◌, Bool-cases, lookup-insert_same, str_is_eq, subst,
}
use nexo_plugin_email.Events.{InboundEvent}
use nexo_plugin_email.Dsn.{BounceEvent, MailParser}
use nexo_plugin_email.CursorStore.{UidCursor, get, set}
use nexo_plugin_email.Inbound.{
  FetchedMessage, ParsedMail, Mailbox, InboundCfg, InboundWorker, Verdict, bounced, skipped,
  delivered, verdict_of, note_parse, settle, advance, handle_message, drain_uids, drain_pending,
}

-- The event of a verdict, and the bounce of one if the broker takes it.
abbrev pub event_in : Verdict → List InboundEvent
event_in (delivered event) = event ∷ []
event_in _ = []

abbrev pub bounce_in : Mailbox → Verdict → List BounceEvent
bounce_in box (bounced event) = if box.publish_bounce event then event ∷ [] else []
bounce_in box _ = []

abbrev pub last_or : ℕ → List ℕ → ℕ
last_or u [] = u
last_or u (d ∷ ds) = last_or d ds

abbrev pub uid_of : Option UidCursor → Option ℕ
uid_of none = none
uid_of (some c) = some c.last_uid

abbrev pub moved_to : List ℕ → Option ℕ → Option ℕ
moved_to done none = none
moved_to done (some u) = some (last_or u done)

module _ (box : Mailbox) (parser : MailParser) (cfg : InboundCfg) where
  -- What a message that was fetched adds to the two logs, by its verdict alone.
  abbrev pub events_at : Option FetchedMessage → List InboundEvent
  events_at none = []
  events_at (some msg) = event_in (verdict_of box parser cfg msg)

  abbrev pub bounces_at : Option FetchedMessage → List BounceEvent
  bounces_at none = []
  bounces_at (some msg) = bounce_in box (verdict_of box parser cfg msg)

  abbrev pub events_of : List ℕ → List InboundEvent
  events_of [] = []
  events_of (uid ∷ uids) = events_at (box.fetch_uid uid) ++ events_of uids

  abbrev pub bounces_of : List ℕ → List BounceEvent
  bounces_of [] = []
  bounces_of (uid ∷ uids) = bounces_at (box.fetch_uid uid) ++ bounces_of uids

  abbrev pub cursor_uid : InboundWorker → Option ℕ
  cursor_uid w = uid_of (get cfg.instance_id w.cursor)

  -- The uids `done`, and no others, were dealt with: each added its event, or its bounce if the
  -- broker takes it, to the logs, in order and once, and the cursor stands at the last of them.
  pub record IsDrained (done : List ℕ) (w w' : InboundWorker) : Type 0 where
    pub published : w'.published ≡ w.published ++ events_of done
    pub bounce_events : w'.bounce_events ≡ w.bounce_events ++ bounces_of done
    pub cursor : cursor_uid w' ≡ moved_to done (cursor_uid w)

  -- One message: on success its event or its bounce is added, on an error nothing.
  record IsHandled (o : Option FetchedMessage) (w : InboundWorker) (r : Bool × InboundWorker)
      : Type 0 where
    published : r.1.published ≡ w.published ++ (if r.0 then events_at o else [])
    bounce_events : r.1.bounce_events ≡ w.bounce_events ++ (if r.0 then bounces_at o else [])
    cursor : r.1.cursor ≡ w.cursor

  settle-IsHandled :
      (now : ℕ) (v : Verdict) (w : InboundWorker)
      → ((settle box parser cfg now v w).1.published
          ≡ w.published ++ (if (settle box parser cfg now v w).0 then event_in v else []))
        × ((settle box parser cfg now v w).1.bounce_events
            ≡ w.bounce_events
              ++ (if (settle box parser cfg now v w).0 then bounce_in box v else []))
        × ((settle box parser cfg now v w).1.cursor ≡ w.cursor)
  unfolding settle
  settle-IsHandled now (bounced event) w = elim (Bool-cases (box.publish_bounce event)) [
    | inl e ↦ (sym (append-nil w.published), rw e refl, refl)
    | inr e ↦ (sym (append-nil w.published), rw e (sym (append-nil w.bounce_events)), refl)
  ]
  settle-IsHandled now (skipped label) w =
      (sym (append-nil w.published), sym (append-nil w.bounce_events), refl)
  settle-IsHandled now (delivered event) w = elim (Bool-cases (box.publish event)) [
    | inl e ↦ rw e (refl, sym (append-nil w.bounce_events), refl)
    | inr e ↦ rw e (sym (append-nil w.published), sym (append-nil w.bounce_events), refl)
  ]

  note_parse-logs :
      (now : ℕ) (o : Option ParsedMail) (w : InboundWorker)
      → ((note_parse box parser cfg now o w).published ≡ w.published)
        × ((note_parse box parser cfg now o w).bounce_events ≡ w.bounce_events)
        × ((note_parse box parser cfg now o w).cursor ≡ w.cursor)
  unfolding note_parse
  note_parse-logs now none w = (refl, refl, refl)
  note_parse-logs now (some p) w = (refl, refl, refl)

  handle_message-IsHandled :
      (uid : ℕ) (o : Option FetchedMessage) (w : InboundWorker)
      → IsHandled o w (handle_message box parser cfg uid o w)
  unfolding handle_message
  handle_message-IsHandled uid none w = record {
    published = sym (append-nil w.published);
    bounce_events = sym (append-nil w.bounce_events);
    cursor = refl;
  }
  handle_message-IsHandled uid (some msg) w =
      let noted = note_parse box parser cfg (box.now uid) (box.parse_eml msg) w in
      let (same_p, same_b, same_c) = note_parse-logs (box.now uid) (box.parse_eml msg) w in
      let (p, b, c) = settle-IsHandled (box.now uid) (verdict_of box parser cfg msg) noted in
      record {
        published = p ∙ ap (λ l. l ++ logged event_in) same_p;
        bounce_events = b ∙ ap (λ l. l ++ logged (bounce_in box)) same_b;
        cursor = c ∙ same_c;
      }
    where
      logged : {A : Type 0} → (Verdict → List A) → List A
      logged log =
          if (settle box parser cfg (box.now uid) (verdict_of box parser cfg msg)
            (note_parse box parser cfg (box.now uid) (box.parse_eml msg) w)).0
          then log (verdict_of box parser cfg msg)
          else []

  advance-logs :
      (uid : ℕ) (o : Option UidCursor) (w : InboundWorker)
      → get cfg.instance_id w.cursor ≡ o
      → ((advance box parser cfg uid o w).published ≡ w.published)
        × ((advance box parser cfg uid o w).bounce_events ≡ w.bounce_events)
        × (cursor_uid (advance box parser cfg uid o w) ≡ moved_to (uid ∷ []) (uid_of o))
  unfolding advance get set
  advance-logs uid none w e = (refl, refl, ap uid_of e)
  advance-logs uid (some c) w e =
      (refl, refl, ap uid_of (lookup-insert_same cfg.instance_id _ w.cursor))

  nothing-IsDrained :
      (w w' : InboundWorker)
      → w'.published ≡ w.published
      → w'.bounce_events ≡ w.bounce_events
      → w'.cursor ≡ w.cursor
      → IsDrained [] w w'
  nothing-IsDrained w w' p b c = record {
    published = p ∙ sym (append-nil w.published);
    bounce_events = b ∙ sym (append-nil w.bounce_events);
    cursor = ap (λ t. uid_of (get cfg.instance_id t)) c ∙ same (cursor_uid w);
  }
    where
      same : (o : Option ℕ) → o ≡ moved_to [] o
      same none = refl
      same (some u) = refl

  moved_twice :
      (uid : ℕ) (done : List ℕ) (o : Option ℕ)
      → moved_to done (moved_to (uid ∷ []) o) ≡ moved_to (uid ∷ done) o
  moved_twice uid done none = refl
  moved_twice uid done (some u) = refl

  -- One message that was dealt with, and the rest of the run.
  then-IsDrained :
      (uid : ℕ) (done : List ℕ) (w w' final : InboundWorker)
      → IsHandled (box.fetch_uid uid) w (true, w')
      → IsDrained done (advance box parser cfg uid (get cfg.instance_id w'.cursor) w') final
      → IsDrained (uid ∷ done) w final
  then-IsDrained uid done w w' final h d =
      let (same_p, same_b, moved) = advance-logs uid (get cfg.instance_id w'.cursor) w' refl in
      record {
        published =
            d.published
            ∙ ap (λ l. l ++ events_of done) (same_p ∙ h.published)
            ∙ append_assoc w.published (events_at (box.fetch_uid uid)) (events_of done);
        bounce_events =
            d.bounce_events
            ∙ ap (λ l. l ++ bounces_of done) (same_b ∙ h.bounce_events)
            ∙ append_assoc w.bounce_events (bounces_at (box.fetch_uid uid)) (bounces_of done);
        cursor =
            d.cursor
            ∙ ap (moved_to done)
                (moved ∙ ap (λ t. moved_to (uid ∷ []) (uid_of (get cfg.instance_id t))) h.cursor)
            ∙ moved_twice uid done (cursor_uid w);
      }

  -- How a run over `uids` from `w` ended: all were dealt with, or an error stopped it before one.
  pub record IsRun (uids : List ℕ) (highest : ℕ) (w : InboundWorker) (r : Option ℕ × InboundWorker)
      : Type 0 where
    pub done : List ℕ
    pub rest : List ℕ
    pub split : uids ≡ done ++ rest
    pub drained : IsDrained done w r.1
    pub ended : ((rest ≡ []) × (r.0 ≡ some (last_or highest done))) ⊎ ((rest ≢ []) × (r.0 ≡ none))

  drain_uids-IsRun :
      (uids : List ℕ) (highest : ℕ) (w : InboundWorker)
      → IsRun uids highest w (drain_uids box parser cfg uids highest w)
  unfolding drain_uids
  drain_uids-IsRun [] highest w = record {
    done = [];
    rest = [];
    split = refl;
    drained = nothing-IsDrained w w refl refl refl;
    ended = inl (refl, refl);
  }
  drain_uids-IsRun (uid ∷ uids) highest w =
      let handled = handle_message box parser cfg uid (box.fetch_uid uid) w in
      let next = advance box parser cfg uid (get cfg.instance_id handled.1.cursor) handled.1 in
      after handled.0 handled.1 (handle_message-IsHandled uid (box.fetch_uid uid) w)
        (drain_uids-IsRun uids uid next)
    where
      after :
          (ok : Bool) (w' : InboundWorker)
          → IsHandled (box.fetch_uid uid) w (ok, w')
          → IsRun uids uid (advance box parser cfg uid (get cfg.instance_id w'.cursor) w') (
              drain_uids box parser cfg uids uid
                (advance box parser cfg uid (get cfg.instance_id w'.cursor) w'))
          → IsRun (uid ∷ uids) highest w (
              if ok
              then drain_uids box parser cfg uids uid
                  (advance box parser cfg uid (get cfg.instance_id w'.cursor) w')
              else (none, w'))
      after true w' h run = record {
        done = uid ∷ run.done;
        rest = run.rest;
        split = ap (λ l. uid ∷ l) run.split;
        drained = then-IsDrained uid run.done w w' _ h run.drained;
        ended = run.ended;
      }
      after false w' h run = record {
        done = [];
        rest = uid ∷ uids;
        split = refl;
        drained =
            nothing-IsDrained w w' (h.published ∙ append-nil w.published)
              (h.bounce_events ∙ append-nil w.bounce_events) h.cursor;
        ended = inr (ground arith, refl);
      }

  -- Of the uids that the server lists, a first part is dealt with, in order: each message of it that
  -- comes to an event adds it to what the broker got, once; each that comes to a bounce adds that
  -- once if the broker takes it, and nothing if the broker refuses it; and nothing else is
  -- published. The cursor of the account, if there is one, stands at the last of that part, refused
  -- bounces included. The run answers with that uid when the part is the whole list, and with an
  -- error otherwise.
  pub drain_pending_lem :
      (last_uid : ℕ) (uids : List ℕ) (w : InboundWorker)
      → box.search_since last_uid ≡ some uids
      → IsRun uids last_uid w (drain_pending box parser cfg last_uid w)
  unfolding drain_pending
  drain_pending_lem last_uid uids w e =
      subst
        (λ o.
          IsRun uids last_uid w
            (elim o [ none ↦ (none, w) | some us ↦ drain_uids box parser cfg us last_uid w ]))
        (sym e) (drain_uids-IsRun uids last_uid w)
