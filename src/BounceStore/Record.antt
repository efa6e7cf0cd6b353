-- ===== src/BounceStore/Record.antt =====
-- src/bounce_store.rs: what `get` answers after `record`.
use nexo_plugin_email.Base.{
  ℕ, ◌+◌, Str, Bool, true, false, Option, none, some, [], ◌∷◌, ◌≡◌, refl, ap, ◌∙◌, if◌then◌else◌,
  ◌&&◌, Bool-cases, inl, inr, lookup, str_eq, lookup-insert,
}
use nexo_plugin_email.Dsn.{BounceClassification, permanent, transient, unknown, BounceEvent}
use nexo_plugin_email.BounceStore.{
  BounceKey, BounceRow, BounceTable, RecipientStatus, key_is_eq, key_eq, key_eq_iff,
  classification_label, classification_from_label, normalised, upserted, record_at, record_bounce,
  status_of, get,
}

classification_from_label-label :
    (c : BounceClassification) → classification_from_label (classification_label c) ≡ c
unfolding classification_from_label classification_label str_eq
classification_from_label-label permanent = refl
classification_from_label-label transient = refl
classification_from_label-label unknown = refl

-- A bounce is about a recipient of an instance when that is the instance, and the trimmed
-- recipients are the same but for the case of ASCII letters, and not empty.
is_about_text : Str → Str → Bool
unfolding str_eq
is_about_text [] r = false
is_about_text (c ∷ q) r = str_eq (c ∷ q) r

unfoldable pub is_about : BounceEvent → Str → Str → Bool
unfolding is_about_text str_eq
is_about event i r = elim (event.recipient) [
  | none ↦ false
  | some q ↦ str_eq event.instance_id i && is_about_text (normalised q) (normalised r)
]

count_of : Option RecipientStatus → ℕ
count_of none = 0
count_of (some s) = s.count

-- the status after one more bounce
unfoldable pub next_status : BounceEvent → ℕ → Str → Str → Option RecipientStatus → RecipientStatus
unfolding count_of
next_status event now i r old = record {
  instance_id = i;
  recipient = normalised r;
  classification = event.classification;
  status_code = event.status_code;
  action = event.action;
  last_seen = now;
  count = count_of old + 1;
}

status_of-upserted :
    (event : BounceEvent) (now : ℕ) (i r : Str) (o : Option BounceRow)
    → status_of i (normalised r) (some (upserted event now o))
      ≡ some (next_status event now i r (status_of i (normalised r) o))
unfolding status_of upserted next_status count_of
status_of-upserted event now i r none =
    rw (classification_from_label-label event.classification) refl
status_of-upserted event now i r (some old) =
    rw (classification_from_label-label event.classification) refl

get-record_at :
    (event : BounceEvent) (now : ℕ) (q i r : Str) (t : BounceTable)
    → get i r (record_at event now q t) ≡ (
        if str_eq event.instance_id i && is_about_text q (normalised r)
        then some (next_status event now i r (get i r t))
        else get i r t)
unfolding get record_at is_about_text
get-record_at event now [] i r t = elim (Bool-cases (str_eq event.instance_id i)) [
  | inl e ↦ rw e refl
  | inr e ↦ rw e refl
]
get-record_at event now (c ∷ q) i r t =
    let key : BounceKey = (event.instance_id, c ∷ q) in
    let key' : BounceKey = (i, normalised r) in
    ap (status_of i (normalised r)) (lookup-insert key key' (upserted event now (lookup key t)) t)
    ∙ after (key_eq key key') refl
  where
    after :
        (b : Bool)
        → key_eq (event.instance_id, c ∷ q) (i, normalised r) ≡ b
        → status_of i (normalised r) (
            if b
            then some (upserted event now (lookup (event.instance_id, c ∷ q) t))
            else lookup (i, normalised r) t)
          ≡ (if b then some (next_status event now i r (get i r t)) else get i r t)
    after true e =
        status_of-upserted event now i r _
        ∙ ap (λ k. some (next_status event now i r (status_of i (normalised r) (lookup k t))))
            ((key_eq_iff (event.instance_id, c ∷ q) (i, normalised r)).0 e)
    after false e = refl

-- After a bounce, what is known of a recipient that it is about is its class, code, action and
-- time, and one bounce more than before; of any other recipient what was known before. A bounce
-- without a recipient is about none.
pub record_bounce_lem :
    (event : BounceEvent) (now : ℕ) (i r : Str) (t : BounceTable)
    → get i r (record_bounce event now t)
      ≡ (if is_about event i r then some (next_status event now i r (get i r t)) else get i r t)
unfolding record_bounce is_about
record_bounce_lem event now i r t = by_recipient (event.recipient)
  where
    by_recipient :
        (o : Option Str)
        → get i r (elim o [ none ↦ t | some q ↦ record_at event now (normalised q) t ]) ≡ (
            if (elim o [
              | none ↦ false
              | some q ↦ str_eq event.instance_id i && is_about_text (normalised q) (normalised r)
            ])
            then some (next_status event now i r (get i r t))
            else get i r t)
    by_recipient none = refl
    by_recipient (some q) = get-record_at event now (normalised q) i r t
