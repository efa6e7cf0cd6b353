-- ===== src/BounceStore.antt =====
-- src/bounce_store.rs: the bounces of each recipient. The table is a map from its primary key,
-- instance and normalised recipient; counts stay far below 2 ^ 63.
pub mod Record
pub mod Prune
pub mod Summary
use nexo_plugin_email.Base.{
  ℕ, ◌+◌, ◌-◌, min, ◌^◌, Str, Bool, true, false, Option, none, some, List, [], ◌∷◌, ◌==◌, ◌&&◌, ltb,
  not, if◌then◌else◌, any, filter_by, length, Map, lookup, insert, str_is_eq, str_eq, str_eq_iff,
  Eq, trim, trim_start, trim_end, is_whitespace, to_ascii_lowercase, codes, arith, ◌≡◌, ◌↔◌,
}
use nexo_plugin_email.Dsn.{BounceClassification, permanent, transient, unknown, BounceEvent}

abbrev pub BounceKey : Type 0
BounceKey = Str × Str

abbrev pub key_eq : BounceKey → BounceKey → Bool
key_eq (i, r) (j, s) = str_eq i j && str_eq r s

pub key_eq_iff : (a b : BounceKey) → (key_eq a b ≡ true) ↔ (a ≡ b)
key_eq_iff (i, r) (j, s) = ground (arith, str_eq_iff i j, str_eq_iff r s)

instance abbrev pub key_is_eq : Eq BounceKey
key_is_eq = record { beq = key_eq; beq_iff = key_eq_iff }

-- The columns behind the key.
pub record BounceRow : Type 0 where
  pub classification : Str
  pub status_code : Option Str
  pub action : Option Str
  pub last_seen : ℕ
  pub count : ℕ

abbrev pub BounceTable : Type 0
BounceTable = Map BounceKey BounceRow

pub record RecipientStatus : Type 0 where
  pub instance_id : Str
  pub recipient : Str
  pub classification : BounceClassification
  pub status_code : Option Str
  pub action : Option Str
  pub last_seen : ℕ
  pub count : ℕ

unfoldable pub classification_label : BounceClassification → Str
classification_label permanent = codes "permanent"
classification_label transient = codes "transient"
classification_label unknown = codes "unknown"

unfoldable pub classification_from_label : Str → BounceClassification
unfolding str_eq
classification_from_label s =
    if str_eq s (codes "permanent")
    then permanent
    else if str_eq s (codes "transient")
    then transient
    else unknown

unfoldable pub normalised : Str → Str
unfolding trim_end trim_start is_whitespace to_ascii_lowercase
normalised recipient = to_ascii_lowercase (trim recipient)

-- the row that the upsert leaves
unfoldable pub upserted : BounceEvent → ℕ → Option BounceRow → BounceRow
unfolding classification_label
upserted event now none = record {
  classification = classification_label event.classification;
  status_code = event.status_code;
  action = event.action;
  last_seen = now;
  count = 1;
}
upserted event now (some old) = record {
  classification = classification_label event.classification;
  status_code = event.status_code;
  action = event.action;
  last_seen = now;
  count = old.count + 1;
}

-- from the normalised recipient on
unfoldable pub record_at : BounceEvent → ℕ → Str → BounceTable → BounceTable
unfolding upserted lookup insert
record_at event now [] t = t
record_at event now (c ∷ r) t =
    let key : BounceKey = (event.instance_id, c ∷ r) in
    insert key (upserted event now (lookup key t)) t

unfoldable pub record_bounce : BounceEvent → ℕ → BounceTable → BounceTable
unfolding record_at normalised
record_bounce event now t = elim (event.recipient) [
  | none ↦ t
  | some recipient ↦ record_at event now (normalised recipient) t
]

unfoldable pub status_of : Str → Str → Option BounceRow → Option RecipientStatus
unfolding classification_from_label
status_of instance_id recipient none = none
status_of instance_id recipient (some r) = some (record {
  instance_id = instance_id;
  recipient = recipient;
  classification = classification_from_label r.classification;
  status_code = r.status_code;
  action = r.action;
  last_seen = r.last_seen;
  count = r.count;
})

unfoldable pub get : Str → Str → BounceTable → Option RecipientStatus
unfolding status_of lookup normalised
get instance_id recipient t =
    status_of instance_id (normalised recipient) (lookup (instance_id, normalised recipient) t)

-- `DELETE … WHERE last_seen < ?` and `DELETE … WHERE instance NOT IN (…)` by what they keep
unfoldable pub is_recent : ℕ → BounceKey × BounceRow → Bool
is_recent cutoff ((i, r), row) = not (ltb row.last_seen cutoff)

unfoldable pub is_kept_instance : List Str → BounceKey × BounceRow → Bool
unfolding any str_eq
is_kept_instance kept ((i, r), row) = any (str_eq i) kept

-- the rows that are left, and how many went
unfoldable pub delete_all_but : (BounceKey × BounceRow → Bool) → BounceTable → BounceTable × ℕ
unfolding filter_by
delete_all_but keep t = (filter_by keep t, length t - length (filter_by keep t))

abbrev pub u64_saturated : ℕ → ℕ
u64_saturated n = min n (2 ^ 64 - 1)

unfoldable pub prune_by_age : ℕ → ℕ → BounceTable → BounceTable × ℕ
unfolding delete_all_but is_recent
prune_by_age retention_secs now t =
    if retention_secs == 0 then (t, 0) else delete_all_but (is_recent (now - retention_secs)) t

unfoldable pub prune_by_instance : List Str → BounceTable → BounceTable × ℕ
unfolding delete_all_but is_kept_instance
prune_by_instance [] t = (t, 0)
prune_by_instance (i ∷ kept) t = delete_all_but (is_kept_instance (i ∷ kept)) t

-- the table and the number that is returned
unfoldable pub prune : ℕ → List Str → ℕ → BounceTable → BounceTable × ℕ
unfolding prune_by_age prune_by_instance
prune retention_secs kept_instances now t =
    let aged = prune_by_age retention_secs now t in
    let kept = prune_by_instance kept_instances aged.0 in
    (kept.0, u64_saturated (u64_saturated aged.1 + kept.1))
