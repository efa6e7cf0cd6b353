-- ===== src/BounceStore/Summary.antt =====
-- src/bounce_store.rs: `summary`. A query is what it selects; where SQL leaves an order open, the
-- rows come in that of the table.
pub mod Top
pub mod Totals
pub mod Classes
pub mod Listed
use nexo_plugin_email.Base.{
  ℕ, zero, suc, ◌+◌, ◌-◌, min, ◌^◌, Str, Bool, true, false, Option, none, some, List, [], ◌∷◌, ◌==◌,
  ◌&&◌, ◌||◌, ltb, not, if◌then◌else◌, filter_by, map, take, Map, lookup, insert, str_is_eq, str_eq,
  sort_by, str_leb, codes,
}
use nexo_plugin_email.BounceStore.{
  BounceKey, key_is_eq, BounceRow, BounceTable, RecipientStatus, classification_from_label,
}
use nexo_plugin_email.Metrics.Counters.{or_zero}

pub record InstanceSummary : Type 0 where
  pub instance_id : Str
  pub permanent_rows : ℕ
  pub transient_rows : ℕ
  pub unknown_rows : ℕ
  pub total_rows : ℕ
  pub top_recipients : List RecipientStatus

-- `WHERE instance = ?`
unfoldable pub is_selected : Option Str → BounceKey × BounceRow → Bool
unfolding str_eq
is_selected none row = true
is_selected (some inst) ((i, r), row) = str_eq i inst

-- `SELECT instance, classification, COUNT(*) … GROUP BY instance, classification`
unfoldable pub count_groups : BounceTable → Map BounceKey ℕ
unfolding lookup insert str_eq
count_groups [] = []
count_groups (((i, r), row) ∷ t) =
    let rest = count_groups t in
    let key : BounceKey = (i, row.classification) in
    insert key (suc (or_zero (lookup key rest))) rest

abbrev pub empty_summary : Str → InstanceSummary
empty_summary inst = record {
  instance_id = inst;
  permanent_rows = 0;
  transient_rows = 0;
  unknown_rows = 0;
  total_rows = 0;
  top_recipients = [];
}

unfoldable pub set_class : Str → ℕ → InstanceSummary → InstanceSummary
unfolding str_eq
set_class class_label n s =
    if str_eq class_label (codes "permanent")
    then record s { permanent_rows = n }
    else if str_eq class_label (codes "transient")
    then record s { transient_rows = n }
    else if str_eq class_label (codes "unknown")
    then record s { unknown_rows = n }
    else s

-- an i64
abbrev pub saturated : ℕ → ℕ
saturated n = min n (2 ^ 63 - 1)

unfoldable pub add_group : Str → ℕ → InstanceSummary → InstanceSummary
unfolding set_class
add_group class_label n s = record (set_class class_label n s) {
  total_rows = saturated ((set_class class_label n s).total_rows + n);
}

abbrev pub entry_or_empty : Str → Option InstanceSummary → InstanceSummary
entry_or_empty inst none = empty_summary inst
entry_or_empty inst (some s) = s

unfoldable pub fold_groups : Map BounceKey ℕ → Map Str InstanceSummary → Map Str InstanceSummary
unfolding add_group lookup insert str_eq
fold_groups [] m = m
fold_groups (((inst, class_label), n) ∷ rows) m =
    fold_groups rows (insert inst (add_group class_label n (entry_or_empty inst (lookup inst m))) m)

unfoldable pub by_instance : Option Str → BounceTable → Map Str InstanceSummary
unfolding fold_groups count_groups filter_by is_selected
by_instance instance_filter t =
    fold_groups (count_groups (filter_by (is_selected instance_filter) t)) []

-- `ORDER BY count DESC, last_seen DESC`
unfoldable pub outranks : BounceKey × BounceRow → BounceKey × BounceRow → Bool
outranks (k, a) (l, b) =
    ltb b.count a.count || (a.count == b.count && not (ltb a.last_seen b.last_seen))

-- the query of the top recipients of an instance
unfoldable pub top_rows : ℕ → Str → BounceTable → BounceTable
unfolding sort_by outranks filter_by is_selected
top_rows limit inst t = take limit (sort_by outranks (filter_by (is_selected (some inst)) t))

unfoldable pub recipient_status : BounceKey × BounceRow → RecipientStatus
unfolding classification_from_label
recipient_status ((i, r), row) = record {
  instance_id = i;
  recipient = r;
  classification = classification_from_label row.classification;
  status_code = row.status_code;
  action = row.action;
  last_seen = row.last_seen;
  count = row.count;
}

unfoldable pub with_top : ℕ → BounceTable → InstanceSummary → InstanceSummary
unfolding top_rows recipient_status
with_top zero t s = s
with_top (suc n) t s = record s {
  top_recipients = map recipient_status (top_rows (suc n) s.instance_id t);
}

-- a BTreeMap gives its values in the order of their keys
unfoldable pub summary : Option Str → ℕ → BounceTable → List InstanceSummary
unfolding by_instance with_top sort_by str_leb
summary instance_filter top_n t =
    map (λ (e : Str × InstanceSummary). with_top top_n t e.1)
      (sort_by (λ (a b : Str × InstanceSummary). str_leb a.0 b.0) (by_instance instance_filter t))
