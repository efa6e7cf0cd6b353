-- ===== src/BounceStore/Summary/Classes.antt =====
-- src/bounce_store.rs: how many rows of each class a summary counts.
use nexo_plugin_email.Base.{
  ℕ, suc, Str, Bool, true, false, ◌&&◌, Option, none, some, [], ◌∷◌, ◌≡◌, refl, sym, ap, ◌∙◌, subst,
  arith, if◌then◌else◌, Bool-cases, inl, inr, filter_by, length, Map, lookup, insert, lookup-insert,
  str_is_eq, str_eq, str_eq_iff, codes,
}
use nexo_plugin_email.BounceStore.Summary.Totals.{total_of, by_instance-total}
use nexo_plugin_email.BounceStore.Summary.{
  InstanceSummary, set_class, saturated, add_group, entry_or_empty, fold_groups, is_selected,
  count_groups, by_instance,
}
use nexo_plugin_email.BounceStore.{
  BounceKey, BounceRow, BounceTable, key_eq, key_eq_iff, key_is_eq, classification_label,
}
use nexo_plugin_email.Dsn.{BounceClassification, permanent, transient, unknown}
use nexo_plugin_email.Metrics.Counters.{or_zero}

abbrev HasDistinctKeys : Map BounceKey ℕ → Type 0
HasDistinctKeys [] = Unit {0}
HasDistinctKeys ((k, v) ∷ m) = (lookup k m ≡ none) × HasDistinctKeys m

insert-HasDistinctKeys :
    (k : BounceKey) (v : ℕ) (m : Map BounceKey ℕ)
    → HasDistinctKeys m
    → HasDistinctKeys (insert k v m)
unfolding insert lookup
insert-HasDistinctKeys k v [] h = (refl, tt)
insert-HasDistinctKeys k v ((j, w) ∷ m) h =
    by_test (key_eq j k) refl (insert-HasDistinctKeys k v m h.1)
  where
    by_test :
        (b : Bool)
        → key_eq j k ≡ b
        → HasDistinctKeys (insert k v m)
        → HasDistinctKeys (if b then (k, v) ∷ m else (j, w) ∷ insert k v m)
    by_test true e rest = (subst (λ x. lookup x m ≡ none) ((key_eq_iff j k).0 e) h.0, h.1)
    by_test false e rest =
        (lookup-insert k j v m ∙ ground (arith, key_eq_iff j k, key_eq_iff k j, h.0), rest)

count_groups-HasDistinctKeys : (t : BounceTable) → HasDistinctKeys (count_groups t)
unfolding count_groups
count_groups-HasDistinctKeys [] = tt
count_groups-HasDistinctKeys (((i, r), row) ∷ t) =
    insert-HasDistinctKeys (i, row.classification)
      (suc (or_zero (lookup (i, row.classification) (count_groups t)))) (count_groups t)
      (count_groups-HasDistinctKeys t)

-- The rows of an instance that have a label.
unfoldable pub is_labelled : Str → Str → BounceKey × BounceRow → Bool
unfolding str_eq
is_labelled i label ((j, r), row) = key_eq (j, row.classification) (i, label)

lookup-count_groups :
    (i label : Str) (t : BounceTable)
    → or_zero (lookup (i, label) (count_groups t)) ≡ length (filter_by (is_labelled i label) t)
unfolding count_groups filter_by is_labelled
lookup-count_groups i label [] = refl
lookup-count_groups i label (((j, r), row) ∷ t) =
    ap or_zero (
      lookup-insert (j, row.classification) (i, label)
        (suc (or_zero (lookup (j, row.classification) (count_groups t)))) (count_groups t))
    ∙ by_test (key_eq (j, row.classification) (i, label)) refl (lookup-count_groups i label t)
  where
    by_test :
        (b : Bool)
        → key_eq (j, row.classification) (i, label) ≡ b
        → or_zero (lookup (i, label) (count_groups t)) ≡ length (filter_by (is_labelled i label) t)
        → or_zero (
            if b
            then some (suc (or_zero (lookup (j, row.classification) (count_groups t))))
            else lookup (i, label) (count_groups t))
          ≡ length (
              if b
              then ((j, r), row) ∷ filter_by (is_labelled i label) t
              else filter_by (is_labelled i label) t)
    by_test true e h =
        ap (λ x. suc (or_zero (lookup x (count_groups t))))
          ((key_eq_iff (j, row.classification) (i, label)).0 e)
        ∙ ap suc h
    by_test false e h = h

abbrev pub class_rows : BounceClassification → InstanceSummary → ℕ
class_rows permanent s = s.permanent_rows
class_rows transient s = s.transient_rows
class_rows unknown s = s.unknown_rows

excludes : (a b c : Str) → str_eq a b ≡ false → str_eq c a ≡ true → str_eq c b ≡ false
excludes a b c apart e = subst (λ x. str_eq x b ≡ false) (sym ((str_eq_iff c a).0 e)) apart

-- `set_class` by the outcomes of its tests.
abbrev set_by : (p t u : Bool) → ℕ → InstanceSummary → InstanceSummary
set_by p t u n s =
    if p
    then record s { permanent_rows = n }
    else if t
    then record s { transient_rows = n }
    else if u
    then record s { unknown_rows = n }
    else s

set_by-permanent :
    (p t u : Bool) (n : ℕ) (s : InstanceSummary)
    → (set_by p t u n s).permanent_rows ≡ (if p then n else s.permanent_rows)
set_by-permanent p t u n s = ground arith

set_by-transient :
    (p t u : Bool) (n : ℕ) (s : InstanceSummary)
    → (p ≡ true → t ≡ false)
    → (set_by p t u n s).transient_rows ≡ (if t then n else s.transient_rows)
set_by-transient true t u n s h = rw (h refl) refl
set_by-transient false t u n s h = ground arith

set_by-unknown :
    (p t u : Bool) (n : ℕ) (s : InstanceSummary)
    → (p ≡ true → u ≡ false)
    → (t ≡ true → u ≡ false)
    → (set_by p t u n s).unknown_rows ≡ (if u then n else s.unknown_rows)
set_by-unknown true t u n s h k = rw (h refl) refl
set_by-unknown false true u n s h k = rw (k refl) refl
set_by-unknown false false u n s h k = ground arith

set_class-class_rows :
    (class : BounceClassification) (c : Str) (n : ℕ) (s : InstanceSummary)
    → class_rows class (set_class c n s)
      ≡ (if str_eq c (classification_label class) then n else class_rows class s)
unfolding set_class classification_label str_eq
set_class-class_rows permanent c n s =
    set_by-permanent (str_eq c (codes "permanent")) (str_eq c (codes "transient"))
      (str_eq c (codes "unknown")) n s
set_class-class_rows transient c n s =
    set_by-transient (str_eq c (codes "permanent")) (str_eq c (codes "transient"))
      (str_eq c (codes "unknown")) n s (excludes (codes "permanent") (codes "transient") c refl)
set_class-class_rows unknown c n s =
    set_by-unknown (str_eq c (codes "permanent")) (str_eq c (codes "transient"))
      (str_eq c (codes "unknown")) n s (excludes (codes "permanent") (codes "unknown") c refl)
      (excludes (codes "transient") (codes "unknown") c refl)

add_group-class_rows :
    (class : BounceClassification) (c : Str) (n : ℕ) (s : InstanceSummary)
    → class_rows class (add_group c n s)
      ≡ (if str_eq c (classification_label class) then n else class_rows class s)
unfolding add_group
add_group-class_rows permanent c n s = set_class-class_rows permanent c n s
add_group-class_rows transient c n s = set_class-class_rows transient c n s
add_group-class_rows unknown c n s = set_class-class_rows unknown c n s

unfoldable pub class_of : BounceClassification → Str → Map Str InstanceSummary → ℕ
unfolding lookup
class_of class i m = class_rows class (entry_or_empty i (lookup i m))

class_of-insert :
    (class : BounceClassification) (i inst c : Str) (n : ℕ) (m : Map Str InstanceSummary)
    → class_of class i (insert inst (add_group c n (entry_or_empty inst (lookup inst m))) m)
      ≡ (if str_eq inst i && str_eq c (classification_label class) then n else class_of class i m)
unfolding class_of
class_of-insert class i inst c n m =
    let entry = entry_or_empty inst (lookup inst m) in
    ap (λ o. class_rows class (entry_or_empty i o)) (lookup-insert inst i (add_group c n entry) m)
    ∙ (elim (Bool-cases (str_eq inst i)) [
      | inl same ↦
          let e : inst ≡ i = (str_eq_iff inst i).0 same in
          rw same (
            add_group-class_rows class c n entry
            ∙ ap
                (λ x.
                  if str_eq c (classification_label class)
                  then n
                  else class_rows class (entry_or_empty x (lookup x m)))
                e)
      | inr other ↦ rw other refl
    ])

abbrev latest : ℕ → Option ℕ → ℕ
latest v none = v
latest v (some n) = n

class_of-fold_groups :
    (class : BounceClassification) (i : Str) (rows : Map BounceKey ℕ) (m : Map Str InstanceSummary)
    → HasDistinctKeys rows
    → class_of class i (fold_groups rows m)
      ≡ latest (class_of class i m) (lookup (i, classification_label class) rows)
unfolding fold_groups lookup
class_of-fold_groups class i [] m h = refl
class_of-fold_groups class i (((inst, c), n) ∷ rows) m h =
    let next = insert inst (add_group c n (entry_or_empty inst (lookup inst m))) m in
    class_of-fold_groups class i rows next h.1
    ∙ by_test (key_eq (inst, c) (i, classification_label class)) refl (class_of class i next)
        (class_of-insert class i inst c n m)
  where
    by_test :
        (b : Bool)
        → key_eq (inst, c) (i, classification_label class) ≡ b
        → (v : ℕ) → v ≡ (if b then n else class_of class i m)
        → latest v (lookup (i, classification_label class) rows)
          ≡ latest
              (class_of class i m)
              (if b then some n else lookup (i, classification_label class) rows)
    by_test true same v e =
        ap (latest v) (
          subst (λ x. lookup x rows ≡ none)
            ((key_eq_iff (inst, c) (i, classification_label class)).0 same) h.0)
        ∙ e
    by_test false other v e = ap (λ x. latest x (lookup (i, classification_label class) rows)) e

latest-or_zero : (o : Option ℕ) → latest 0 o ≡ or_zero o
latest-or_zero none = refl
latest-or_zero (some n) = refl

class_of-empty : (class : BounceClassification) (i : Str) → class_of class i [] ≡ 0
unfolding class_of lookup
class_of-empty permanent i = refl
class_of-empty transient i = refl
class_of-empty unknown i = refl

-- No bounce is lost and none is add_group twice: of the rows that the filter selects, a summary counts
-- for an instance exactly those of a class that have the label of the class, and its total is that
-- of all rows of the instance, up to the largest i64.
pub by_instance_lem :
    (instance_filter : Option Str) (class : BounceClassification) (i : Str) (t : BounceTable)
    → (class_of class i (by_instance instance_filter t)
        ≡ length (
            filter_by
              (is_labelled i (classification_label class))
              (filter_by (is_selected instance_filter) t)))
      × (total_of i (by_instance instance_filter t)
          ≡ saturated (
              length
                (filter_by (is_selected (some i)) (filter_by (is_selected instance_filter) t))))
unfolding by_instance
by_instance_lem instance_filter class i t =
    let chosen = filter_by (is_selected instance_filter) t in
    (
      class_of-fold_groups class i (count_groups chosen) [] (count_groups-HasDistinctKeys chosen)
          ∙ ap (λ v. latest v (lookup (i, classification_label class) (count_groups chosen)))
              (class_of-empty class i)
          ∙ latest-or_zero (lookup (i, classification_label class) (count_groups chosen))
          ∙ lookup-count_groups i (classification_label class) chosen,
      by_instance-total instance_filter i t,
    )
