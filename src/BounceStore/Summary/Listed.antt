-- ===== src/BounceStore/Summary/Listed.antt =====
-- src/bounce_store.rs: what `summary` lists below each instance.
use nexo_plugin_email.Base.{
  ℕ, zero, suc, Str, Bool, true, false, Option, some, List, [], ◌∷◌, ◌≡◌, refl, ap, ◌∙◌, arith,
  if◌then◌else◌, filter_by, map, All, Map, lookup, insert, str_is_eq, str_eq, insert_by, sort_by,
  str_leb,
}
use nexo_plugin_email.BounceStore.Summary.Top.{IsTopOf, top_rows_lem}
use nexo_plugin_email.BounceStore.Summary.{
  InstanceSummary, set_class, add_group, entry_or_empty, fold_groups, is_selected, count_groups,
  by_instance, top_rows, recipient_status, with_top, summary,
}
use nexo_plugin_email.BounceStore.{BounceKey, BounceTable}

abbrev Entry : Type 0
Entry = Str × InstanceSummary

abbrev HasNoTop : Entry → Type 0
HasNoTop e = e.1.top_recipients ≡ []

insert-HasNoTop :
    (k : Str) (s : InstanceSummary) (m : Map Str InstanceSummary)
    → s.top_recipients ≡ []
    → All HasNoTop m
    → All HasNoTop (insert k s m)
unfolding insert
insert-HasNoTop k s [] e h = (e, tt)
insert-HasNoTop k s ((j, w) ∷ m) e h = by_test (str_eq j k) (insert-HasNoTop k s m e h.1)
  where
    by_test :
        (b : Bool)
        → All HasNoTop (insert k s m)
        → All HasNoTop (if b then (k, s) ∷ m else (j, w) ∷ insert k s m)
    by_test true rest = (e, h.1)
    by_test false rest = (h.0, rest)

entry-HasNoTop :
    (k : Str) (m : Map Str InstanceSummary)
    → All HasNoTop m
    → (entry_or_empty k (lookup k m)).top_recipients ≡ []
unfolding lookup
entry-HasNoTop k [] h = refl
entry-HasNoTop k ((j, w) ∷ m) h = by_test (str_eq j k) (entry-HasNoTop k m h.1)
  where
    by_test :
        (b : Bool)
        → (entry_or_empty k (lookup k m)).top_recipients ≡ []
        → (entry_or_empty k (if b then some w else lookup k m)).top_recipients ≡ []
    by_test true rest = h.0
    by_test false rest = rest

add_group-top_recipients :
    (c : Str) (n : ℕ) (s : InstanceSummary) → (add_group c n s).top_recipients ≡ s.top_recipients
unfolding add_group set_class
add_group-top_recipients c n s = ground arith

fold_groups-HasNoTop :
    (rows : Map BounceKey ℕ) (m : Map Str InstanceSummary)
    → All HasNoTop m
    → All HasNoTop (fold_groups rows m)
unfolding fold_groups
fold_groups-HasNoTop [] m h = h
fold_groups-HasNoTop (((inst, c), n) ∷ rows) m h =
    let entry = entry_or_empty inst (lookup inst m) in
    fold_groups-HasNoTop rows (insert inst (add_group c n entry) m) (
      insert-HasNoTop inst (add_group c n entry) m
        (add_group-top_recipients c n entry ∙ entry-HasNoTop inst m h) h)

module _ (le : Entry → Entry → Bool) where
  insert_by-HasNoTop :
      (x : Entry) (xs : List Entry)
      → HasNoTop x
      → All HasNoTop xs
      → All HasNoTop (insert_by le x xs)
  unfolding insert_by
  insert_by-HasNoTop x [] e h = (e, tt)
  insert_by-HasNoTop x (y ∷ ys) e h = by_test (le x y) (insert_by-HasNoTop x ys e h.1)
    where
      by_test :
          (b : Bool)
          → All HasNoTop (insert_by le x ys)
          → All HasNoTop (if b then x ∷ y ∷ ys else y ∷ insert_by le x ys)
      by_test true rest = (e, h)
      by_test false rest = (h.0, rest)

  sort_by-HasNoTop : (xs : List Entry) → All HasNoTop xs → All HasNoTop (sort_by le xs)
  unfolding sort_by
  sort_by-HasNoTop [] h = tt
  sort_by-HasNoTop (x ∷ xs) h = insert_by-HasNoTop x (sort_by le xs) h.0 (sort_by-HasNoTop xs h.1)

-- The summary lists the most repeated recipients of its instance.
abbrev pub ListsTop : ℕ → BounceTable → InstanceSummary → Type 0
ListsTop n t s =
    (rows : BounceTable) × (s.top_recipients ≡ map recipient_status rows)
    × IsTopOf n (filter_by (is_selected (some s.instance_id)) t) rows

with_top-ListsTop :
    (n : ℕ) (t : BounceTable) (s : InstanceSummary)
    → s.top_recipients ≡ []
    → ListsTop n t (with_top n t s)
unfolding with_top top_rows
with_top-ListsTop zero t s e = (
  top_rows zero s.instance_id t,
  e ∙ ap (map recipient_status) (none_taken s.instance_id),
  top_rows_lem zero s.instance_id t,
)
  where
    none_taken : (i : Str) → [] ≡ top_rows zero i t
    none_taken i = refl
with_top-ListsTop (suc n) t s e =
    (top_rows (suc n) s.instance_id t, refl, top_rows_lem (suc n) s.instance_id t)

All-ListsTop :
    (n : ℕ) (t : BounceTable) (entries : List Entry)
    → All HasNoTop entries
    → All (ListsTop n t) (map (λ (e : Entry). with_top n t e.1) entries)
All-ListsTop n t [] h = tt
All-ListsTop n t (e ∷ entries) h = (with_top-ListsTop n t e.1 h.0, All-ListsTop n t entries h.1)

-- Below each instance a summary lists as many recipients as there are, up to `top_n`, those with
-- more bounces first and the later one first where these are equal, and no recipient of the instance
-- that is left out comes before a listed one.
pub summary_lem :
    (instance_filter : Option Str) (top_n : ℕ) (t : BounceTable)
    → All (ListsTop top_n t) (summary instance_filter top_n t)
unfolding summary by_instance
summary_lem instance_filter top_n t =
    let entries = fold_groups (count_groups (filter_by (is_selected instance_filter) t)) [] in
    let before : Entry → Entry → Bool = λ a b. str_leb a.0 b.0 in
    All-ListsTop top_n t (sort_by before entries) (
      sort_by-HasNoTop before entries
        (fold_groups-HasNoTop (count_groups (filter_by (is_selected instance_filter) t)) [] tt))
