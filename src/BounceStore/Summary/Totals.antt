-- ===== src/BounceStore/Summary/Totals.antt =====
-- src/bounce_store.rs: how many rows a summary counts.
use nexo_plugin_email.Base.{
  ℕ, suc, ◌+◌, ◌-◌, ◌^◌, ◌≤◌, Str, Bool, true, false, Option, some, [], ◌∷◌, ◌≡◌, refl, sym, ap,
  ◌∙◌, subst, arith, if◌then◌else◌, Bool-cases, inl, inr, filter_by, length, Map, lookup, insert,
  lookup-insert, str_is_eq, str_eq, str_eq_iff,
}
use nexo_plugin_email.BounceStore.Summary.{
  InstanceSummary, set_class, saturated, add_group, entry_or_empty, fold_groups, is_selected,
  count_groups, by_instance,
}
use nexo_plugin_email.BounceStore.{BounceKey, BounceTable, key_eq, key_eq_iff, key_is_eq}
use nexo_plugin_email.Metrics.Counters.{or_zero}

-- What the groups of an instance count together.
unfoldable group_sum : Str → Map BounceKey ℕ → ℕ
unfolding str_eq
group_sum i [] = 0
group_sum i (((j, c), n) ∷ m) = let rest = group_sum i m in if str_eq j i then n + rest else rest

abbrev one_if : Bool → ℕ
one_if true = 1
one_if false = 0

group_sum-insert :
    (i j c : Str) (v : ℕ) (m : Map BounceKey ℕ)
    → v ≡ or_zero (lookup (j, c) m)
    → group_sum i (insert (j, c) (suc v) m) ≡ one_if (str_eq j i) + group_sum i m
unfolding group_sum lookup insert
group_sum-insert i j c v [] e = elim (Bool-cases (str_eq j i)) [
  | inl same ↦ rw same (omega (arith, e))
  | inr other ↦ rw other (omega (arith, e))
]
group_sum-insert i j c v (((k, d), w) ∷ m) e =
    by_tests (key_eq (k, d) (j, c)) refl e (group_sum-insert i j c v m)
  where
    by_tests :
        (b : Bool)
        → key_eq (k, d) (j, c) ≡ b
        → v ≡ or_zero (if b then some w else lookup (j, c) m)
        → (v ≡ or_zero (lookup (j, c) m)
            → group_sum i (insert (j, c) (suc v) m) ≡ one_if (str_eq j i) + group_sum i m)
        → group_sum i (if b then ((j, c), suc v) ∷ m else ((k, d), w) ∷ insert (j, c) (suc v) m)
          ≡ one_if (str_eq j i) + group_sum i (((k, d), w) ∷ m)
    by_tests true same e h =
        let q : k ≡ j = ap (λ (x : BounceKey). x.0) ((key_eq_iff (k, d) (j, c)).0 same) in
        subst
          (λ x.
            group_sum i (((j, c), suc v) ∷ m)
            ≡ one_if (str_eq j i) + (if str_eq x i then w + group_sum i m else group_sum i m))
          (sym q)
          (elim (Bool-cases (str_eq j i)) [
            | inl hit ↦ rw hit (omega (arith, e))
            | inr miss ↦ rw miss (omega (arith, e))
          ])
    by_tests false other e h = elim (Bool-cases (str_eq k i)) [
      | inl hit ↦ rw hit (omega (arith, h e))
      | inr miss ↦ rw miss (omega (arith, h e))
    ]

group_sum-count_groups :
    (i : Str) (t : BounceTable)
    → group_sum i (count_groups t) ≡ length (filter_by (is_selected (some i)) t)
unfolding count_groups filter_by is_selected group_sum
group_sum-count_groups i [] = refl
group_sum-count_groups i (((j, r), row) ∷ t) =
    group_sum-insert i j row.classification
      (or_zero (lookup (j, row.classification) (count_groups t))) (count_groups t) refl
    ∙ by_test (str_eq j i) (group_sum-count_groups i t)
  where
    by_test :
        (b : Bool)
        → group_sum i (count_groups t) ≡ length (filter_by (is_selected (some i)) t)
        → one_if b + group_sum i (count_groups t)
          ≡ length (
              if b
              then ((j, r), row) ∷ filter_by (is_selected (some i)) t
              else filter_by (is_selected (some i)) t)
    by_test true h = omega (arith, h)
    by_test false h = omega (arith, h)

set_class-total_rows :
    (c : Str) (n : ℕ) (s : InstanceSummary) → (set_class c n s).total_rows ≡ s.total_rows
unfolding set_class
set_class-total_rows c n s = ground arith

unfoldable pub total_of : Str → Map Str InstanceSummary → ℕ
unfolding lookup
total_of i m = (entry_or_empty i (lookup i m)).total_rows

total_of-insert :
    (i inst c : Str) (n : ℕ) (m : Map Str InstanceSummary)
    → total_of i (insert inst (add_group c n (entry_or_empty inst (lookup inst m))) m)
      ≡ (if str_eq inst i then saturated (total_of i m + n) else total_of i m)
unfolding total_of add_group
total_of-insert i inst c n m = elim (Bool-cases (str_eq inst i)) [
  | inl same ↦
      let e : inst ≡ i = (str_eq_iff inst i).0 same in
      ap (λ o. (entry_or_empty i o).total_rows)
        (lookup-insert inst i (add_group c n (entry_or_empty inst (lookup inst m))) m)
      ∙ rw same (
          ap (λ x. saturated (x + n))
            (set_class-total_rows c n (entry_or_empty inst (lookup inst m)))
          ∙ ap (λ x. saturated ((entry_or_empty x (lookup x m)).total_rows + n)) e)
  | inr other ↦
      ap (λ o. (entry_or_empty i o).total_rows)
        (lookup-insert inst i (add_group c n (entry_or_empty inst (lookup inst m))) m)
      ∙ rw other refl
]

total_of-fold_groups :
    (i : Str) (rows : Map BounceKey ℕ) (m : Map Str InstanceSummary)
    → total_of i m ≤ 2 ^ 63 - 1
    → total_of i (fold_groups rows m) ≡ saturated (total_of i m + group_sum i rows)
unfolding fold_groups group_sum
total_of-fold_groups i [] m small = omega (arith, small)
total_of-fold_groups i (((inst, c), n) ∷ rows) m small =
    let next = insert inst (add_group c n (entry_or_empty inst (lookup inst m))) m in
    by_test (str_eq inst i) (total_of i next) (total_of-insert i inst c n m)
      (total_of-fold_groups i rows next)
  where
    by_test :
        (b : Bool) (v : ℕ)
        → v ≡ (if b then saturated (total_of i m + n) else total_of i m)
        → {x : ℕ} → (v ≤ 2 ^ 63 - 1 → x ≡ saturated (v + group_sum i rows))
        → x ≡ saturated (total_of i m + (if b then n + group_sum i rows else group_sum i rows))
    by_test true v e h = h (omega (arith, e)) ∙ omega (arith, e)
    by_test false v e h = h (omega (arith, e, small)) ∙ omega (arith, e)

-- No bounce is lost and none is add_group twice: the total of an instance is the number of its rows
-- among those that the filter selects, up to the largest i64.
pub by_instance-total :
    (instance_filter : Option Str) (i : Str) (t : BounceTable)
    → total_of i (by_instance instance_filter t)
      ≡ saturated
          (length (filter_by (is_selected (some i)) (filter_by (is_selected instance_filter) t)))
unfolding by_instance total_of
by_instance-total instance_filter i t =
    let chosen = filter_by (is_selected instance_filter) t in
    total_of-fold_groups i (count_groups chosen) [] (omega arith)
    ∙ omega (arith, group_sum-count_groups i chosen)
