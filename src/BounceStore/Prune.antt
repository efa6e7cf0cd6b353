-- ===== src/BounceStore/Prune.antt =====
-- src/bounce_store.rs: which rows `prune` keeps.
use nexo_plugin_email.Base.{
  ℕ, ◌+◌, ◌-◌, ◌≤◌, Str, Bool, true, false, ◌&&◌, ◌||◌, List, [], ◌∷◌, ◌≡◌, refl, sym, ap, ◌∙◌,
  arith, if◌then◌else◌, ◌==◌, filter_by, length, subst,
}
use nexo_plugin_email.BounceStore.{
  BounceKey, BounceRow, BounceTable, is_recent, is_kept_instance, delete_all_but, u64_saturated,
  prune_by_age, prune_by_instance, prune,
}

unfoldable pub has_no_instance : List Str → Bool
has_no_instance [] = true
has_no_instance (i ∷ is) = false

-- A row is kept when it is recent, or the retention is 0, and its instance is in the list, or the
-- list is empty.
unfoldable pub is_kept : ℕ → List Str → ℕ → BounceKey × BounceRow → Bool
unfolding has_no_instance
is_kept retention_secs kept now row =
    (retention_secs == 0 || is_recent (now - retention_secs) row)
    && (has_no_instance kept || is_kept_instance kept row)

module _ (p q : BounceKey × BounceRow → Bool) where
  filter_by-filter_by :
      (t : BounceTable) → filter_by q (filter_by p t) ≡ filter_by (λ x. p x && q x) t
  unfolding filter_by
  filter_by-filter_by [] = refl
  filter_by-filter_by (x ∷ t) = ground (arith, filter_by-filter_by t)

length-filter_by :
    (p : BounceKey × BounceRow → Bool) (t : BounceTable) → length (filter_by p t) ≤ length t
unfolding filter_by
length-filter_by p [] = omega arith
length-filter_by p (x ∷ t) = ground (arith, length-filter_by p t)

filter_by-true : (t : BounceTable) → filter_by (λ _. true) t ≡ t
unfolding filter_by
filter_by-true [] = refl
filter_by-true (x ∷ t) = ap (λ r. x ∷ r) (filter_by-true t)

abbrev kept_by_age : ℕ → ℕ → BounceKey × BounceRow → Bool
kept_by_age retention_secs now row = retention_secs == 0 || is_recent (now - retention_secs) row

abbrev kept_by_instance : List Str → BounceKey × BounceRow → Bool
kept_by_instance kept row = has_no_instance kept || is_kept_instance kept row

-- A deletion by a predicate that may be switched off.
abbrev left_by : (BounceKey × BounceRow → Bool) → BounceTable → BounceTable × ℕ
left_by p t = (filter_by p t, length t - length (filter_by p t))

nothing_deleted : (t : BounceTable) → (t, 0) ≡ left_by (λ _. true) t
nothing_deleted t =
    ap (λ n. (t, n)) (omega arith) ∙ ap (λ u. (u, length t - length u)) (sym (filter_by-true t))

prune_by_age_lem :
    (retention_secs now : ℕ) (t : BounceTable)
    → prune_by_age retention_secs now t ≡ left_by (kept_by_age retention_secs now) t
unfolding prune_by_age delete_all_but
prune_by_age_lem retention_secs now t = decide (retention_secs == 0)
  where
    decide :
        (b : Bool)
        → (if b then (t, 0) else left_by (is_recent (now - retention_secs)) t)
          ≡ left_by (λ row. b || is_recent (now - retention_secs) row) t
    decide true = nothing_deleted t
    decide false = refl

prune_by_instance_lem :
    (kept : List Str) (t : BounceTable)
    → prune_by_instance kept t ≡ left_by (kept_by_instance kept) t
unfolding prune_by_instance delete_all_but has_no_instance
prune_by_instance_lem [] t = nothing_deleted t
prune_by_instance_lem (i ∷ kept) t = refl

two_steps :
    (a b c : ℕ)
    → b ≤ a
    → c ≤ b
    → u64_saturated (u64_saturated (a - b) + (b - c)) ≡ u64_saturated (a - c)
two_steps a b c ab bc = omega arith

-- The two deletions, one after the other.
pruned :
    (retention_secs : ℕ) (kept : List Str) (now : ℕ) (t : BounceTable)
    → prune retention_secs kept now t ≡ (
      filter_by (is_kept retention_secs kept now) t,
      u64_saturated (
          u64_saturated (length t - length (filter_by (kept_by_age retention_secs now) t))
          + (length (filter_by (kept_by_age retention_secs now) t)
              - length (filter_by (is_kept retention_secs kept now) t))),
    )
unfolding prune is_kept
pruned retention_secs kept now t =
    let p = kept_by_age retention_secs now in
    let q = kept_by_instance kept in
    ap
      (λ a. (
        (prune_by_instance kept a.0).0,
        u64_saturated (u64_saturated a.1 + (prune_by_instance kept a.0).1),
      ))
      (prune_by_age_lem retention_secs now t)
    ∙ ap (λ b. (b.0, u64_saturated (u64_saturated (length t - length (filter_by p t)) + b.1)))
        (prune_by_instance_lem kept (filter_by p t))
    ∙ ap
        (λ u. (
          u,
          u64_saturated (
              u64_saturated (length t - length (filter_by p t))
              + (length (filter_by p t) - length u)),
        ))
        (filter_by-filter_by p q t)

-- The rows that are left are those that are kept, in their order, and the number that is returned
-- is that of the others, saturated at 64 bits.
pub prune_lem :
    (retention_secs : ℕ) (kept : List Str) (now : ℕ) (t : BounceTable)
    → ((prune retention_secs kept now t).0 ≡ filter_by (is_kept retention_secs kept now) t)
      × ((prune retention_secs kept now t).1
          ≡ u64_saturated (length t - length (filter_by (is_kept retention_secs kept now) t)))
unfolding is_kept
prune_lem retention_secs kept now t = (
  ap (λ r. r.0) (pruned retention_secs kept now t),
  ap (λ r. r.1) (pruned retention_secs kept now t) ∙ total,
)
  where
    total :
        u64_saturated (
          u64_saturated (length t - length (filter_by (kept_by_age retention_secs now) t))
          + (length (filter_by (kept_by_age retention_secs now) t)
              - length (filter_by (is_kept retention_secs kept now) t)))
        ≡ u64_saturated (length t - length (filter_by (is_kept retention_secs kept now) t))
    total = two_steps (length t) _ _ (length-filter_by (kept_by_age retention_secs now) t) (
        subst (λ u. length u ≤ length (filter_by (kept_by_age retention_secs now) t))
          (filter_by-filter_by (kept_by_age retention_secs now) (kept_by_instance kept) t)
          (length-filter_by (kept_by_instance kept) (filter_by (kept_by_age retention_secs now) t)))

filter_by-idempotent :
    (p : BounceKey × BounceRow → Bool) (t : BounceTable)
    → filter_by p (filter_by p t) ≡ filter_by p t
unfolding filter_by
filter_by-idempotent p [] = refl
filter_by-idempotent p (x ∷ t) = ground (arith, filter_by-idempotent p t)

-- To prune again, with the same arguments at the same time, removes nothing.
prune-idempotent :
    (retention_secs : ℕ) (kept : List Str) (now : ℕ) (t : BounceTable)
    → prune retention_secs kept now (prune retention_secs kept now t).0
      ≡ ((prune retention_secs kept now t).0, 0)
prune-idempotent retention_secs kept now t =
    let p = is_kept retention_secs kept now in
    let u = filter_by p t in
    let again = prune_lem retention_secs kept now u in
    let same : filter_by p u ≡ u = filter_by-idempotent p t in
    ap (λ v. prune retention_secs kept now v) (prune_lem retention_secs kept now t).0
    ∙ ap (counted (prune retention_secs kept now u).1) (again.0 ∙ same)
    ∙ ap (λ n. counted n u)
        (again.1 ∙ ap (λ v. u64_saturated (length u - length v)) same ∙ omega arith)
    ∙ ap (counted 0) (sym (prune_lem retention_secs kept now t).0)
  where
    counted : ℕ → BounceTable → BounceTable × ℕ
    counted n v = (v, n)
