-- ===== src/OutboundQueue/Listing.antt =====
-- src/outbound_queue.rs: `list_pending`, its order and its ids.
use mathlib.Core.List.Permᴰ
use mathlib.Core.List.{Permᴰ}
use nexo_plugin_email.Base.{
  ℕ, Str, Bool, true, false, List, [], ◌∷◌, ◌≡◌, ◌≢◌, refl, sym, ◌∙◌, arith, if◌then◌else◌, subst,
  lookup, str_eq, str_eq_iff, str_is_eq, All, Map, filter_by, leb, ◌≤◌, not, ap, Bool-cases, leb→le,
  inl, inr,
}
use nexo_plugin_email.OutboundQueue.{
  OutboundJob, OutboundQueue, Storage, read_latest_per_id, values, is_live, insert_by_created,
  sort_by_created, list_pending,
}
use nexo_plugin_email.OutboundQueue.Latest.{IsAbsent, IsKeyed, read_latest_per_id-IsKeyed}
use nexo_plugin_email.OutboundQueue.Pending.{drop_done, pending}
use nexo_plugin_email.OutboundQueue.Ids.{
  find_job, pick, find_job-perm, filter_by-perm, HasNoJob, HasDistinctIds, HasDistinctIds-perm,
  find_job-HasNoJob, All-perm,
}

abbrev pub IsSorted : List OutboundJob → Type 0
IsSorted [] = Unit
IsSorted (j ∷ js) = All (λ k. j.created_at ≤ k.created_at) js × IsSorted js

-- Sorting.
insert_by_created-perm :
    (j : OutboundJob) (js : List OutboundJob) → Permᴰ (insert_by_created j js) (j ∷ js)
unfolding insert_by_created
insert_by_created-perm j [] = Permᴰ.refl _
insert_by_created-perm j (k ∷ ks) = elim (Bool-cases (leb j.created_at k.created_at)) [
  | inl e ↦ rw e (Permᴰ.refl _)
  | inr e ↦
      rw e (Permᴰ.trans (Permᴰ.cons refl (insert_by_created-perm j ks)) (Permᴰ.swap refl refl))
]

pub sort_by_created-perm : (js : List OutboundJob) → Permᴰ (sort_by_created js) js
unfolding sort_by_created
sort_by_created-perm [] = Permᴰ.nil
sort_by_created-perm (j ∷ js) =
    Permᴰ.trans (insert_by_created-perm j (sort_by_created js))
      (Permᴰ.cons refl (sort_by_created-perm js))

All-le_trans :
    (a b : ℕ) (js : List OutboundJob)
    → a ≤ b
    → All (λ k. b ≤ k.created_at) js
    → All (λ k. a ≤ k.created_at) js
All-le_trans a b [] le h = tt
All-le_trans a b (j ∷ js) le h = (omega arith, All-le_trans a b js le h.1)

insert_by_created-All :
    (a : ℕ) (j : OutboundJob) (js : List OutboundJob)
    → a ≤ j.created_at
    → All (λ k. a ≤ k.created_at) js
    → All (λ k. a ≤ k.created_at) (insert_by_created j js)
insert_by_created-All a j js le h =
    All-perm (λ k. a ≤ k.created_at) (Permᴰ.symm (insert_by_created-perm j js)) (le, h)

insert_by_created-IsSorted :
    (j : OutboundJob) (js : List OutboundJob) → IsSorted js → IsSorted (insert_by_created j js)
unfolding insert_by_created
insert_by_created-IsSorted j [] h = ground arith
insert_by_created-IsSorted j (k ∷ ks) h = elim (Bool-cases (leb j.created_at k.created_at)) [
  | inl e ↦ rw e (((leb→le _ _ e, All-le_trans j.created_at k.created_at ks (leb→le _ _ e) h.0), h))
  | inr e ↦ rw e (
      (
        insert_by_created-All k.created_at j ks (ground arith) h.0,
        insert_by_created-IsSorted j ks h.1,
      ))
]

pub sort_by_created-IsSorted : (js : List OutboundJob) → IsSorted (sort_by_created js)
unfolding sort_by_created
sort_by_created-IsSorted [] = tt
sort_by_created-IsSorted (j ∷ js) =
    insert_by_created-IsSorted j (sort_by_created js) (sort_by_created-IsSorted js)

-- The live entries of a map, found by id.
filter_by-HasNoJob :
    (k : Str) (m : Map Str OutboundJob)
    → IsKeyed m
    → IsAbsent k m
    → HasNoJob k (filter_by is_live (values m))
unfolding filter_by values
filter_by-HasNoJob k [] keyed h = tt
filter_by-HasNoJob k ((i, j) ∷ m) keyed h =
    let ih = filter_by-HasNoJob k m keyed.2 h.1 in
    let here : j.message_id ≢ k = λ e. h.0 (sym keyed.0 ∙ e) in
    elim (Bool-cases j.done) [ inl e ↦ rw e ih | inr e ↦ rw e (here, ih) ]

pub HasDistinctIds-values :
    (m : Map Str OutboundJob) → IsKeyed m → HasDistinctIds (filter_by is_live (values m))
unfolding filter_by values
HasDistinctIds-values [] keyed = tt
HasDistinctIds-values ((i, j) ∷ m) keyed =
    let ih = HasDistinctIds-values m keyed.2 in
    let apart = filter_by-HasNoJob j.message_id m keyed.2 (rw keyed.0 keyed.1) in
    elim (Bool-cases j.done) [ inl e ↦ rw e ih | inr e ↦ rw e (apart, ih) ]

pub find_job-values :
    (k : Str) (m : Map Str OutboundJob)
    → IsKeyed m
    → find_job k (filter_by is_live (values m)) ≡ drop_done (lookup k m)
unfolding filter_by values find_job lookup pick
find_job-values k [] keyed = refl
find_job-values k ((i, j) ∷ m) keyed =
    let ih = find_job-values k m keyed.2 in
    elim (Bool-cases (str_eq i k)) [
      | inl e ↦
          let same : i ≡ k = (str_eq_iff i k).0 e in
          let gone =
            find_job-HasNoJob k _
              (filter_by-HasNoJob k m keyed.2 (subst (λ x. IsAbsent x m) same keyed.1)) in
          ground (arith, gone, str_eq_iff j.message_id k)
      | inr e ↦ ground (arith, ih, str_eq_iff j.message_id k, str_eq_iff i k)
    ]

filter_by-live : (js : List OutboundJob) → All (λ j. j.done ≡ false) (filter_by is_live js)
unfolding filter_by
filter_by-live [] = tt
filter_by-live (j ∷ js) = keep j.done refl (filter_by-live js)
  where
    keep :
        (d : Bool)
        → j.done ≡ d
        → All (λ k. k.done ≡ false) (filter_by is_live js)
        → All (λ k. k.done ≡ false) (filter_by is_live (j ∷ js))
    keep true e rest = rw e rest
    keep false e rest =
        subst (λ ks. All (λ k. k.done ≡ false) ks)
          (sym (ap (λ b. if not b then j ∷ filter_by is_live js else filter_by is_live js) e))
          (e, rest)

module _ (io : Storage) where
  pub list_pending-perm :
      (q : OutboundQueue)
      → Permᴰ (filter_by is_live (values (read_latest_per_id io q.queue_lines))) (list_pending io q)
  unfolding list_pending
  list_pending-perm q =
      Permᴰ.symm (Permᴰ.trans (sort_by_created-perm _) (filter_by-perm is_live (io.order-perm _)))

  list_pending-IsSorted : (q : OutboundQueue) → IsSorted (list_pending io q)
  unfolding list_pending
  list_pending-IsSorted q =
      sort_by_created-IsSorted
        (filter_by is_live (io.order (values (read_latest_per_id io q.queue_lines))))

  -- `list_pending` is sorted by creation time, no id is twice in it, and an id has a job in it
  -- exactly when that job is pending.
  pub list_pending_lem :
      (q : OutboundQueue)
      → IsSorted (list_pending io q)
        × HasDistinctIds (list_pending io q)
        × ((k : Str) → find_job k (list_pending io q) ≡ pending io q k)
  unfolding pending
  list_pending_lem q = (
    list_pending-IsSorted q,
    HasDistinctIds-perm (list_pending-perm q)
        (HasDistinctIds-values _ (read_latest_per_id-IsKeyed io q.queue_lines)),
    λ k.
        sym (
          find_job-perm k (list_pending-perm q)
            (HasDistinctIds-values _ (read_latest_per_id-IsKeyed io q.queue_lines)))
        ∙ find_job-values k _ (read_latest_per_id-IsKeyed io q.queue_lines),
  )

  -- Every job of the list is live.
  pub list_pending-live : (q : OutboundQueue) → All (λ j. j.done ≡ false) (list_pending io q)
  list_pending-live q =
      All-perm (λ j. j.done ≡ false) (list_pending-perm q)
        (filter_by-live (values (read_latest_per_id io q.queue_lines)))
