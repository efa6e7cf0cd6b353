-- ===== src/OutboundQueue/Compaction.antt =====
-- src/outbound_queue.rs: `compact_if_needed`.
use mathlib.Core.List.Permᴰ
use nexo_plugin_email.Base.{
  suc, ◌+◌, ◌*◌, ◌≤◌, ◌<◌, Str, Option, none, some, true, false, List, [], ◌∷◌, map, ◌≡◌, refl, sym,
  ◌∙◌, arith, ap, lookup, insert, lookup-insert, str_is_eq, Map, filter_by, inl, inr, length, ◌↔◌,
  ◌⊎◌,
}
use nexo_plugin_email.OutboundQueue.{
  OutboundJob, OutboundQueue, Storage, write, write_all, read_from, read_latest_per_id, values,
  is_live, pending_count, compact_if_needed,
}
use nexo_plugin_email.OutboundQueue.Latest.{read_from-row, read_latest_per_id-IsKeyed}
use nexo_plugin_email.OutboundQueue.Pending.{drop_done, pending}
use nexo_plugin_email.OutboundQueue.Ids.{find_job, pick, find_job-perm, filter_by-perm, length-perm}
use nexo_plugin_email.OutboundQueue.Listing.{
  find_job-values, HasDistinctIds-values, list_pending-perm,
}

or_else : Option OutboundJob → Option OutboundJob → Option OutboundJob
or_else none o = o
or_else (some j) o = some j

or_else-none : (o : Option OutboundJob) → or_else o none ≡ o
unfolding or_else
or_else-none none = refl
or_else-none (some j) = refl

abbrev live_rows : Storage → OutboundQueue → List OutboundJob
live_rows io q = filter_by is_live (io.order (values (read_latest_per_id io q.queue_lines)))

length-map : (f : OutboundJob → Str) (js : List OutboundJob) → length (map f js) ≡ length js
length-map f [] = refl
length-map f (j ∷ js) = ap suc (length-map f js)

length-live-done :
    (js : List OutboundJob)
    → length (filter_by is_live js) + length (filter_by (λ j. j.done) js) ≡ length js
unfolding filter_by
length-live-done [] = omega arith
length-live-done (j ∷ js) = ground (arith, length-live-done js)

module _ (io : Storage) where
  -- Written rows read back as the jobs that were written.
  lookup-rows :
      (k : Str) (out : Map Str OutboundJob) (js : List OutboundJob)
      → lookup k (read_from io out (map io.to_string js)) ≡ or_else (find_job k js) (lookup k out)
  unfolding read_from find_job or_else
  lookup-rows k out [] = refl
  lookup-rows k out (j ∷ js) =
      read_from_first ∙ lookup-rows k (insert j.message_id j out) js ∙ last_wins (find_job k js)
    where
      read_from_first :
          lookup k (read_from io out (io.to_string j ∷ map io.to_string js))
          ≡ lookup k (read_from io (insert j.message_id j out) (map io.to_string js))
      read_from_first = ap (lookup k) (read_from-row io out j (map io.to_string js))

      last_wins :
          (o : Option OutboundJob)
          → or_else o (lookup k (insert j.message_id j out)) ≡ or_else (pick k j o) (lookup k out)
      last_wins none = unfold pick in rw (lookup-insert j.message_id k j out) (ground arith)
      last_wins (some f) = unfold pick in refl

  abbrev compacted : OutboundQueue → OutboundQueue
  compacted q = write_all (compact_if_needed io q).1 q

  -- It changes nothing, or rewrites the file to the live rows.
  compact_cases :
      (q : OutboundQueue)
      → (((compact_if_needed io q).0 ≡ false) × (compacted q ≡ q))
        ⊎ (((compact_if_needed io q).0 ≡ true)
            × (compacted q ≡ record q { queue_lines = map io.to_string (live_rows io q) }))
  unfolding compact_if_needed write_all write
  compact_cases q = ground arith

  find_job-live_rows : (q : OutboundQueue) (k : Str) → find_job k (live_rows io q) ≡ pending io q k
  unfolding pending
  find_job-live_rows q k =
      let keyed = read_latest_per_id-IsKeyed io q.queue_lines in
      let rows = filter_by-perm is_live (Permᴰ.symm (io.order-perm _)) in
      sym (find_job-perm k rows (HasDistinctIds-values _ keyed)) ∙ find_job-values k _ keyed

  drop_done-pending : (q : OutboundQueue) (k : Str) → drop_done (pending io q k) ≡ pending io q k
  unfolding pending
  drop_done-pending q k = ground arith

  pending-rows :
      (q : OutboundQueue) (k : Str) (js : List OutboundJob)
      → pending io (record q { queue_lines = map io.to_string js }) k ≡ drop_done (find_job k js)
  unfolding pending read_latest_per_id or_else lookup
  pending-rows q k js =
      ap drop_done (lookup-rows k [] js) ∙ ap drop_done (or_else-none (find_job k js))

  pending-rewritten :
      (q : OutboundQueue) (k : Str)
      → pending io (record q { queue_lines = map io.to_string (live_rows io q) }) k ≡ pending io q k
  pending-rewritten q k =
      pending-rows q k (live_rows io q)
      ∙ ap drop_done (find_job-live_rows q k)
      ∙ drop_done-pending q k

  -- Compaction keeps what is pending, for every id, and the dead-letter file.
  pub pending-compact :
      (q : OutboundQueue) (k : Str)
      → (pending io (compacted q) k ≡ pending io q k) × ((compacted q).dlq_lines ≡ q.dlq_lines)
  pending-compact q k = elim (compact_cases q) [
    | inl kept ↦ rw kept.1 (refl, refl)
    | inr ran ↦ rw ran.1 (pending-rewritten q k, refl)
  ]

  pending_count_lem :
      (q : OutboundQueue)
      → pending_count io q
        ≡ length (filter_by is_live (values (read_latest_per_id io q.queue_lines)))
  unfolding pending_count
  pending_count_lem q = sym (length-perm (list_pending-perm io q))

  length-live_rows : (q : OutboundQueue) → length (live_rows io q) ≡ pending_count io q
  length-live_rows q =
      length-perm (filter_by-perm is_live (io.order-perm _)) ∙ sym (pending_count_lem q)

  -- Compaction runs exactly when there is a row and at least half of the ids are tombstones.
  compact_iff :
      (q : OutboundQueue)
      → ((compact_if_needed io q).0 ≡ true) ↔ (
          (0 < length (values (read_latest_per_id io q.queue_lines)))
          × (length (values (read_latest_per_id io q.queue_lines))
              ≤ 2
                * length (filter_by (λ j. j.done) (values (read_latest_per_id io q.queue_lines)))))
  unfolding compact_if_needed
  compact_iff q = ground arith

  -- When compaction runs, the rows that are left are as many as the pending jobs, and at most half
  -- of the ids that were there.
  length-compact :
      (q : OutboundQueue)
      → (compact_if_needed io q).0 ≡ true
      → (length (compacted q).queue_lines ≡ pending_count io q)
        × (2 * pending_count io q ≤ length (values (read_latest_per_id io q.queue_lines)))
  length-compact q ran = elim (compact_cases q) [
    | inl kept ↦ cc
    | inr (_, done) ↦ (
      ap (λ (r : OutboundQueue). length r.queue_lines) done
          ∙ length-map io.to_string (live_rows io q)
          ∙ length-live_rows q,
      omega (
        arith,
        pending_count_lem q,
        ((compact_iff q).0 ran).1,
        length-live-done (values (read_latest_per_id io q.queue_lines)),
      ),
    )
  ]
