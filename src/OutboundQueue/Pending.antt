-- ===== src/OutboundQueue/Pending.antt =====
-- src/outbound_queue.rs: which job of an id is pending, and how each operation changes that.
use mathlib.Core.Option.{some-injective}
use nexo_plugin_email.Base.{
  Bool, true, false, subst, ℕ, zero, suc, Str, Option, none, some, [], ◌∷◌, ◌++◌, ◌≡◌, refl, ◌∙◌,
  arith, if◌then◌else◌, take, lookup, str_eq, str_eq_iff, str_is_eq, inl, inr, ◌⊎◌,
}
use nexo_plugin_email.OutboundQueue.{
  OutboundJob, OutboundQueue, Storage, Write, write, write_all, tombstone, read_latest_per_id,
  enqueue, update, mark_done, mark_found, move_to_dlq,
}
use nexo_plugin_email.OutboundQueue.Latest.{lookup-append, lookup-id, read_latest_per_id-IsKeyed}

-- A tombstone hides its id.
abbrev pub drop_done : Option OutboundJob → Option OutboundJob
drop_done none = none
drop_done (some j) = if j.done then none else some j

module _ (io : Storage) where
  -- The specification of a queue: at most one pending job for each id.
  unfoldable pub pending : OutboundQueue → Str → Option OutboundJob
  unfolding read_latest_per_id lookup
  pending q k = drop_done (lookup k (read_latest_per_id io q.queue_lines))

  pub pending-append :
      (q : OutboundQueue) (j : OutboundJob) (k : Str)
      → pending (write (Write.append_queue (io.to_string j)) q) k
        ≡ (if str_eq j.message_id k then drop_done (some j) else pending q k)
  unfolding pending write
  pending-append q j k = rw (lookup-append io q.queue_lines j k) (ground arith)

  pub pending-enqueue :
      (q : OutboundQueue) (j : OutboundJob) (k : Str)
      → pending (write_all (enqueue io j) q) k
        ≡ (if str_eq j.message_id k then drop_done (some j) else pending q k)
  unfolding enqueue write_all
  pending-enqueue = pending-append

  pub pending-update :
      (q : OutboundQueue) (j : OutboundJob) (k : Str)
      → pending (write_all (update io j) q) k
        ≡ (if str_eq j.message_id k then drop_done (some j) else pending q k)
  unfolding update write_all
  pending-update = pending-append

  pending-mark_found :
      (q : OutboundQueue) (i k : Str) (o : Option OutboundJob)
      → lookup i (read_latest_per_id io q.queue_lines) ≡ o
      → pending (write_all (mark_found io o) q) k ≡ (if str_eq i k then none else pending q k)
  unfolding mark_found write_all
  pending-mark_found q i k none e = unfold pending in ground (arith, str_eq_iff i k)
  pending-mark_found q i k (some j) e =
      let same = lookup-id i _ (read_latest_per_id-IsKeyed io q.queue_lines) e in
      rw (pending-append q (tombstone j) k, same)

  -- After `mark_done` the id is not pending, and every other id is as it was.
  pub pending-mark_done :
      (q : OutboundQueue) (i k : Str)
      → pending (write_all (mark_done io i q) q) k ≡ (if str_eq i k then none else pending q k)
  unfolding mark_done
  pending-mark_done q i k = pending-mark_found q i k _ refl

  pub dlq-mark_done :
      (q : OutboundQueue) (i : Str) → (write_all (mark_done io i q) q).dlq_lines ≡ q.dlq_lines
  unfolding mark_done mark_found write_all write
  dlq-mark_done q i = ground arith

  pub dlq-update :
      (q : OutboundQueue) (j : OutboundJob) → (write_all (update io j) q).dlq_lines ≡ q.dlq_lines
  unfolding update write_all write
  dlq-update q j = refl

  pub pending-tombstone :
      (q : OutboundQueue) (j : OutboundJob)
      → pending (write (Write.append_queue (io.to_string (tombstone j))) q) j.message_id ≡ none
  pending-tombstone q j =
      rw (pending-append q (tombstone j) j.message_id, (str_eq_iff j.message_id _).1 refl)

  pending-append_dlq :
      (q : OutboundQueue) (line k : Str) → pending (write (Write.append_dlq line) q) k ≡ pending q k
  unfolding pending write
  pending-append_dlq q line k = refl

  -- However many of its writes were made before a crash, `move_to_dlq` has not put the job into the
  -- dead-letter file, or the job is not pending any more.
  pub move_to_dlq_crash :
      (q : OutboundQueue) (j : OutboundJob) (n : ℕ)
      → ((write_all (take n (move_to_dlq io j)) q).dlq_lines ≡ q.dlq_lines)
        ⊎ (pending (write_all (take n (move_to_dlq io j)) q) j.message_id ≡ none)
  unfolding move_to_dlq write_all
  move_to_dlq_crash q j zero = inl refl
  move_to_dlq_crash q j (suc zero) = inr (pending-tombstone q j)
  move_to_dlq_crash q j (suc (suc zero)) = inr (pending-append_dlq _ _ _ ∙ pending-tombstone q j)
  move_to_dlq_crash q j (suc (suc (suc n))) = inr (pending-append_dlq _ _ _ ∙ pending-tombstone q j)

  -- Run to its end, `move_to_dlq` takes the job out of the queue, leaves the other ids, and appends
  -- the job's row to the dead-letter file.
  pub move_to_dlq_lem :
      (q : OutboundQueue) (j : OutboundJob) (k : Str)
      → (pending (write_all (move_to_dlq io j) q) k
          ≡ (if str_eq j.message_id k then none else pending q k))
        × ((write_all (move_to_dlq io j) q).dlq_lines ≡ q.dlq_lines ++ io.to_string j ∷ [])
  unfolding move_to_dlq write_all
  move_to_dlq_lem q j k =
      (pending-append_dlq _ _ k ∙ pending-append q (tombstone j) k, unfold write in refl)

  -- A pending job has its id, and is not done.
  pub pending-live :
      (q : OutboundQueue) (k : Str) (j : OutboundJob)
      → pending q k ≡ some j
      → (j.message_id ≡ k) × (j.done ≡ false)
  unfolding pending
  pending-live q k j h = live (lookup k (read_latest_per_id io q.queue_lines)) refl h
    where
      live :
          (o : Option OutboundJob)
          → lookup k (read_latest_per_id io q.queue_lines) ≡ o
          → drop_done o ≡ some j
          → (j.message_id ≡ k) × (j.done ≡ false)
      live none e d = absurd (cc)
      live (some i) e d = chosen (i.done) refl d
        where
          chosen :
              (b : Bool)
              → i.done ≡ b
              → (if b then none else some i) ≡ some j
              → (j.message_id ≡ k) × (j.done ≡ false)
          chosen true f d' = absurd (cc)
          chosen false f d' =
              let same : i ≡ j = some-injective _ _ d' in
              subst (λ (x : OutboundJob). (x.message_id ≡ k) × (x.done ≡ false)) same
                (lookup-id k _ (read_latest_per_id-IsKeyed io q.queue_lines) e, f)
