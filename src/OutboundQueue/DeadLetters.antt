-- ===== src/OutboundQueue/DeadLetters.antt =====
-- src/outbound_queue.rs: `trim_dlq`.
use nexo_plugin_email.Base.{
  ℕ, ◌-◌, ◌≤◌, ◌<◌, Str, false, not, List, [], ◌∷◌, ◌≡◌, refl, arith, length, drop, length-drop,
  filter_by, if◌then◌else◌, ◌==◌, All, All-drop, Bool-cases, inl, inr, ◌⊎◌, ap,
}
use nexo_plugin_email.OutboundQueue.{
  OutboundQueue, Storage, write, write_all, count_lines, is_blank, trim_dlq, dlq_count,
}

abbrev IsText : Str → Type 0
IsText line = is_blank line ≡ false

-- The rows of a file: the lines that are not blank.
abbrev pub rows : List Str → List Str
rows lines = filter_by (λ line. not (is_blank line)) lines

rows-IsText : (lines : List Str) → All IsText (rows lines)
unfolding filter_by
rows-IsText [] = tt
rows-IsText (l ∷ ls) = elim (Bool-cases (is_blank l)) [
  | inl e ↦ rw e (rows-IsText ls)
  | inr e ↦ rw e (e, rows-IsText ls)
]

rows_of_IsText : (lines : List Str) → All IsText lines → rows lines ≡ lines
unfolding filter_by
rows_of_IsText [] h = refl
rows_of_IsText (l ∷ ls) h = rw h.0 (ap (λ r. l ∷ r) (rows_of_IsText ls h.1))

dlq_count_lem : (io : Storage) (q : OutboundQueue) → dlq_count io q ≡ length (rows q.dlq_lines)
unfolding dlq_count count_lines
dlq_count_lem io q = refl

module _ (io : Storage) where
  abbrev pub trimmed : ℕ → OutboundQueue → OutboundQueue
  trimmed max q = write_all (trim_dlq io max q).1 q

  trim_cases :
      (max : ℕ) (q : OutboundQueue)
      → ((trimmed max q ≡ q) × ((trim_dlq io max q).0 ≡ 0) × ((max ≡ 0) ⊎ (dlq_count io q ≤ max)))
        ⊎ ((0 < max)
            × (max < dlq_count io q)
            × ((trim_dlq io max q).0 ≡ dlq_count io q - max)
            × (trimmed max q
                ≡ record q { dlq_lines = drop (dlq_count io q - max) (rows q.dlq_lines) }))
  unfolding trim_dlq dlq_count write_all write count_lines
  trim_cases max q = ground arith

  -- With a cap of 0 nothing is dropped. With any other, the dead-letter file has at most `max` rows
  -- afterwards; they are the last rows of the file, in their order, the number that is returned is
  -- that of the rows dropped before them, and the queue file stays.
  pub trim_dlq_lem :
      (max : ℕ) (q : OutboundQueue)
      → (rows (trimmed max q).dlq_lines ≡ drop (trim_dlq io max q).0 (rows q.dlq_lines))
        × ((trim_dlq io max q).0 ≡ (if max == 0 then 0 else dlq_count io q - max))
        × ((max ≡ 0) ⊎ (dlq_count io (trimmed max q) ≤ max))
        × ((trimmed max q).queue_lines ≡ q.queue_lines)
  trim_dlq_lem max q = elim (trim_cases max q) [
    | inl (same, none_dropped, small) ↦
        (rw (same, none_dropped), rw none_dropped (ground arith), rw same small, rw same)
    | inr (pos, big, dropped, cut) ↦
        let kept = drop (dlq_count io q - max) (rows q.dlq_lines) in
        let texts = All-drop IsText (dlq_count io q - max) _ (rows-IsText q.dlq_lines) in
        let left = dlq_count_lem io (record q { dlq_lines = kept }) in
        (
          rw (dropped, cut) (rows_of_IsText kept texts),
          rw dropped (ground arith),
          inr (
              rw (cut, left, rows_of_IsText kept texts)
                (omega (
                  arith,
                  length-drop (dlq_count io q - max) (rows q.dlq_lines),
                  dlq_count_lem io q,
                ))),
          rw cut,
        )
  ]
