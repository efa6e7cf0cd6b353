-- ===== src/OutboundQueue.antt =====
-- src/outbound_queue.rs: the append-only JSONL queue of one account and its dead-letter file.
-- A file is the list of its lines. An operation is the list of the file writes that it makes, in
-- order, so that a crash between two writes is a prefix of that list. The writes themselves do not
-- fail. The mutex makes the operations of one queue run one after another.
pub mod Latest
pub mod Pending
pub mod Ids
pub mod Listing
pub mod Compaction
pub mod DeadLetters
use mathlib.Core.List.Permᴰ
use nexo_plugin_email.Base.{
  ℕ, ◌+◌, ◌-◌, ◌*◌, Str, Bool, true, false, not, Option, none, some, List, [], ◌∷◌, ◌++◌, map, ◌≡◌,
  is_whitespace, trim, str_eq, ltb, leb, ◌==◌, if◌then◌else◌, Map, lookup, insert, filter_by,
  length, drop, str_is_eq,
}
use mathlib.Core.List.{Permᴰ}

-- `SmtpEnvelope` of nexo-email-probe, by the fields that src/outbound.rs gives.
pub record SmtpEnvelope : Type 0 where
  pub from : Str
  pub to : List Str
  pub cc : List Str
  pub bcc : List Str

-- Times are Unix seconds of a clock that is past 1970, so they are natural numbers.
pub record OutboundJob : Type 0 where
  pub message_id : Str
  pub instance_id : Str
  pub envelope : SmtpEnvelope
  pub raw_mime : List ℕ
  pub attempts : ℕ
  pub next_attempt_at : ℕ
  pub last_error : Option Str
  pub created_at : ℕ
  pub done : Bool

unfoldable pub is_blank : Str → Bool
unfolding is_whitespace
is_blank line = elim (trim line) [ [] ↦ true | _ ∷ _ ↦ false ]

-- What the queue takes from serde_json and from the standard HashMap: a row prints to a line that
-- is not blank and parses back, and the values come out of a map in some order.
pub record Storage : Type 0 where
  pub to_string : OutboundJob → Str
  pub from_str : Str → Option OutboundJob
  pub from_str-to_string : (j : OutboundJob) → from_str (to_string j) ≡ some j
  pub is_blank-to_string : (j : OutboundJob) → is_blank (to_string j) ≡ false
  pub order : List OutboundJob → List OutboundJob
  pub order-perm : (js : List OutboundJob) → Permᴰ (order js) js

pub record OutboundQueue : Type 0 where
  pub queue_lines : List Str
  pub dlq_lines : List Str

-- One change of a file: an append of a line, or a rename of a rewritten file over it.
pub data Write : Type 0 where
  append_queue append_dlq : Str → Write
  replace_queue replace_dlq : List Str → Write

unfoldable pub write : Write → OutboundQueue → OutboundQueue
write (append_queue line) q = record q { queue_lines = q.queue_lines ++ line ∷ [] }
write (append_dlq line) q = record q { dlq_lines = q.dlq_lines ++ line ∷ [] }
write (replace_queue lines) q = record q { queue_lines = lines }
write (replace_dlq lines) q = record q { dlq_lines = lines }

unfoldable pub write_all : List Write → OutboundQueue → OutboundQueue
unfolding write
write_all [] q = q
write_all (w ∷ ws) q = write_all ws (write w q)

-- `OutboundJob` with `done` set
abbrev pub tombstone : OutboundJob → OutboundJob
tombstone j = record j { done = true }

unfoldable pub count_lines : List Str → ℕ
unfolding is_blank filter_by
count_lines lines = length (filter_by (λ line. not (is_blank line)) lines)

-- HashMap::values
unfoldable pub values : Map Str OutboundJob → List OutboundJob
values [] = []
values ((k, j) ∷ m) = j ∷ values m

-- sort_by_key(|j| j.created_at), which is stable
unfoldable pub insert_by_created : OutboundJob → List OutboundJob → List OutboundJob
insert_by_created j [] = j ∷ []
insert_by_created j (k ∷ ks) =
    if leb j.created_at k.created_at then j ∷ k ∷ ks else k ∷ insert_by_created j ks

unfoldable pub sort_by_created : List OutboundJob → List OutboundJob
unfolding insert_by_created
sort_by_created [] = []
sort_by_created (j ∷ js) = insert_by_created j (sort_by_created js)

abbrev pub is_live : OutboundJob → Bool
is_live j = not j.done

module _ (io : Storage) where
  -- one round of the loop of `read_latest_per_id`: `out` is the map that is built
  unfoldable pub read_line : Map Str OutboundJob → Str → Map Str OutboundJob
  unfolding is_blank insert str_eq
  read_line out line =
      if is_blank line
      then out
      else elim (io.from_str line) [ none ↦ out | some j ↦ insert j.message_id j out ]

  unfoldable pub read_from : Map Str OutboundJob → List Str → Map Str OutboundJob
  unfolding read_line
  read_from out [] = out
  read_from out (line ∷ lines) = read_from (read_line out line) lines

  unfoldable pub read_latest_per_id : List Str → Map Str OutboundJob
  unfolding read_from
  read_latest_per_id lines = read_from [] lines

  unfoldable pub enqueue : OutboundJob → List Write
  enqueue job = append_queue (io.to_string job) ∷ []

  unfoldable pub update : OutboundJob → List Write
  update job = append_queue (io.to_string job) ∷ []

  -- the row that `mark_done` appends for what it found
  unfoldable pub mark_found : Option OutboundJob → List Write
  mark_found none = []
  mark_found (some j) = append_queue (io.to_string (tombstone j)) ∷ []

  unfoldable pub mark_done : Str → OutboundQueue → List Write
  unfolding read_latest_per_id lookup mark_found
  mark_done message_id q = mark_found (lookup message_id (read_latest_per_id q.queue_lines))

  unfoldable pub move_to_dlq : OutboundJob → List Write
  move_to_dlq job = append_queue (io.to_string (tombstone job)) ∷ append_dlq (io.to_string job) ∷ []

  -- the number of lines that are dropped, and the writes
  unfoldable pub trim_dlq : ℕ → OutboundQueue → ℕ × List Write
  unfolding count_lines
  trim_dlq max q =
      if max == 0
      then (0, [])
      else if leb (count_lines q.dlq_lines) max
      then (0, [])
      else let all = filter_by (λ line. not (is_blank line)) q.dlq_lines in
        let drop_n = length all - max in (drop_n, replace_dlq (drop drop_n all) ∷ [])

  unfoldable pub list_pending : OutboundQueue → List OutboundJob
  unfolding read_latest_per_id values filter_by sort_by_created
  list_pending q =
      sort_by_created (filter_by is_live (io.order (values (read_latest_per_id q.queue_lines))))

  unfoldable pub pending_count : OutboundQueue → ℕ
  unfolding list_pending
  pending_count q = length (list_pending q)

  unfoldable pub dlq_count : OutboundQueue → ℕ
  unfolding count_lines
  dlq_count q = count_lines q.dlq_lines

  -- Whether it ran, and the writes. `done as f64 / total as f64 < 0.5` is `2 * done < total`.
  unfoldable pub compact_if_needed : OutboundQueue → Bool × List Write
  unfolding read_latest_per_id values filter_by
  compact_if_needed q =
      let latest = values (read_latest_per_id q.queue_lines) in
      let total = length latest in
      let done = length (filter_by (λ j. j.done) latest) in
      if total == 0
      then (false, [])
      else if ltb (2 * done) total
      then (false, [])
      else (true, replace_queue (map io.to_string (filter_by is_live (io.order latest))) ∷ [])
