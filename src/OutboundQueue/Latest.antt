-- ===== src/OutboundQueue/Latest.antt =====
-- src/outbound_queue.rs: what `read_latest_per_id` reads, as the last row of each id.
use nexo_plugin_email.Base.{
  Str, Option, none, some, List, [], ◌∷◌, ◌++◌, ◌≡◌, refl, ◌∙◌, arith, if◌then◌else◌, lookup,
  insert, lookup-insert, str_eq, str_eq_iff, str_is_eq, Map, All, ◌≢◌, Bool-cases, inl, inr,
}
use nexo_plugin_email.OutboundQueue.{
  OutboundJob, Storage, is_blank, read_line, read_from, read_latest_per_id,
}

-- Every entry is under its own id, and no id is twice.
abbrev pub IsAbsent : Str → Map Str OutboundJob → Type 0
IsAbsent k m = All (λ e. e.0 ≢ k) m

abbrev pub IsKeyed : Map Str OutboundJob → Type 0
IsKeyed [] = Unit
IsKeyed ((k, j) ∷ m) = (j.message_id ≡ k) × IsAbsent k m × IsKeyed m

insert-IsAbsent :
    (i : Str) (j : OutboundJob) (m : Map Str OutboundJob)
    → i ≢ j.message_id
    → IsAbsent i m
    → IsAbsent i (insert j.message_id j m)
unfolding insert
insert-IsAbsent i j [] ne h = ground arith
insert-IsAbsent i j ((k, x) ∷ m) ne h = ground (arith, insert-IsAbsent i j m ne)

insert-IsKeyed :
    (j : OutboundJob) (m : Map Str OutboundJob) → IsKeyed m → IsKeyed (insert j.message_id j m)
unfolding insert
insert-IsKeyed j [] h = ground arith
insert-IsKeyed j ((k, x) ∷ m) h =
    ground (arith, str_eq_iff k j.message_id, insert-IsKeyed j m, insert-IsAbsent k j m)

module _ (io : Storage) where
  pub read_from-append :
      (out : Map Str OutboundJob) (xs ys : List Str)
      → read_from io out (xs ++ ys) ≡ read_from io (read_from io out xs) ys
  unfolding read_from
  read_from-append out [] ys = refl
  read_from-append out (x ∷ xs) ys = read_from-append (read_line io out x) xs ys

  pub read_from-row :
      (out : Map Str OutboundJob) (j : OutboundJob) (rest : List Str)
      → read_from io out (io.to_string j ∷ rest) ≡ read_from io (insert j.message_id j out) rest
  unfolding read_from read_line
  read_from-row out j rest = rw (io.is_blank-to_string j, io.from_str-to_string j)

  -- An append of a row inserts it.
  pub read_latest_per_id-append :
      (lines : List Str) (j : OutboundJob)
      → read_latest_per_id io (lines ++ io.to_string j ∷ [])
        ≡ insert j.message_id j (read_latest_per_id io lines)
  unfolding read_latest_per_id read_from
  read_latest_per_id-append lines j =
      read_from-append [] lines (io.to_string j ∷ []) ∙ read_from-row (read_from io [] lines) j []

  pub lookup-append :
      (lines : List Str) (j : OutboundJob) (k : Str)
      → lookup k (read_latest_per_id io (lines ++ io.to_string j ∷ []))
        ≡ (if str_eq j.message_id k then some j else lookup k (read_latest_per_id io lines))
  lookup-append lines j k =
      rw (read_latest_per_id-append lines j)
        (lookup-insert j.message_id k j (read_latest_per_id io lines))

  read_line-IsKeyed :
      (out : Map Str OutboundJob) (line : Str) → IsKeyed out → IsKeyed (read_line io out line)
  unfolding read_line
  read_line-IsKeyed out line h = elim (Bool-cases (is_blank line)) [
    | inl blank ↦ rw blank h
    | inr text ↦ rw text (go (io.from_str line))
  ]
    where
      go :
          (o : Option OutboundJob)
          → IsKeyed (elim o [ none ↦ out | some j ↦ insert j.message_id j out ])
      go none = h
      go (some j) = insert-IsKeyed j out h

  read_from-IsKeyed :
      (out : Map Str OutboundJob) (lines : List Str)
      → IsKeyed out
      → IsKeyed (read_from io out lines)
  unfolding read_from
  read_from-IsKeyed out [] h = h
  read_from-IsKeyed out (x ∷ xs) h =
      read_from-IsKeyed (read_line io out x) xs (read_line-IsKeyed out x h)

  pub read_latest_per_id-IsKeyed : (lines : List Str) → IsKeyed (read_latest_per_id io lines)
  unfolding read_latest_per_id
  read_latest_per_id-IsKeyed lines = read_from-IsKeyed [] lines tt

pub lookup-id :
    (k : Str) (m : Map Str OutboundJob) {j : OutboundJob}
    → IsKeyed m
    → lookup k m ≡ some j
    → j.message_id ≡ k
unfolding lookup
lookup-id k [] h e = cc
lookup-id k ((i, x) ∷ m) {j} h e =
    ground (arith, str_eq_iff i k, λ (p : lookup k m ≡ some j). lookup-id k m h.2 p)
