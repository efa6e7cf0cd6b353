-- ===== src/AttachmentStore/Sweep.antt =====
-- src/attachment_store.rs: which rows and files a sweep removes.
use nexo_plugin_email.Base.{
  ℕ, ◌-◌, ◌≤◌, ◌<◌, Str, Bool, true, false, Option, none, some, List, [], ◌∷◌, ◌≡◌, ◌≢◌, ◌⊎◌, inl,
  inr, refl, sym, subst, arith, ◌==◌, ltb, if◌then◌else◌, Bool-cases, lookup, str_is_eq, str_eq,
  str_eq_iff, Elem,
}
use nexo_plugin_email.AttachmentStore.{AttachmentRow, AttachmentTable, stale, delete_stale, gc}

-- Every sha256 has one row at most.
abbrev pub IsKey : Str → AttachmentTable → Type 0
IsKey k [] = ⊥
IsKey k ((j, r) ∷ t) = (k ≡ j) ⊎ IsKey k t

abbrev pub HasDistinctKeys : AttachmentTable → Type 0
HasDistinctKeys [] = Unit
HasDistinctKeys ((j, r) ∷ t) = (¬ IsKey j t) × HasDistinctKeys t

stale-IsKey : (cutoff : ℕ) (k : Str) (t : AttachmentTable) → Elem k (stale cutoff t) → IsKey k t
unfolding stale
stale-IsKey cutoff k [] h = h
stale-IsKey cutoff k ((j, r) ∷ t) h = split (ltb r.last_seen cutoff) (stale-IsKey cutoff k t) h
  where
    split :
        (b : Bool)
        → (Elem k (stale cutoff t) → IsKey k t)
        → Elem k (if b then j ∷ stale cutoff t else stale cutoff t)
        → (k ≡ j) ⊎ IsKey k t
    split true ih (inl e) = inl e
    split true ih (inr h') = inr (ih h')
    split false ih h' = inr (ih h')

lookup-absent :
    (cutoff : ℕ) (k : Str) (t : AttachmentTable)
    → ¬ IsKey k t
    → lookup k (delete_stale cutoff t) ≡ none
unfolding delete_stale lookup
lookup-absent cutoff k [] h = refl
lookup-absent cutoff k ((j, r) ∷ t) h =
    let ih = lookup-absent cutoff k t (λ q. h (inr q)) in
    let other : j ≢ k = λ e. h (inl (sym e)) in ground (arith, ih, str_eq_iff j k)

-- What becomes of the row and the file of a sha256: an expired row and its file go, anything else
-- stays.
pub IsSwept : ℕ → Str → List Str → AttachmentTable → Option AttachmentRow → Type 0
IsSwept cutoff k files t' none = (¬ Elem k files) × (lookup k t' ≡ none)
IsSwept cutoff k files t' (some r) =
    ((r.last_seen < cutoff) × Elem k files × (lookup k t' ≡ none))
    ⊎ ((cutoff ≤ r.last_seen) × (¬ Elem k files) × (lookup k t' ≡ some r))

-- A row of another sha256, in front, is nothing to `k`.
IsSwept-other :
    (cutoff : ℕ) (k j : Str) (r : AttachmentRow) (t : AttachmentTable) (o : Option AttachmentRow)
    (b : Bool)
    → j ≢ k
    → IsSwept cutoff k (stale cutoff t) (delete_stale cutoff t) o
    → IsSwept cutoff k
        (if b then j ∷ stale cutoff t else stale cutoff t)
        (if b then delete_stale cutoff t else (j, r) ∷ delete_stale cutoff t)
        o
unfolding IsSwept lookup
IsSwept-other cutoff k j r t none true ne (absent, gone) =
    (λ h. elim h [ inl e ↦ ne (sym e) | inr h' ↦ absent h' ], gone)
IsSwept-other cutoff k j r t none false ne (absent, gone) = (absent, ground (arith, str_eq_iff j k))
IsSwept-other cutoff k j r t (some x) true ne (inl (old, listed, gone)) =
    inl (old, inr listed, gone)
IsSwept-other cutoff k j r t (some x) true ne (inr (young, absent, found)) =
    inr (young, λ h. elim h [ inl e ↦ ne (sym e) | inr h' ↦ absent h' ], found)
IsSwept-other cutoff k j r t (some x) false ne (inl (old, listed, gone)) =
    inl (old, listed, ground (arith, str_eq_iff j k))
IsSwept-other cutoff k j r t (some x) false ne (inr (young, absent, found)) =
    inr (young, absent, ground (arith, str_eq_iff j k))

IsSwept-here :
    (cutoff : ℕ) (j : Str) (r : AttachmentRow) (t : AttachmentTable)
    → ¬ IsKey j t
    → IsSwept cutoff j (stale cutoff ((j, r) ∷ t)) (delete_stale cutoff ((j, r) ∷ t)) (some r)
unfolding IsSwept stale delete_stale lookup
IsSwept-here cutoff j r t new = elim (Bool-cases (ltb r.last_seen cutoff)) [
  | inl e ↦ inl (rw e (ground arith, inl refl, lookup-absent cutoff j t new))
  | inr e ↦ inr (
      rw e (
        ground arith,
        λ h. new (stale-IsKey cutoff j t h),
        ground (arith, (str_eq_iff j j).1 refl),
      ))
]

swept :
    (cutoff : ℕ) (k : Str) (t : AttachmentTable)
    → HasDistinctKeys t
    → IsSwept cutoff k (stale cutoff t) (delete_stale cutoff t) (lookup k t)
unfolding stale delete_stale lookup IsSwept
swept cutoff k [] h = (λ e. e, refl)
swept cutoff k ((j, r) ∷ t) h = elim (Bool-cases (str_eq j k)) [
  | inl e ↦ rw e (
      subst
        (λ x.
          IsSwept cutoff x (stale cutoff ((j, r) ∷ t)) (delete_stale cutoff ((j, r) ∷ t)) (some r))
        ((str_eq_iff j k).0 e) (IsSwept-here cutoff j r t h.0))
  | inr e ↦
      let other : j ≢ k = λ q. ground (arith, str_eq_iff j k) in
      rw e (
        IsSwept-other cutoff k j r t (lookup k t) (ltb r.last_seen cutoff) other
          (swept cutoff k t h.1))
]

-- No time is before 0, so without a retention nothing expires.
abbrev pub cutoff_of : ℕ → ℕ → ℕ
cutoff_of retention_seconds now = if retention_seconds == 0 then 0 else now - retention_seconds

nothing-IsSwept :
    (k : Str) (t : AttachmentTable) (o : Option AttachmentRow) → lookup k t ≡ o → IsSwept 0 k [] t o
unfolding IsSwept
nothing-IsSwept k t none e = (λ h. h, e)
nothing-IsSwept k t (some r) e = inr (omega arith, λ h. h, e)

delete_stale-none :
    (cutoff : ℕ) (t : AttachmentTable) → stale cutoff t ≡ [] → delete_stale cutoff t ≡ t
unfolding stale delete_stale
delete_stale-none cutoff [] h = refl
delete_stale-none cutoff ((j, r) ∷ t) h = ground (arith, delete_stale-none cutoff t)

table_after :
    (t u : AttachmentTable) (names : List Str)
    → (names ≡ [] → u ≡ t)
    → (elim names [ [] ↦ t | _ ∷ _ ↦ u ]) ≡ u
table_after t u [] h = sym (h refl)
table_after t u (s ∷ names) h = refl

-- With distinct keys, a sweep removes the rows that were last seen before the cutoff and asks for
-- the removal of their files, whether the removals succeed or not; the other rows stay as they are,
-- and no file of theirs is touched. With a retention of 0 nothing goes.
pub gc_lem :
    (remove_file : Str → Bool) (retention_seconds now : ℕ) (t : AttachmentTable) (k : Str)
    → HasDistinctKeys t
    → IsSwept
        (cutoff_of retention_seconds now)
        k
        (gc remove_file retention_seconds now t).files
        (gc remove_file retention_seconds now t).table
        (lookup k t)
unfolding gc
gc_lem remove_file retention_seconds now t k h = elim (Bool-cases (retention_seconds == 0)) [
  | inl e ↦ rw e (nothing-IsSwept k t (lookup k t) refl)
  | inr e ↦
      let cutoff = now - retention_seconds in
      rw e (
        subst (λ u. IsSwept cutoff k (stale cutoff t) u (lookup k t))
          (sym
            (table_after t (delete_stale cutoff t) (stale cutoff t) (delete_stale-none cutoff t)))
          (swept cutoff k t h))
]
