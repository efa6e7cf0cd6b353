-- ===== src/OutboundQueue/Ids.antt =====
-- src/outbound_queue.rs: the jobs of a list by their ids.
use mathlib.Core.List.Permᴰ
use mathlib.Core.List.{Permᴰ}
use nexo_plugin_email.Base.{
  Str, Bool, Option, none, some, List, [], ◌∷◌, ◌≡◌, ◌≢◌, refl, sym, suc, length, ◌∙◌, arith,
  if◌then◌else◌, subst, str_eq, str_eq_iff, str_is_eq, All, filter_by, ap, Bool-cases, Option-cases,
  inl, inr,
}
use nexo_plugin_email.OutboundQueue.{OutboundJob}

unfoldable pub pick : Str → OutboundJob → Option OutboundJob → Option OutboundJob
unfolding str_eq
pick k j (some found) = some found
pick k j none = if str_eq j.message_id k then some j else none

-- The job of an id in a list, the last one where an id is twice.
unfoldable pub find_job : Str → List OutboundJob → Option OutboundJob
unfolding pick
find_job k [] = none
find_job k (j ∷ js) = pick k j (find_job k js)

abbrev pub HasNoJob : Str → List OutboundJob → Type 0
HasNoJob k js = All (λ j. j.message_id ≢ k) js

-- No two jobs of the list have the same id.
abbrev pub HasDistinctIds : List OutboundJob → Type 0
HasDistinctIds [] = Unit
HasDistinctIds (j ∷ js) = HasNoJob j.message_id js × HasDistinctIds js

pub find_job-HasNoJob : (k : Str) (js : List OutboundJob) → HasNoJob k js → find_job k js ≡ none
unfolding find_job
find_job-HasNoJob k [] h = refl
find_job-HasNoJob k (j ∷ js) h =
    rw (find_job-HasNoJob k js h.1) (ground (arith, str_eq_iff j.message_id k))

pub All-perm :
    (P : OutboundJob → Type 0) {xs ys : List OutboundJob} → Permᴰ xs ys → All P xs → All P ys
All-perm P Permᴰ.nil h = h
All-perm P (Permᴰ.cons e p) h = (subst P e h.0, All-perm P p h.1)
All-perm P (Permᴰ.swap e f) h = (subst P f h.1.0, (subst P e h.0, h.1.1))
All-perm P (Permᴰ.trans p q) h = All-perm P q (All-perm P p h)

HasDistinctIds-swap :
    (a b : OutboundJob) (l : List OutboundJob)
    → HasDistinctIds (a ∷ b ∷ l)
    → HasDistinctIds (b ∷ a ∷ l)
HasDistinctIds-swap a b l ((ba, al), (bl, hl)) = (((λ e. ba (sym e)), bl), (al, hl))

pub HasDistinctIds-perm :
    {xs ys : List OutboundJob} → Permᴰ xs ys → HasDistinctIds xs → HasDistinctIds ys
HasDistinctIds-perm Permᴰ.nil h = h
HasDistinctIds-perm (Permᴰ.cons {l₁ = l} e p) h = (
  All-perm _ p (subst (λ (x : OutboundJob). HasNoJob x.message_id l) e h.0),
  HasDistinctIds-perm p h.1,
)
HasDistinctIds-perm (Permᴰ.swap {a = a} {b = b} {l = l} e f) h =
    subst HasDistinctIds (λ i. f i ∷ e i ∷ l) (HasDistinctIds-swap a b l h)
HasDistinctIds-perm (Permᴰ.trans p q) h = HasDistinctIds-perm q (HasDistinctIds-perm p h)

find_job-swap :
    (k : Str) (a b : OutboundJob) (l : List OutboundJob)
    → b.message_id ≢ a.message_id
    → find_job k (a ∷ b ∷ l) ≡ find_job k (b ∷ a ∷ l)
unfolding find_job
find_job-swap k a b l ne = elim (Option-cases (find_job k l)) [
  | inl e ↦ rw e (ground (arith, str_eq_iff a.message_id k, str_eq_iff b.message_id k))
  | inr (j, e) ↦ rw e
]

-- With distinct ids, the order of the list does not matter.
pub find_job-perm :
    (k : Str) {xs ys : List OutboundJob}
    → Permᴰ xs ys
    → HasDistinctIds xs
    → find_job k xs ≡ find_job k ys
unfolding find_job
find_job-perm k Permᴰ.nil h = refl
find_job-perm k (Permᴰ.cons e p) h = let ih = find_job-perm k p h.1 in λ i. pick k (e i) (ih i)
find_job-perm k (Permᴰ.swap {a = a} {b = b} {l = l} e f) h =
    find_job-swap k a b l h.0.0 ∙ (λ i. find_job k (f i ∷ e i ∷ l))
find_job-perm k (Permᴰ.trans p q) h =
    find_job-perm k p h ∙ find_job-perm k q (HasDistinctIds-perm p h)

-- `filter_by` at a rearranged list.
module _ (p : OutboundJob → Bool) where
  filter_by-perm_cons :
      (a : OutboundJob) (xs ys : List OutboundJob)
      → Permᴰ (filter_by p xs) (filter_by p ys)
      → Permᴰ (filter_by p (a ∷ xs)) (filter_by p (a ∷ ys))
  unfolding filter_by
  filter_by-perm_cons a xs ys h = elim (Bool-cases (p a)) [
    | inl e ↦ rw e (Permᴰ.cons refl h)
    | inr e ↦ rw e h
  ]

  filter_by-perm_swap :
      (a b : OutboundJob) (l : List OutboundJob)
      → Permᴰ (filter_by p (a ∷ b ∷ l)) (filter_by p (b ∷ a ∷ l))
  unfolding filter_by
  filter_by-perm_swap a b l = elim (Bool-cases (p a)) [
    | inl e ↦ elim (Bool-cases (p b)) [
      | inl f ↦ rw (e, f) (Permᴰ.swap refl refl)
      | inr f ↦ rw (e, f) (Permᴰ.refl _)
    ]
    | inr e ↦ rw e (Permᴰ.refl _)
  ]

  pub filter_by-perm :
      {xs ys : List OutboundJob} → Permᴰ xs ys → Permᴰ (filter_by p xs) (filter_by p ys)
  filter_by-perm Permᴰ.nil = Permᴰ.refl _
  filter_by-perm (Permᴰ.cons {a = a} {l₁ = xs} {l₂ = ys} e h) =
      subst (λ (b : OutboundJob). Permᴰ (filter_by p (a ∷ xs)) (filter_by p (b ∷ ys))) e
        (filter_by-perm_cons a xs ys (filter_by-perm h))
  filter_by-perm (Permᴰ.swap {a = a} {b = b} {l = l} e f) =
      subst (λ (ys : List OutboundJob). Permᴰ (filter_by p (a ∷ b ∷ l)) (filter_by p ys))
        (λ i. f i ∷ e i ∷ l) (filter_by-perm_swap a b l)
  filter_by-perm (Permᴰ.trans h k) = Permᴰ.trans (filter_by-perm h) (filter_by-perm k)

pub length-perm : {xs ys : List OutboundJob} → Permᴰ xs ys → length xs ≡ length ys
length-perm Permᴰ.nil = refl
length-perm (Permᴰ.cons e h) = ap suc (length-perm h)
length-perm (Permᴰ.swap e f) = refl
length-perm (Permᴰ.trans h k) = length-perm h ∙ length-perm k
