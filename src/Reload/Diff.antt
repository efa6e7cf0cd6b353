-- ===== src/Reload/Diff.antt =====
-- src/reload.rs: what each part of the difference holds, for every instance.
use nexo_plugin_email.Base.{
  Str, Bool, true, false, not, Option, none, some, List, [], ◌∷◌, ◌≡◌, inl, inr, refl, sym, ap, ◌∙◌,
  subst, arith, if◌then◌else◌, Bool-cases, any, str_eq, str_eq_iff,
}
use nexo_plugin_email.Reload.{
  EmailAccountConfig, AccountDiff, accounts_equal, find_account, push_new, diff_new, removed_from,
  compute_account_diff,
}

-- No two accounts have the same instance.
abbrev pub HasDistinctInstances : List EmailAccountConfig → Type 0
HasDistinctInstances [] = Unit
HasDistinctInstances (a ∷ rest) =
    (find_account a.instance_id rest ≡ none) × HasDistinctInstances rest

-- What is added, changed and removed for one instance, by its old and its new account.
abbrev pub added_of : (old new : Option EmailAccountConfig) → Option EmailAccountConfig
added_of none new = new
added_of (some o) new = none

abbrev pub changed_of : (old new : Option EmailAccountConfig) → Option EmailAccountConfig
changed_of none new = none
changed_of (some o) none = none
changed_of (some o) (some a) = if accounts_equal o a then none else some a

abbrev pub is_removed : (old new : Option EmailAccountConfig) → Bool
is_removed (some o) none = true
is_removed _ _ = false

find_account-cons :
    (id : Str) (a : EmailAccountConfig) (rest : List EmailAccountConfig)
    → find_account id (a ∷ rest)
      ≡ (if str_eq a.instance_id id then some a else find_account id rest)
unfolding find_account
find_account-cons id a rest = refl

-- One more new account, which is that of `id`, or is not.
push_new-here :
    (o : Option EmailAccountConfig) (a : EmailAccountConfig) (d : AccountDiff) (id : Str)
    → str_eq a.instance_id id ≡ true
    → find_account id d.added ≡ added_of o none
    → find_account id d.changed ≡ none
    → (find_account id (push_new o a d).added ≡ added_of o (some a))
      × (find_account id (push_new o a d).changed ≡ changed_of o (some a))
unfolding push_new find_account
push_new-here none a d id e no_added no_changed = (rw e refl, no_changed)
push_new-here (some old) a d id e no_added no_changed = elim (Bool-cases (accounts_equal old a)) [
  | inl same ↦ rw same (no_added, no_changed)
  | inr other ↦ rw other (no_added, rw e refl)
]

push_new-elsewhere :
    (o : Option EmailAccountConfig) (a : EmailAccountConfig) (d : AccountDiff) (id : Str)
    → str_eq a.instance_id id ≡ false
    → (find_account id (push_new o a d).added ≡ find_account id d.added)
      × (find_account id (push_new o a d).changed ≡ find_account id d.changed)
unfolding push_new find_account
push_new-elsewhere none a d id e = (rw e refl, refl)
push_new-elsewhere (some old) a d id e = elim (Bool-cases (accounts_equal old a)) [
  | inl same ↦ rw same (refl, refl)
  | inr other ↦ rw other (refl, rw e refl)
]

pub changed_of-none : (o : Option EmailAccountConfig) → changed_of o none ≡ none
changed_of-none none = refl
changed_of-none (some o) = refl

pub diff_new_lem :
    (old new : List EmailAccountConfig) (id : Str)
    → HasDistinctInstances new
    → (find_account id (diff_new old new).added
        ≡ added_of (find_account id old) (find_account id new))
      × (find_account id (diff_new old new).changed
          ≡ changed_of (find_account id old) (find_account id new))
unfolding diff_new find_account
diff_new_lem old [] id h =
    (none_added (find_account id old), sym (changed_of-none (find_account id old)))
  where
    none_added : (o : Option EmailAccountConfig) → none ≡ added_of o none
    none_added none = refl
    none_added (some o) = refl
diff_new_lem old (a ∷ rest) id h =
    let d = diff_new old rest in
    let (ih_added, ih_changed) = diff_new_lem old rest id h.1 in
    elim (Bool-cases (str_eq a.instance_id id)) [
      | inl e ↦
          let same : a.instance_id ≡ id = (str_eq_iff a.instance_id id).0 e in
          let gone : find_account id rest ≡ none =
            subst (λ i. find_account i rest ≡ none) same h.0 in
          let at_id : find_account a.instance_id old ≡ find_account id old =
            ap (λ i. find_account i old) same in
          rw (e, at_id)
            (push_new-here (find_account id old) a d id e
              (ih_added ∙ ap (added_of (find_account id old)) gone)
              (ih_changed
                ∙ ap (changed_of (find_account id old)) gone
                ∙ changed_of-none (find_account id old)))
      | inr e ↦
          let (p, q) = push_new-elsewhere (find_account a.instance_id old) a d id e in
          rw e (p ∙ ih_added, q ∙ ih_changed)
    ]

abbrev is_there : Option EmailAccountConfig → Bool
is_there none = false
is_there (some a) = true

any-find_account :
    (id : Str) (new : List EmailAccountConfig)
    → any (λ b. str_eq b.instance_id id) new ≡ is_there (find_account id new)
unfolding any find_account
any-find_account id [] = refl
any-find_account id (b ∷ new) = elim (Bool-cases (str_eq b.instance_id id)) [
  | inl e ↦ rw e refl
  | inr e ↦ rw e (any-find_account id new)
]

-- One more old account, which is that of `id`, or is not.
listed_here :
    (o : Option EmailAccountConfig) (a : EmailAccountConfig) (n : Option EmailAccountConfig)
    (rest : List Str) (id : Str)
    → str_eq id a.instance_id ≡ true
    → any (str_eq id) rest ≡ is_removed o n
    → any (str_eq id) (if not (is_there n) then a.instance_id ∷ rest else rest)
      ≡ is_removed (some a) n
unfolding any
listed_here o a none rest id e ih = rw e refl
listed_here none a (some b) rest id e ih = ih
listed_here (some o) a (some b) rest id e ih = ih

listed_elsewhere :
    (b : Bool) (i id : Str) (rest : List Str)
    → str_eq id i ≡ false
    → any (str_eq id) (if b then i ∷ rest else rest) ≡ any (str_eq id) rest
unfolding any
listed_elsewhere true i id rest e = rw e refl
listed_elsewhere false i id rest e = refl

str_eq_sym : (s t : Str) → str_eq s t ≡ str_eq t s
str_eq_sym s t = ground (arith, str_eq_iff s t, str_eq_iff t s)

removed_from_lem :
    (new old : List EmailAccountConfig) (id : Str)
    → any (str_eq id) (removed_from new old)
      ≡ is_removed (find_account id old) (find_account id new)
unfolding removed_from find_account
removed_from_lem new [] id = refl
removed_from_lem new (a ∷ rest) id =
    let ih = removed_from_lem new rest id in
    elim (Bool-cases (str_eq a.instance_id id)) [
      | inl e ↦
          let same : a.instance_id ≡ id = (str_eq_iff a.instance_id id).0 e in
          let there =
            any-find_account a.instance_id new ∙ ap (λ i. is_there (find_account i new)) same in
          rw (e, there)
            (listed_here (find_account id rest) a (find_account id new) (removed_from new rest) id
              (str_eq_sym id a.instance_id ∙ e) ih)
      | inr e ↦ rw e (
          listed_elsewhere (not (any (λ b. str_eq b.instance_id a.instance_id) new)) a.instance_id
            id (removed_from new rest) (str_eq_sym id a.instance_id ∙ e)
          ∙ ih)
    ]

-- When the new accounts have distinct instances, then for every instance: its new account is added
-- exactly when it had none before, is changed exactly when it had one that differs, and the
-- instance is removed exactly when it had one and has none any more.
pub compute_account_diff_lem :
    (old new : List EmailAccountConfig) (id : Str)
    → HasDistinctInstances new
    → (find_account id (compute_account_diff old new).added
        ≡ added_of (find_account id old) (find_account id new))
      × (find_account id (compute_account_diff old new).changed
          ≡ changed_of (find_account id old) (find_account id new))
      × (any (str_eq id) (compute_account_diff old new).removed
          ≡ is_removed (find_account id old) (find_account id new))
unfolding compute_account_diff
compute_account_diff_lem old new id h =
    let (added, changed) = diff_new_lem old new id h in
    (added, changed, removed_from_lem new old id)
