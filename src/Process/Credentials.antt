-- ===== src/Process/Credentials.antt =====
-- src/main.rs: the answers about credentials agree.
use nexo_plugin_email.AutoDiscovery.Routes.{flattened, instances_of}
use nexo_plugin_email.Base.{
  ℕ, Str, Bool, true, false, ◌||◌, Option, none, some, List, [], ◌∷◌, ◌++◌, ◌≡◌, ◌⊎◌, inl, inr,
  refl, ap, ◌∙◌, arith, any, map, str_eq, str_eq_iff, Elem, if◌then◌else◌,
}
use nexo_plugin_email.Config.{EmailPluginConfig}
use nexo_plugin_email.Process.{
  Configured, on_credentials_list, declares, on_credentials_issue, not_found, all_accounts,
  resolved_account, on_credentials_resolve_bytes,
}
use nexo_plugin_email.Reload.{EmailAccountConfig, find_account}

any-instances :
    (id : Str) (accounts : List EmailAccountConfig)
    → any (str_eq id) (map (λ (a : EmailAccountConfig). a.instance_id) accounts)
      ≡ any (λ a. str_eq a.instance_id id) accounts
unfolding any
any-instances id [] = refl
any-instances id (a ∷ rest) =
    ground (arith, any-instances id rest, str_eq_iff id a.instance_id, str_eq_iff a.instance_id id)

any-append {ℓ} :
    {A : Type ℓ} (p : A → Bool) (xs ys : List A) → any p (xs ++ ys) ≡ (any p xs || any p ys)
unfolding any
any-append p [] ys = refl
any-append p (x ∷ xs) ys = ground (arith, any-append p xs ys)

issue-list :
    (id : Str) (cs : List EmailPluginConfig) → any (declares id) cs ≡ any (str_eq id) (flattened cs)
unfolding any declares flattened
issue-list id [] = refl
issue-list id (c ∷ cs) =
    rw
      (
        any-append (str_eq id) (instances_of c) (flattened cs),
        any-instances id c.accounts,
        issue-list id cs,
      )
      refl

-- Either no account has the id, or this is the first one that has it.
IsFirst : Str → List EmailAccountConfig → Option EmailAccountConfig → Type 0
IsFirst id accounts none = any (λ a. str_eq a.instance_id id) accounts ≡ false
IsFirst id accounts (some a) =
    (a.instance_id ≡ id) × Elem a accounts × (any (λ b. str_eq b.instance_id id) accounts ≡ true)

find_account-IsFirst :
    (id : Str) (accounts : List EmailAccountConfig) → IsFirst id accounts (find_account id accounts)
unfolding IsFirst find_account any
find_account-IsFirst id [] = refl
find_account-IsFirst id (a ∷ rest) =
    by_test (str_eq a.instance_id id) refl (find_account id rest) (find_account-IsFirst id rest)
  where
    by_test :
        (b : Bool)
        → str_eq a.instance_id id ≡ b
        → (o : Option EmailAccountConfig) → IsFirst id rest o
        → IsFirst id (a ∷ rest) (if b then some a else o)
    by_test true e o h = ((str_eq_iff a.instance_id id).0 e, inl refl, ground (arith, e))
    by_test false e none h = ground (arith, e, h)
    by_test false e (some x) h = (h.0, inr h.1, ground (arith, e, h.2))

issue-all_accounts :
    (id : Str) (cs : List EmailPluginConfig)
    → any (declares id) cs
      ≡ any (λ (a : EmailAccountConfig). str_eq a.instance_id id) (all_accounts cs)
unfolding any declares all_accounts
issue-all_accounts id [] = refl
issue-all_accounts id (c ∷ cs) =
    rw
      (
        any-append (λ (a : EmailAccountConfig). str_eq a.instance_id id) c.accounts
            (all_accounts cs),
        issue-all_accounts id cs,
      )
      refl

abbrev pub accounts_of : Configured → List EmailAccountConfig
accounts_of none = []
accounts_of (some cs) = all_accounts cs

-- The account that an id is resolved to, and that it is issued.
abbrev pub IsKnown : (EmailAccountConfig → Option (List ℕ)) → Str → Configured → Type 0
IsKnown to_vec id cell =
    (a : EmailAccountConfig) × (a.instance_id ≡ id)
    × Elem a (accounts_of cell)
    × (on_credentials_issue id cell ≡ true)
    × (on_credentials_resolve_bytes to_vec id cell ≡ resolved_account to_vec (some a))

-- A credential is issued exactly for the ids that are listed; for any other the answer is that it
-- is not found, to a request for its bytes too; and for such an id the bytes are those of a
-- configured account with that id, unless it does not serialise.
pub credentials_lem :
    (to_vec : EmailAccountConfig → Option (List ℕ)) (id : Str) (cell : Configured)
    → (on_credentials_issue id cell ≡ any (str_eq id) (on_credentials_list cell))
      × (((on_credentials_issue id cell ≡ false)
            × (on_credentials_resolve_bytes to_vec id cell ≡ not_found))
          ⊎ IsKnown to_vec id cell)
unfolding on_credentials_issue on_credentials_list on_credentials_resolve_bytes any all_accounts
    resolved_account
credentials_lem to_vec id none = (refl, inl (refl, refl))
credentials_lem to_vec id (some cs) = (
  issue-list id cs,
  by_find (find_account id (all_accounts cs)) refl (find_account-IsFirst id (all_accounts cs)),
)
  where
    by_find :
        (o : Option EmailAccountConfig)
        → find_account id (all_accounts cs) ≡ o
        → IsFirst id (all_accounts cs) o
        → ((any (declares id) cs ≡ false)
            × (resolved_account to_vec (find_account id (all_accounts cs)) ≡ not_found))
          ⊎ IsKnown to_vec id (some cs)
    by_find none e h =
        inl (issue-all_accounts id cs ∙ unfold IsFirst in h, ap (resolved_account to_vec) e)
    by_find (some a) e h =
        let first : (a.instance_id ≡ id)
            × Elem a (all_accounts cs)
            × (any (λ (b : EmailAccountConfig). str_eq b.instance_id id) (all_accounts cs) ≡ true) =
          unfold IsFirst in h in
        inr
          (a, first.0, first.1, issue-all_accounts id cs ∙ first.2, ap (resolved_account to_vec) e)
