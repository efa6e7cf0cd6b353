-- ===== src/Reload.antt =====
-- src/reload.rs: which accounts a new configuration adds, removes or changes. The records of the
-- configuration are those of src/config.rs and of nexo-email-probe, by the fields that the
-- comparison reads, and bootstrap_limit.
pub mod Diff
use nexo_plugin_email.Base.{
  ℕ, Str, Bool, true, false, not, ◌&&◌, Option, none, some, List, [], ◌∷◌, ◌==◌, if◌then◌else◌,
  str_eq, any,
}

-- The provider and the TLS modes count by their variant alone.
pub record Endpoint : Type 0 where
  pub host : Str
  pub port : ℕ
  pub tls : ℕ

pub record EmailFolders : Type 0 where
  pub inbox : Str
  pub sent : Str
  pub archive : Str

pub record EmailFilters : Type 0 where
  pub from_allowlist : List Str
  pub from_denylist : List Str

pub record EmailAccountConfig : Type 0 where
  pub instance_id : Str
  pub address : Str
  pub provider : ℕ
  pub imap : Endpoint
  pub smtp : Endpoint
  pub folders : EmailFolders
  pub filters : EmailFilters
  pub bootstrap_limit : Option ℕ

pub record AccountDiff : Type 0 where
  pub added : List EmailAccountConfig
  pub removed : List Str
  pub changed : List EmailAccountConfig

-- equality of lists of text
unfoldable pub strs_eq : List Str → List Str → Bool
unfolding str_eq
strs_eq [] [] = true
strs_eq (s ∷ ss) (t ∷ ts) = str_eq s t && strs_eq ss ts
strs_eq _ _ = false

unfoldable pub accounts_equal : EmailAccountConfig → EmailAccountConfig → Bool
unfolding str_eq strs_eq
accounts_equal a b =
    str_eq a.instance_id b.instance_id
    && str_eq a.address b.address
    && a.provider == b.provider
    && str_eq a.imap.host b.imap.host
    && a.imap.port == b.imap.port
    && a.imap.tls == b.imap.tls
    && str_eq a.smtp.host b.smtp.host
    && a.smtp.port == b.smtp.port
    && a.smtp.tls == b.smtp.tls
    && str_eq a.folders.inbox b.folders.inbox
    && str_eq a.folders.sent b.folders.sent
    && str_eq a.folders.archive b.folders.archive
    && strs_eq a.filters.from_allowlist b.filters.from_allowlist
    && strs_eq a.filters.from_denylist b.filters.from_denylist

-- `iter().find(|a| a.instance == id)`
unfoldable pub find_account : Str → List EmailAccountConfig → Option EmailAccountConfig
unfolding str_eq
find_account id [] = none
find_account id (a ∷ rest) = if str_eq a.instance_id id then some a else find_account id rest

-- the arm of the match for one new account, before the rest of the loop
unfoldable pub push_new : Option EmailAccountConfig → EmailAccountConfig → AccountDiff → AccountDiff
unfolding accounts_equal
push_new none a d = record d { added = a ∷ d.added }
push_new (some old) a d =
    if not (accounts_equal old a) then record d { changed = a ∷ d.changed } else d

unfoldable pub diff_new : List EmailAccountConfig → List EmailAccountConfig → AccountDiff
unfolding push_new find_account
diff_new old [] = record { added = []; removed = []; changed = [] }
diff_new old (a ∷ rest) = push_new (find_account a.instance_id old) a (diff_new old rest)

unfoldable pub removed_from : List EmailAccountConfig → List EmailAccountConfig → List Str
unfolding any str_eq
removed_from new [] = []
removed_from new (a ∷ accounts) =
    let rest = removed_from new accounts in
    if not (any (λ b. str_eq b.instance_id a.instance_id) new) then a.instance_id ∷ rest else rest

-- on the account lists of the two configurations
unfoldable pub compute_account_diff :
    List EmailAccountConfig → List EmailAccountConfig → AccountDiff
unfolding diff_new removed_from
compute_account_diff old new = record (diff_new old new) { removed = removed_from new old }
