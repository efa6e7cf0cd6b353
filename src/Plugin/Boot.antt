-- ===== src/Plugin/Boot.antt =====
-- src/plugin.rs: which accounts have workers after a start, and after a start and a reload.
use nexo_plugin_email.Base.{
  ℕ, Str, Bool, true, false, Option, none, some, List, [], ◌∷◌, ◌≡◌, refl, ap, ◌∙◌, arith,
  if◌then◌else◌, All, lookup, str_eq_refl, str_is_eq, ◌==◌, ==_iff,
}
use nexo_plugin_email.Config.{EmailPluginConfig}
use nexo_plugin_email.Health.{HealthMap}
use nexo_plugin_email.InboundManager
use nexo_plugin_email.InboundManager.{InboundManager}
use nexo_plugin_email.OutboundDispatcher
use nexo_plugin_email.OutboundDispatcher.{OutboundDispatcher}
use nexo_plugin_email.Plugin.Apply.{reloaded, apply_account_diff_lem}
use nexo_plugin_email.Plugin.Loops.{up, IsSpawnable, spawned_at, spawned_at-cons}
use nexo_plugin_email.Plugin.Spawn.{
  read_at, sent_at, or_account, read_at-add_account, sent_at-add_account,
}
use nexo_plugin_email.Plugin.{
  new, no_gc, Host, GcTasks, Step, armed, gc_task_of, apply_account_diff, outbound_started,
  start_workers, start,
}
use nexo_plugin_email.Reload.Diff.{HasDistinctInstances}
use nexo_plugin_email.Reload.{EmailAccountConfig, accounts_equal, find_account, strs_eq}

or_none : (o : Option EmailAccountConfig) → o ≡ or_account o none
or_none none = refl
or_none (some b) = refl

read_at-add_all :
    (cfg : EmailPluginConfig) (b c : Bool) (accounts : List EmailAccountConfig) (m : InboundManager)
    (id : Str)
    → read_at id (InboundManager.add_all cfg b c accounts m) ≡ spawned_at accounts id (read_at id m)
unfolding InboundManager.add_all find_account
read_at-add_all cfg b c [] m id = or_none (read_at id m)
read_at-add_all cfg b c (a ∷ rest) m id =
    read_at-add_all cfg b c rest (InboundManager.add_account cfg a b c m).0 id
    ∙ ap (spawned_at rest id) (read_at-add_account cfg a b c m id)
    ∙ spawned_at-cons a rest id (read_at id m)

module _ (host : Host) where
  sent_at-add_all :
      (accounts : List EmailAccountConfig) (d : OutboundDispatcher) (h : HealthMap)
      → All (IsSpawnable host) accounts
      → (d' : OutboundDispatcher) × (h' : HealthMap) × (OutboundDispatcher.add_all host.disk
            accounts d h
          ≡ (some d', h'))
        × ((id : Str) → sent_at id d' ≡ spawned_at accounts id (sent_at id d))
  unfolding OutboundDispatcher.add_all find_account
  sent_at-add_all [] d h spawnable = (d, h, refl, λ id. or_none (sent_at id d))
  sent_at-add_all (a ∷ rest) d h ((credential, (q, opened)), spawnable) =
      let (d1, h1, added, sends1) = sent_at-add_account host.disk a q d h opened in
      let (d', h', same, sends) = sent_at-add_all rest d1 h1 spawnable in
      (
        d',
        h',
        ground (arith, added, same),
        λ id.
            sends id
            ∙ ap (spawned_at rest id) (sends1 id)
            ∙ spawned_at-cons a rest id (sent_at id d),
      )

  -- With the plugin enabled, at least one account, and a cursor store and queues that open.
  start_lem :
      (a : EmailAccountConfig) (rest : List EmailAccountConfig) (cfg : EmailPluginConfig)
      → cfg.enabled ≡ true
      → cfg.accounts ≡ a ∷ rest
      → All (IsSpawnable host) cfg.accounts
      → host.cursor_opens ≡ true
      → (g : GcTasks) × (m : InboundManager) × (d : OutboundDispatcher) × (start host (new cfg)
          ≡ (up cfg g m d, none))
        × ((id : Str) → read_at id m ≡ find_account id cfg.accounts)
        × ((id : Str) → sent_at id d ≡ find_account id cfg.accounts)
  unfolding start start_workers outbound_started InboundManager.start OutboundDispatcher.start
      lookup
  start_lem a rest cfg enabled some_account spawnable cursor =
      let m = InboundManager.start cfg host.bounce_opens host.attachments_open in
      let (d, h, same, sends) =
        sent_at-add_all cfg.accounts
          (record { workers = []; core = []; max_dlq_lines = cfg.max_dlq_lines }) m.health
          spawnable in
      (
        armed (gc_task_of host cfg) no_gc,
        record m { health = h },
        d,
        ground (arith, enabled, some_account, cursor, same),
        read_at-add_all cfg host.bounce_opens host.attachments_open cfg.accounts
            (record { workers = []; health = [] }),
        sends,
      )

-- What an instance is served by is what is wanted: no account, or one that does not differ.
abbrev pub Serves : (running wanted : Option EmailAccountConfig) → Type 0
Serves none none = Unit
Serves (some b) (some a) = accounts_equal b a ≡ true
Serves _ _ = ⊥

strs_eq_refl : (ss : List Str) → strs_eq ss ss ≡ true
unfolding strs_eq
strs_eq_refl [] = refl
strs_eq_refl (s ∷ ss) = ground (arith, str_eq_refl s, strs_eq_refl ss)

==_refl : (n : ℕ) → (n == n) ≡ true
==_refl n = (==_iff n n).1 refl

accounts_equal_refl : (a : EmailAccountConfig) → accounts_equal a a ≡ true
unfolding accounts_equal
accounts_equal_refl a = ground (
  arith,
  str_eq_refl a.instance_id,
  str_eq_refl a.address,
  str_eq_refl a.imap.host,
  str_eq_refl a.smtp.host,
  str_eq_refl a.folders.inbox,
  str_eq_refl a.folders.sent,
  str_eq_refl a.folders.archive,
  strs_eq_refl a.filters.from_allowlist,
  strs_eq_refl a.filters.from_denylist,
)

reloaded-Serves : (b n : Option EmailAccountConfig) → Serves (reloaded b n b) n
reloaded-Serves none none = tt
reloaded-Serves none (some a) = accounts_equal_refl a
reloaded-Serves (some b) none = tt
reloaded-Serves (some b) (some a) = kept (accounts_equal b a) refl
  where
    kept : (e : Bool) → accounts_equal b a ≡ e → Serves (if e then some b else some a) (some a)
    kept true same = same
    kept false other = accounts_equal_refl a

-- A plugin is built, started and reloaded once. It is enabled and has an account; the accounts of
-- the new configuration have distinct instances; at the start and at the reload each account has
-- its credential and a queue that opens, and the cursor store opens. Then both steps succeed, and
-- for every instance the account that is read, and that is sent from, is that of the new
-- configuration, or one that does not differ from it.
pub start-apply_account_diff :
    (host later : Host) (cfg new_cfg : EmailPluginConfig) (a : EmailAccountConfig)
    (rest : List EmailAccountConfig)
    → cfg.enabled ≡ true
    → cfg.accounts ≡ a ∷ rest
    → All (IsSpawnable host) cfg.accounts
    → host.cursor_opens ≡ true
    → HasDistinctInstances new_cfg.accounts
    → All (IsSpawnable later) new_cfg.accounts
    → later.cursor_opens ≡ true
    → ((start host (new cfg)).1 ≡ none)
      × ((g : GcTasks) × (m : InboundManager) × (d : OutboundDispatcher) × (apply_account_diff later
              new_cfg
              (start host (new cfg)).0
            ≡ (up cfg g m d, none))
          × ((id : Str) → Serves (read_at id m) (find_account id new_cfg.accounts))
          × ((id : Str) → Serves (sent_at id d) (find_account id new_cfg.accounts)))
start-apply_account_diff host later cfg new_cfg a rest enabled some_account spawnable cursor
      distinct again cursor_again =
    let (g, m, d, started, reads, sends) =
      start_lem host a rest cfg enabled some_account spawnable cursor in
    let (m', d', applied, reads', sends') =
      apply_account_diff_lem later new_cfg cfg g m d distinct again cursor_again in
    (
      ap (λ (s : Step). s.1) started,
      (
        g,
        m',
        d',
        ap (λ (s : Step). apply_account_diff later new_cfg s.0) started ∙ applied,
        λ id.
            rw (reads' id, reads id)
              (reloaded-Serves (find_account id cfg.accounts) (find_account id new_cfg.accounts)),
        λ id.
            rw (sends' id, sends id)
              (reloaded-Serves (find_account id cfg.accounts) (find_account id new_cfg.accounts)),
      ),
    )
