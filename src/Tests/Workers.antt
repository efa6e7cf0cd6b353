-- ===== src/Tests/Workers.antt =====
-- A concrete plugin with its credentials and files, and the theorems on it.
use nexo_plugin_email.Base.{
  ◌-◌, Str, true, false, none, some, List, [], ◌∷◌, ◌≡◌, ◌⊎◌, refl, arith, codes, All, Elem,
  filter_by, str_is_eq,
}
use nexo_plugin_email.BounceStore.{BounceTable}
use nexo_plugin_email.Config.{EmailPluginConfig}
use nexo_plugin_email.InboundManager.{InboundManager}
use nexo_plugin_email.LoopPrevent.{default_cfg}
use nexo_plugin_email.OutboundDispatcher.{OutboundDispatcher, Disk, open_queue}
use nexo_plugin_email.Plugin.Apply.{reloaded, apply_account_diff_lem}
use nexo_plugin_email.Plugin.Boot.{Serves, start-apply_account_diff}
use nexo_plugin_email.Plugin.Daily.{gc_tick, is_live_bounce, retention_secs, gc_tick_lem}
use nexo_plugin_email.Plugin.Errors.{StaysUp, apply_account_diff-error}
use nexo_plugin_email.Plugin.Loops.{up, RunsOn, IsSpawnable}
use nexo_plugin_email.Plugin.Spawn.{read_at, sent_at}
use nexo_plugin_email.Plugin.{
  new, no_gc, Host, EmailPlugin, GcTasks, cursor_failed, apply_account_diff, start, gc_task_of,
}
use nexo_plugin_email.Reload.Diff.{HasDistinctInstances}
use nexo_plugin_email.Reload.{EmailAccountConfig, find_account}

abbrev pub account : Str → Str → EmailAccountConfig
account id host = record {
  instance_id = id;
  address = codes "ops@x.com";
  provider = 0;
  imap = record { host = host; port = 993; tls = 0 };
  smtp = record { host = host; port = 587; tls = 1 };
  folders = record { inbox = codes "INBOX"; sent = []; archive = [] };
  filters = record { from_allowlist = []; from_denylist = [] };
  bootstrap_limit = none;
}

abbrev pub config : List EmailAccountConfig → EmailPluginConfig
config accounts = record {
  tenant = none;
  allow_agents = [];
  enabled = true;
  max_body_bytes = 32768;
  max_attachment_bytes = 100;
  attachment_retention_days = 90;
  max_dlq_lines = 1000;
  bounce_retention_days = 365;
  attachments_dir = codes "data";
  outbound_queue_dir = codes "queue";
  poll_fallback_seconds = 60;
  idle_reissue_minutes = 28;
  spf_dkim_warn = true;
  loop_prevention = default_cfg;
  accounts = accounts;
}

abbrev disk : Disk
disk = record { create_dir_all = true; touch = λ _. true; lines_of = λ _. [] }

abbrev host : Host
host = record {
  has_credential = λ _. true;
  disk = disk;
  cursor_opens = true;
  bounce_opens = true;
  attachments_open = true;
}

-- The second one is changed, the first one goes, and a third one comes.
abbrev booted : EmailPluginConfig
booted = config (account (codes "a") (codes "h") ∷ account (codes "b") (codes "h") ∷ [])

abbrev renewed : EmailPluginConfig
renewed = config (account (codes "b") (codes "i") ∷ account (codes "c") (codes "h") ∷ [])

abbrev no_workers : InboundManager
no_workers = record { workers = []; health = [] }

abbrev no_senders : OutboundDispatcher
no_senders = record { workers = []; core = []; max_dlq_lines = 1000 }

renewed-HasDistinctInstances : HasDistinctInstances renewed.accounts
unfolding find_account
renewed-HasDistinctInstances = (ground arith, (refl, tt))

All-IsSpawnable : (accounts : List EmailAccountConfig) → All (IsSpawnable host) accounts
unfolding open_queue
All-IsSpawnable [] = tt
All-IsSpawnable (a ∷ rest) = ((refl, (_, refl)), All-IsSpawnable rest)

apply_account_diff_lem_example :
    RunsOn booted no_gc
      (λ id. reloaded (find_account id booted.accounts) (find_account id renewed.accounts))
      no_workers
      no_senders
      (apply_account_diff host renewed (up booted no_gc no_workers no_senders))
apply_account_diff_lem_example =
    apply_account_diff_lem host renewed booted no_gc no_workers no_senders
      renewed-HasDistinctInstances (All-IsSpawnable renewed.accounts) refl

start-apply_account_diff_example :
    ((start host (new booted)).1 ≡ none)
    × ((g : GcTasks) × (m : InboundManager) × (d : OutboundDispatcher) × (apply_account_diff host
            renewed
            (start host (new booted)).0
          ≡ (up booted g m d, none))
        × ((id : Str) → Serves (read_at id m) (find_account id renewed.accounts))
        × ((id : Str) → Serves (sent_at id d) (find_account id renewed.accounts)))
start-apply_account_diff_example =
    start-apply_account_diff host host booted renewed (account (codes "a") (codes "h"))
      (account (codes "b") (codes "h") ∷ []) refl refl (All-IsSpawnable booted.accounts) refl
      renewed-HasDistinctInstances (All-IsSpawnable renewed.accounts) refl

-- A host that has lost the credential of one account.
abbrev bare_host : Host
bare_host = record host { has_credential = λ _. false }

apply_account_diff-error_example :
    ((apply_account_diff bare_host renewed (up booted no_gc no_workers no_senders)
        ≡ (up booted no_gc no_workers no_senders, some cursor_failed))
      × (bare_host.cursor_opens ≡ false))
    ⊎ StaysUp
        (λ a. Elem a renewed.accounts)
        bare_host
        booted
        no_gc
        (apply_account_diff bare_host renewed (up booted no_gc no_workers no_senders))
apply_account_diff-error_example =
    apply_account_diff-error bare_host renewed booted no_gc no_workers no_senders

-- Started, then reloaded without the credentials, so that the reload fails in the middle.
abbrev half_reloaded : EmailPlugin
half_reloaded = (apply_account_diff bare_host renewed (start host (new booted)).0).0

abbrev bounces : BounceTable
bounces =
    (
      (codes "a", codes "ana@y.com"),
      record {
        classification = codes "permanent";
        status_code = none;
        action = none;
        last_seen = 5;
        count = 1;
      },
    )
    ∷ (
      (codes "c", codes "ana@y.com"),
      record {
        classification = codes "permanent";
        status_code = none;
        action = none;
        last_seen = 5;
        count = 1;
      },
    )
    ∷ []

gc_tick_lem_example :
    (gc_tick (gc_task_of host booted) (λ _. true) 10 [] bounces).bounces
    ≡ filter_by
        (is_live_bounce (10 - retention_secs booted.bounce_retention_days) booted.accounts)
        bounces
gc_tick_lem_example =
    gc_tick_lem host booted (account (codes "a") (codes "h")) (account (codes "b") (codes "h") ∷ [])
      (λ _. true) 10 [] bounces (omega arith) refl refl
