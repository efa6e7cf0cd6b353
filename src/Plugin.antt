-- ===== src/Plugin.antt =====
-- src/plugin.rs: the plugin, which starts, reloads and stops the workers of all accounts. Both
-- managers hold one health map, which stands with the inbound manager here. A log line is left out, and so is the check of SPF and DKIM, which
-- only logs.
pub mod Spawn
pub mod Loops
pub mod Apply
pub mod Boot
pub mod Errors
pub mod Daily
pub mod Lifecycle
use nexo_plugin_email.Base.{
  ℕ, Str, Bool, true, false, not, ◌&&◌, ◌||◌, Option, none, some, List, [], ◌∷◌, ◌++◌, map, codes,
  ltb, if◌then◌else◌,
}
use nexo_plugin_email.Config.{EmailPluginConfig}
use nexo_plugin_email.Health
use nexo_plugin_email.InboundManager
use nexo_plugin_email.InboundManager.{InboundManager}
use nexo_plugin_email.OutboundDispatcher
use nexo_plugin_email.OutboundDispatcher.{Disk, OutboundDispatcher}
use nexo_plugin_email.Reload.{EmailAccountConfig, AccountDiff, compute_account_diff}

unfoldable pub inbound_topic_for : Str → Str
inbound_topic_for [] = codes "plugin.inbound.email"
inbound_topic_for (c ∷ id) = codes "plugin.inbound.email" ++ codes "." ++ c ∷ id

-- The credential store of nexo-auth, the file system, and whether each of the three databases is
-- open or opens.
pub record Host : Type 0 where
  pub has_credential : Str → Bool
  pub disk : Disk
  pub cursor_opens : Bool
  pub bounce_opens : Bool
  pub attachments_open : Bool

-- What the daily task was armed with. Retention is in days here.
pub record GcTask : Type 0 where
  pub attachment_gc_enabled : Bool
  pub bounce_gc_enabled : Bool
  pub attachment_retention_days : ℕ
  pub bounce_retention_days : ℕ
  pub kept_instances : List Str

-- The daily tasks that run. A `OnceCell` keeps the cancel token of the first that is armed.
pub record GcTasks : Type 0 where
  pub cancellable : Option GcTask
  pub token_kept : Bool
  pub others : List GcTask

abbrev pub no_gc : GcTasks
no_gc = record { cancellable = none; token_kept = false; others = [] }

pub record EmailPlugin : Type 0 where
  pub cfg : EmailPluginConfig
  pub inbound : Option InboundManager
  pub outbound : Option OutboundDispatcher
  pub gc_tasks : GcTasks

abbrev pub new : EmailPluginConfig → EmailPlugin
new cfg = record { cfg = cfg; inbound = none; outbound = none; gc_tasks = no_gc }

pub data PluginError : Type 0 where
  cursor_failed : PluginError
  no_credential : Str → PluginError
  inbound_not_running outbound_not_running : PluginError
  queue_failed : PluginError

-- A step changes the plugin, and may end with an error after some of its changes.
abbrev pub Step : Type 0
Step = EmailPlugin × Option PluginError

-- `?`: the next step, unless this one ended with an error
unfoldable pub and_then : Step → (EmailPlugin → Step) → Step
and_then (p, none) next = next p
and_then (p, some e) next = (p, some e)

-- `if let Some(disp) = self.outbound.lock().await.as_mut()`, and the same for the inbound manager
unfoldable pub remove_outbound : Str → EmailPlugin → EmailPlugin
unfolding OutboundDispatcher.remove_account
remove_outbound id p = elim (p.outbound) [
  | none ↦ p
  | some d ↦ record p { outbound = some (OutboundDispatcher.remove_account id d).0 }
]

unfoldable pub remove_inbound : Str → EmailPlugin → EmailPlugin
unfolding InboundManager.remove_account
remove_inbound id p = elim (p.inbound) [
  | none ↦ p
  | some m ↦ record p { inbound = some (InboundManager.remove_account id m).0 }
]

-- outbound first
abbrev pub teardown : Str → EmailPlugin → EmailPlugin
teardown id p = remove_inbound id (remove_outbound id p)

unfoldable pub remove_all : List Str → EmailPlugin → EmailPlugin
unfolding remove_outbound remove_inbound
remove_all [] p = p
remove_all (id ∷ rest) p = remove_all rest (teardown id p)

-- from the answer of the dispatcher's add_account on
unfoldable pub outbound_added :
    Option (OutboundDispatcher × Health.HealthMap) → InboundManager → EmailPlugin → Step
outbound_added none m p = (record p { inbound = some m }, some queue_failed)
outbound_added (some (d, health)) m p =
    (record p { inbound = some (record m { health = health }); outbound = some d }, none)

-- `diff.is_empty()`
unfoldable pub is_empty : AccountDiff → Bool
is_empty d = elim (d.added) [
  | _ ∷ _ ↦ false
  | [] ↦ elim (d.removed) [ _ ∷ _ ↦ false | [] ↦ elim (d.changed) [ _ ∷ _ ↦ false | [] ↦ true ] ]
]

-- `gc_cancel.set` keeps the first token; a later one is dropped, and its task has none
unfoldable pub armed : GcTask → GcTasks → GcTasks
armed task before =
    if not (task.attachment_gc_enabled || task.bounce_gc_enabled)
    then before
    else if before.token_kept
    then record before { others = before.others ++ task ∷ [] }
    else record before { cancellable = some task; token_kept = true }

-- from the answer of `OutboundDispatcher::start` on
unfoldable pub outbound_started :
    Option OutboundDispatcher × Health.HealthMap → InboundManager → EmailPlugin → Step
outbound_started (none, health) m p =
    (record p { inbound = some (record m { health = health }) }, some queue_failed)
outbound_started (some d, health) m p =
    (record p { inbound = some (record m { health = health }); outbound = some d }, none)

module _ (host : Host) where
  -- from the inbound worker on, with the manager that has it
  unfoldable pub spawn_outbound :
      EmailAccountConfig → Option OutboundDispatcher → InboundManager → EmailPlugin → Step
  unfolding OutboundDispatcher.add_account outbound_added
  spawn_outbound account none m p = (record p { inbound = some m }, some outbound_not_running)
  spawn_outbound account (some d) m p =
      outbound_added (OutboundDispatcher.add_account host.disk account d m.health) m p

  -- from the check of the credential on
  unfoldable pub spawn_checked :
      EmailPluginConfig → EmailAccountConfig → Option InboundManager → EmailPlugin → Step
  unfolding InboundManager.add_account spawn_outbound
  spawn_checked new_cfg account none p = (p, some inbound_not_running)
  spawn_checked new_cfg account (some m) p =
      spawn_outbound account p.outbound
        (InboundManager.add_account new_cfg account host.bounce_opens host.attachments_open m).0 p

  unfoldable pub spawn_account : EmailPluginConfig → EmailAccountConfig → EmailPlugin → Step
  unfolding spawn_checked
  spawn_account new_cfg account p = elim (host.has_credential account.instance_id) [
    | false ↦ (p, some (no_credential account.instance_id))
    | true ↦ spawn_checked new_cfg account p.inbound p
  ]

  unfoldable pub respawn_all : EmailPluginConfig → List EmailAccountConfig → EmailPlugin → Step
  unfolding and_then spawn_account remove_outbound remove_inbound
  respawn_all new_cfg [] p = (p, none)
  respawn_all new_cfg (a ∷ rest) p =
      and_then (spawn_account new_cfg a (teardown a.instance_id p)) (respawn_all new_cfg rest)

  unfoldable pub spawn_all : EmailPluginConfig → List EmailAccountConfig → EmailPlugin → Step
  unfolding and_then spawn_account
  spawn_all new_cfg [] p = (p, none)
  spawn_all new_cfg (a ∷ rest) p = and_then (spawn_account new_cfg a p) (spawn_all new_cfg rest)

  unfoldable pub apply_diff : EmailPluginConfig → AccountDiff → EmailPlugin → Step
  unfolding and_then remove_all respawn_all spawn_all
  apply_diff new_cfg diff p =
      and_then (respawn_all new_cfg diff.changed (remove_all diff.removed p))
        (spawn_all new_cfg diff.added)

  unfoldable pub apply_account_diff : EmailPluginConfig → EmailPlugin → Step
  unfolding compute_account_diff is_empty apply_diff
  apply_account_diff new_cfg p =
      let diff = compute_account_diff p.cfg.accounts new_cfg.accounts in
      elim (is_empty diff) [
        | true ↦ (p, none)
        | false ↦ elim (host.cursor_opens) [
          | false ↦ (p, some cursor_failed)
          | true ↦ apply_diff new_cfg diff p
        ]
      ]

  unfoldable pub gc_task_of : EmailPluginConfig → GcTask
  gc_task_of cfg = record {
    attachment_gc_enabled = ltb 0 cfg.attachment_retention_days && host.attachments_open;
    bounce_gc_enabled = ltb 0 cfg.bounce_retention_days && host.bounce_opens;
    attachment_retention_days = cfg.attachment_retention_days;
    bounce_retention_days = cfg.bounce_retention_days;
    kept_instances = map (λ (a : EmailAccountConfig). a.instance_id) cfg.accounts;
  }

  unfoldable pub start_workers : EmailPlugin → Step
  unfolding gc_task_of armed outbound_started InboundManager.start OutboundDispatcher.start
  start_workers p =
      let m = InboundManager.start p.cfg host.bounce_opens host.attachments_open in
      outbound_started
        (OutboundDispatcher.start host.disk p.cfg.accounts p.cfg.max_dlq_lines m.health) m
        (record p { gc_tasks = armed (gc_task_of p.cfg) p.gc_tasks })

  unfoldable pub start : EmailPlugin → Step
  unfolding start_workers
  start p = elim (p.cfg.enabled) [
    | false ↦ (p, none)
    | true ↦ elim (p.cfg.accounts) [
      | [] ↦ (p, none)
      | _ ∷ _ ↦ elim (host.cursor_opens) [
        | false ↦ (p, some cursor_failed)
        | true ↦ start_workers p
      ]
    ]
  ]

unfoldable pub stop : EmailPlugin → EmailPlugin
stop p = record p {
  inbound = none;
  outbound = none;
  gc_tasks = record p.gc_tasks { cancellable = none };
}
