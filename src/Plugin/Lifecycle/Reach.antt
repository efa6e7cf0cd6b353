-- ===== src/Plugin/Lifecycle/Reach.antt =====
-- src/plugin.rs: every state that the plugin can be in, by the steps that lead to it.
use nexo_plugin_email.Base.{true, Option, none, some, List, ◌≡◌, lookup, str_is_eq, All}
use nexo_plugin_email.Config.{EmailPluginConfig}
use nexo_plugin_email.Health.{HealthMap}
use nexo_plugin_email.InboundManager
use nexo_plugin_email.InboundManager.{InboundManager}
use nexo_plugin_email.OutboundDispatcher
use nexo_plugin_email.OutboundDispatcher.{OutboundDispatcher}
use nexo_plugin_email.Plugin.Lifecycle.{is_some, HasReaders, KnowsSenders}
use nexo_plugin_email.Plugin.{Host, EmailPlugin, apply_account_diff, start, stop, new}
use nexo_plugin_email.Reload.{EmailAccountConfig}

-- A manager that reads every one of these accounts.
abbrev Reads : InboundManager → List EmailAccountConfig → Type 0
Reads m accounts =
    All (λ (a : EmailAccountConfig). is_some (lookup a.instance_id m.workers) ≡ true) accounts

-- What starting the dispatcher leaves: the health map as it was.
abbrev Started : InboundManager → Option OutboundDispatcher × HealthMap → Type 0
Started m (none, h) = h ≡ m.health
Started m (some d, h) = (h ≡ m.health) × HasReaders m d × KnowsSenders d

-- The states of a plugin, by its steps, each of which finds its own credentials and files.
pub data Reachable (cfg : EmailPluginConfig) : EmailPlugin → Type 0 where
  built : Reachable cfg (new cfg)
  started :
      {p : EmailPlugin} (host : Host)
      → p.outbound ≡ none
      → Reachable cfg p
      → Reachable cfg (start host p).0
  reloaded :
      {p : EmailPlugin} (host : Host) (new_cfg : EmailPluginConfig)
      → Reachable cfg p
      → Reachable cfg (apply_account_diff host new_cfg p).0
  stopped : {p : EmailPlugin} → Reachable cfg p → Reachable cfg (stop p)
