-- ===== src/Config.antt =====
-- src/config.rs: the configuration of the plugin, as it is after its YAML has been read. The
-- records of an account stand with the reload, that of the loop prevention with its code.
use nexo_plugin_email.Base.{ℕ, Str, Bool, Option, List}
use nexo_plugin_email.LoopPrevent.{LoopPreventionCfg}
use nexo_plugin_email.Reload.{EmailAccountConfig}

pub record EmailPluginConfig : Type 0 where
  pub tenant : Option Str
  pub allow_agents : List Str
  pub enabled : Bool
  pub max_body_bytes : ℕ
  pub max_attachment_bytes : ℕ
  pub attachment_retention_days : ℕ
  pub max_dlq_lines : ℕ
  pub bounce_retention_days : ℕ
  pub attachments_dir : Str
  pub outbound_queue_dir : Str
  pub poll_fallback_seconds : ℕ
  pub idle_reissue_minutes : ℕ
  pub spf_dkim_warn : Bool
  pub loop_prevention : LoopPreventionCfg
  pub accounts : List EmailAccountConfig
