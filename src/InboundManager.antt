-- ===== src/InboundManager.antt =====
-- src/inbound.rs, `InboundManager`: which accounts have a worker that reads their mail. A worker is
-- what it was spawned with; that it is cancelled, and that its end is awaited for 5 s at most, is
-- its removal from the map.
use nexo_plugin_email.Base.{
  ℕ, ◌*◌, ◌%◌, ◌^◌, Str, Bool, true, false, none, some, List, [], ◌∷◌, Map, lookup, insert, remove,
  str_is_eq,
}
use nexo_plugin_email.Config.{EmailPluginConfig}
use nexo_plugin_email.Health.{HealthMap, default_health}
use nexo_plugin_email.LoopPrevent.{LoopPreventionCfg}
use nexo_plugin_email.Reload.{EmailAccountConfig}

-- The stores are shared; whether the worker has them is what it keeps of them.
pub record AccountWorker : Type 0 where
  pub account_cfg : EmailAccountConfig
  pub idle_reissue : ℕ
  pub poll_fallback : ℕ
  pub inbox_folder : Str
  pub max_body_bytes : ℕ
  pub max_attachment_bytes : ℕ
  pub attachments_dir : Str
  pub loop_prevention : LoopPreventionCfg
  pub has_bounce_store : Bool
  pub has_attachment_store : Bool

pub record InboundManager : Type 0 where
  pub workers : Map Str AccountWorker
  pub health : HealthMap

abbrev pub worker_of : EmailPluginConfig → EmailAccountConfig → Bool → Bool → AccountWorker
worker_of cfg account has_bounce has_attachment = record {
  account_cfg = account;
  idle_reissue = (cfg.idle_reissue_minutes * 60) % 2 ^ 64;
  poll_fallback = cfg.poll_fallback_seconds;
  inbox_folder = account.folders.inbox;
  max_body_bytes = cfg.max_body_bytes;
  max_attachment_bytes = cfg.max_attachment_bytes;
  attachments_dir = cfg.attachments_dir;
  loop_prevention = cfg.loop_prevention;
  has_bounce_store = has_bounce;
  has_attachment_store = has_attachment;
}

unfoldable pub add_account :
    EmailPluginConfig → EmailAccountConfig → Bool → Bool → InboundManager → InboundManager × Bool
unfolding lookup insert
add_account cfg account has_bounce has_attachment m = elim (lookup account.instance_id m.workers) [
  | some _ ↦ (m, false)
  | none ↦ (
    record {
      health = insert account.instance_id default_health m.health;
      workers =
          insert account.instance_id (worker_of cfg account has_bounce has_attachment) m.workers;
    },
    true,
  )
]

unfoldable pub remove_account : Str → InboundManager → InboundManager × Bool
unfolding lookup remove
remove_account id m = elim (lookup id m.workers) [
  | none ↦ (m, false)
  | some _ ↦ (record { workers = remove id m.workers; health = remove id m.health }, true)
]

unfoldable pub add_all :
    EmailPluginConfig → Bool → Bool → List EmailAccountConfig → InboundManager → InboundManager
unfolding add_account
add_all cfg has_bounce has_attachment [] m = m
add_all cfg has_bounce has_attachment (a ∷ rest) m =
    add_all cfg has_bounce has_attachment rest (add_account cfg a has_bounce has_attachment m).0

unfoldable pub start : EmailPluginConfig → Bool → Bool → InboundManager
unfolding add_all
start cfg has_bounce has_attachment =
    add_all cfg has_bounce has_attachment cfg.accounts (record { workers = []; health = [] })
