-- ===== src/Plugin/Spawn.antt =====
-- src/plugin.rs: which accounts have workers after one operation of the managers.
use nexo_plugin_email.Base.{
  Str, Bool, Option, none, some, ◌≡◌, inl, inr, arith, if◌then◌else◌, Option-cases, lookup,
  lookup-insert, lookup-remove, insert, str_eq, str_eq_iff, str_is_eq,
}
use nexo_plugin_email.Config.{EmailPluginConfig}
use nexo_plugin_email.Health.{HealthMap}
use nexo_plugin_email.InboundManager
use nexo_plugin_email.InboundManager.{InboundManager, AccountWorker}
use nexo_plugin_email.OutboundDispatcher
use nexo_plugin_email.OutboundDispatcher.{
  Disk, OutboundDispatcher, OutboundSlot, add_opened, open_queue,
}
use nexo_plugin_email.OutboundQueue.{OutboundQueue}
use nexo_plugin_email.Reload.{EmailAccountConfig}

abbrev pub account_read_by : Option AccountWorker → Option EmailAccountConfig
account_read_by none = none
account_read_by (some w) = some w.account_cfg

abbrev pub account_sent_by : Option OutboundSlot → Option EmailAccountConfig
account_sent_by none = none
account_sent_by (some w) = some w.account_cfg

-- The account that an instance has a worker for: to read, and to send.
abbrev pub read_at : Str → InboundManager → Option EmailAccountConfig
read_at id m = account_read_by (lookup id m.workers)

abbrev pub sent_at : Str → OutboundDispatcher → Option EmailAccountConfig
sent_at id d = account_sent_by (lookup id d.workers)

-- What an added account makes of that of `id`: a worker that is there stays.
abbrev pub or_account :
    Option EmailAccountConfig → Option EmailAccountConfig → Option EmailAccountConfig
or_account (some b) o = some b
or_account none o = o

abbrev pub with_added :
    EmailAccountConfig → Str → Option EmailAccountConfig → Option EmailAccountConfig
with_added a id o = if str_eq a.instance_id id then or_account o (some a) else o

abbrev pub without : Str → Str → Option EmailAccountConfig → Option EmailAccountConfig
without gone id o = if str_eq gone id then none else o

pub read_at-add_account :
    (cfg : EmailPluginConfig) (a : EmailAccountConfig) (b c : Bool) (m : InboundManager) (id : Str)
    → read_at id (InboundManager.add_account cfg a b c m).0 ≡ with_added a id (read_at id m)
unfolding InboundManager.add_account
read_at-add_account cfg a b c m id = ground (
  arith,
  lookup-insert a.instance_id id (InboundManager.worker_of cfg a b c) m.workers,
  str_eq_iff a.instance_id id,
)

pub read_at-remove_account :
    (gone : Str) (m : InboundManager) (id : Str)
    → read_at id (InboundManager.remove_account gone m).0 ≡ without gone id (read_at id m)
unfolding InboundManager.remove_account
read_at-remove_account gone m id =
    ground (arith, lookup-remove gone id m.workers, str_eq_iff gone id)

pub sent_at-remove_account :
    (gone : Str) (d : OutboundDispatcher) (id : Str)
    → sent_at id (OutboundDispatcher.remove_account gone d).0 ≡ without gone id (sent_at id d)
unfolding OutboundDispatcher.remove_account
sent_at-remove_account gone d id =
    ground (arith, lookup-remove gone id d.workers, str_eq_iff gone id)

-- When the queue opens, adding succeeds.
pub sent_at-add_account :
    (disk : Disk) (a : EmailAccountConfig) (q : OutboundQueue) (d : OutboundDispatcher)
    (h : HealthMap)
    → open_queue disk a.instance_id ≡ some q
    → (d' : OutboundDispatcher) × (h' : HealthMap) × (OutboundDispatcher.add_account disk a d h
        ≡ some (d', h'))
      × ((id : Str) → sent_at id d' ≡ with_added a id (sent_at id d))
unfolding OutboundDispatcher.add_account add_opened
sent_at-add_account disk a q d h opened = elim (Option-cases (lookup a.instance_id d.workers)) [
  | inl fresh ↦
      let worker : OutboundSlot = record { account_cfg = a; max_dlq_lines = d.max_dlq_lines } in
      let d' : OutboundDispatcher = record d {
        core = insert a.instance_id (record { queue = q; address = a.address }) d.core;
        workers = insert a.instance_id worker d.workers;
      } in
      (
        d',
        OutboundDispatcher.or_default a.instance_id h,
        ground (arith, fresh, opened),
        λ id.
            ground
              (arith, lookup-insert a.instance_id id worker d.workers, str_eq_iff a.instance_id id),
      )
  | inr (w, busy) ↦ (d, h, ground (arith, busy), λ id. ground (arith, str_eq_iff a.instance_id id))
]
