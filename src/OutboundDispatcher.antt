-- ===== src/OutboundDispatcher.antt =====
-- src/outbound.rs, `OutboundDispatcher`: which accounts have a worker that sends their mail, and
-- which are known to `DispatcherCore`; and src/outbound_queue.rs, the opening of a queue. The health
-- map is that of the inbound manager, so it is an argument.
use nexo_plugin_email.Base.{
  ℕ, Str, Bool, true, false, ◌&&◌, Option, none, some, List, [], ◌∷◌, ◌++◌, Map, lookup, insert,
  remove, str_is_eq, codes, if◌then◌else◌,
}
use nexo_plugin_email.Dispatcher.{DispatcherCore}
use nexo_plugin_email.Health.{HealthMap, default_health}
use nexo_plugin_email.OutboundQueue.{OutboundQueue}
use nexo_plugin_email.Reload.{EmailAccountConfig}

-- The file system: whether the directory of the queues is there or is made, whether a file is there
-- or is created, and the lines that a file has then.
pub record Disk : Type 0 where
  pub create_dir_all : Bool
  pub touch : Str → Bool
  pub lines_of : Str → List Str

unfoldable pub open_queue : Disk → Str → Option OutboundQueue
open_queue disk id =
    let queue_path = id ++ codes ".jsonl" in
    let dlq_path = id ++ codes ".dlq.jsonl" in
    if disk.create_dir_all && disk.touch queue_path && disk.touch dlq_path
    then some
        (record { queue_lines = disk.lines_of queue_path; dlq_lines = disk.lines_of dlq_path })
    else none

-- What a worker is spawned with.
pub record OutboundSlot : Type 0 where
  pub account_cfg : EmailAccountConfig
  pub max_dlq_lines : ℕ

pub record OutboundDispatcher : Type 0 where
  pub workers : Map Str OutboundSlot
  pub core : DispatcherCore
  pub max_dlq_lines : ℕ

-- `entry(..).or_insert_with(..)`
unfoldable pub or_default : Str → HealthMap → HealthMap
unfolding lookup insert
or_default id health = elim (lookup id health) [
  | some _ ↦ health
  | none ↦ insert id default_health health
]

-- from the opened queue on
unfoldable pub add_opened :
    EmailAccountConfig
    → Option OutboundQueue
    → OutboundDispatcher
    → HealthMap
    → Option (OutboundDispatcher × HealthMap)
unfolding insert or_default
add_opened account none d health = none
add_opened account (some queue) d health =
    let id = account.instance_id in
    some (
      record d {
        core = insert id (record { queue = queue; address = account.address }) d.core;
        workers =
            insert id (record { account_cfg = account; max_dlq_lines = d.max_dlq_lines }) d.workers;
      },
      or_default id health,
    )

-- `none` is the error of the opening, which changes nothing
unfoldable pub add_account :
    Disk
    → EmailAccountConfig
    → OutboundDispatcher
    → HealthMap
    → Option (OutboundDispatcher × HealthMap)
unfolding lookup open_queue add_opened
add_account disk account d health = elim (lookup account.instance_id d.workers) [
  | some _ ↦ some (d, health)
  | none ↦ add_opened account (open_queue disk account.instance_id) d health
]

unfoldable pub remove_account : Str → OutboundDispatcher → OutboundDispatcher × Bool
unfolding lookup remove
remove_account id d = elim (lookup id d.workers) [
  | none ↦ (d, false)
  | some _ ↦ (record d { workers = remove id d.workers; core = remove id d.core }, true)
]

-- The loop of `start` stops at the first account whose queue does not open. The health map is
-- shared, so what was put into it stays.
unfoldable pub add_all :
    Disk
    → List EmailAccountConfig
    → OutboundDispatcher
    → HealthMap
    → Option OutboundDispatcher × HealthMap
unfolding add_account
add_all disk [] d health = (some d, health)
add_all disk (a ∷ rest) d health = elim (add_account disk a d health) [
  | none ↦ (none, health)
  | some (d', health') ↦ add_all disk rest d' health'
]

unfoldable pub start :
    Disk → List EmailAccountConfig → ℕ → HealthMap → Option OutboundDispatcher × HealthMap
unfolding add_all
start disk accounts max_dlq_lines health =
    add_all disk accounts (record { workers = []; core = []; max_dlq_lines = max_dlq_lines }) health
