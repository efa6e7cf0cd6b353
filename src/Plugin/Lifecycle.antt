-- ===== src/Plugin/Lifecycle.antt =====
-- src/plugin.rs: what holds of a plugin whatever it has gone through, failed steps included.
pub mod Consistent
pub mod Reach
use nexo_plugin_email.Base.{
  Str, Bool, true, false, Option, none, some, List, [], ◌∷◌, ◌≡◌, refl, arith, if◌then◌else◌,
  Option-cases, Map, lookup, lookup-insert, lookup-remove, insert, remove, str_eq, str_eq_iff,
  str_is_eq,
}
use nexo_plugin_email.Config.{EmailPluginConfig}
use nexo_plugin_email.Dispatcher.{InstanceState}
use nexo_plugin_email.Health.{HealthMap, default_health}
use nexo_plugin_email.InboundManager
use nexo_plugin_email.InboundManager.{InboundManager, AccountWorker}
use nexo_plugin_email.OutboundDispatcher
use nexo_plugin_email.OutboundDispatcher.{
  Disk, OutboundDispatcher, OutboundSlot, add_opened, open_queue, or_default,
}
use nexo_plugin_email.OutboundQueue.{OutboundQueue}
use nexo_plugin_email.Reload.{EmailAccountConfig}

abbrev pub is_some {ℓ} : {A : Type ℓ} → Option A → Bool
is_some none = false
is_some (some a) = true

abbrev pub address_known : Option InstanceState → Option Str
address_known none = none
address_known (some s) = some s.address

abbrev pub address_served : Option OutboundSlot → Option Str
address_served none = none
address_served (some w) = some w.account_cfg.address

-- At every instance: there is a health entry exactly when there is a worker that reads.
abbrev pub HasHealth : InboundManager → Type 0
HasHealth m = (id : Str) → is_some (lookup id m.health) ≡ is_some (lookup id m.workers)

-- At every instance: one that has a worker that sends has one that reads; and the tools know the
-- instance, by its address, exactly when there is a worker that sends.
abbrev pub HasReaders : InboundManager → OutboundDispatcher → Type 0
HasReaders m d =
    (id : Str) → is_some (lookup id d.workers) ≡ true → is_some (lookup id m.workers) ≡ true

abbrev pub KnowsSenders : OutboundDispatcher → Type 0
KnowsSenders d =
    (id : Str) → address_known (lookup id d.core) ≡ address_served (lookup id d.workers)

pub remove_inbound-HasHealth :
    (x : Str) (m : InboundManager) → HasHealth m → HasHealth (InboundManager.remove_account x m).0
unfolding InboundManager.remove_account
remove_inbound-HasHealth x m h id =
    ground (arith, h id, lookup-remove x id m.workers, lookup-remove x id m.health)

pub teardown-HasReaders :
    (x : Str) (m : InboundManager) (d : OutboundDispatcher)
    → HasReaders m d
    → HasReaders (InboundManager.remove_account x m).0 (OutboundDispatcher.remove_account x d).0
unfolding InboundManager.remove_account OutboundDispatcher.remove_account
teardown-HasReaders x m d h id =
    ground
      (arith, h id, lookup-remove x id m.workers, lookup-remove x id d.workers, str_eq_iff x id)

pub remove_outbound-KnowsSenders :
    (x : Str) (d : OutboundDispatcher)
    → KnowsSenders d
    → KnowsSenders (OutboundDispatcher.remove_account x d).0
unfolding OutboundDispatcher.remove_account
remove_outbound-KnowsSenders x d h id =
    ground (arith, h id, lookup-remove x id d.workers, lookup-remove x id d.core)

module _ (cfg : EmailPluginConfig) (a : EmailAccountConfig) (b c : Bool) (m : InboundManager) where
  pub add_inbound-HasHealth : HasHealth m → HasHealth (InboundManager.add_account cfg a b c m).0
  unfolding InboundManager.add_account
  add_inbound-HasHealth h id = ground (
    arith,
    h id,
    lookup-insert a.instance_id id (InboundManager.worker_of cfg a b c) m.workers,
    lookup-insert a.instance_id id default_health m.health,
  )

  pub add_inbound-keeps :
      (id : Str)
      → is_some (lookup id m.workers) ≡ true
      → is_some (lookup id (InboundManager.add_account cfg a b c m).0.workers) ≡ true
  unfolding InboundManager.add_account
  add_inbound-keeps id h =
      ground (arith, lookup-insert a.instance_id id (InboundManager.worker_of cfg a b c) m.workers)

  pub add_inbound-there :
      is_some (lookup a.instance_id (InboundManager.add_account cfg a b c m).0.workers) ≡ true
  unfolding InboundManager.add_account
  add_inbound-there = ground (
    arith,
    str_eq_iff a.instance_id a.instance_id,
    lookup-insert a.instance_id a.instance_id (InboundManager.worker_of cfg a b c) m.workers,
  )

-- A dispatcher that has an account more leaves the health map as it is.
abbrev pub WhenAdded : InboundManager → Option (OutboundDispatcher × HealthMap) → Type 0
WhenAdded m none = Unit
WhenAdded m (some (d, h)) = (h ≡ m.health) × HasReaders m d × KnowsSenders d

add_opened-WhenAdded :
    (a : EmailAccountConfig) (o : Option OutboundQueue) (m : InboundManager)
    (d : OutboundDispatcher)
    → HasHealth m
    → HasReaders m d
    → KnowsSenders d
    → is_some (lookup a.instance_id m.workers) ≡ true
    → WhenAdded m (add_opened a o d m.health)
unfolding add_opened or_default
add_opened-WhenAdded a none m d health readers knows there = tt
add_opened-WhenAdded a (some q) m d health readers knows there =
    let id' = a.instance_id in
    let worker : OutboundSlot = record { account_cfg = a; max_dlq_lines = d.max_dlq_lines } in
    let state : InstanceState = record { queue = q; address = a.address } in
    (
      ground (arith, health id'),
      λ id. ground (arith, readers id, str_eq_iff id' id, lookup-insert id' id worker d.workers),
      λ id. ground (
        arith,
        knows id,
        lookup-insert id' id worker d.workers,
        lookup-insert id' id state d.core,
      ),
    )

pub add_outbound-WhenAdded :
    (disk : Disk) (a : EmailAccountConfig) (m : InboundManager) (d : OutboundDispatcher)
    → HasHealth m
    → HasReaders m d
    → KnowsSenders d
    → is_some (lookup a.instance_id m.workers) ≡ true
    → WhenAdded m (OutboundDispatcher.add_account disk a d m.health)
unfolding OutboundDispatcher.add_account
add_outbound-WhenAdded disk a m d health readers knows there = at (lookup a.instance_id d.workers)
  where
    at :
        (o : Option OutboundSlot)
        → WhenAdded m (elim o [
          | some _ ↦ some (d, m.health)
          | none ↦ add_opened a (open_queue disk a.instance_id) d m.health
        ])
    at (some w) = (refl, readers, knows)
    at none = add_opened-WhenAdded a (open_queue disk a.instance_id) m d health readers knows there
