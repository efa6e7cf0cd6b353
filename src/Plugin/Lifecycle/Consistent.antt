-- ===== src/Plugin/Lifecycle/Consistent.antt =====
-- src/plugin.rs: the two managers agree on their accounts, whatever one operation does.
use nexo_plugin_email.Base.{
  Str, Bool, true, false, Option, none, some, List, [], ◌∷◌, ◌≡◌, refl, sym, subst, lookup,
  str_is_eq,
}
use nexo_plugin_email.Config.{EmailPluginConfig}
use nexo_plugin_email.Health.{HealthMap}
use nexo_plugin_email.InboundManager
use nexo_plugin_email.InboundManager.{InboundManager}
use nexo_plugin_email.OutboundDispatcher
use nexo_plugin_email.OutboundDispatcher.{OutboundDispatcher}
use nexo_plugin_email.Plugin.Lifecycle.{
  is_some, HasHealth, HasReaders, KnowsSenders, WhenAdded, remove_inbound-HasHealth,
  teardown-HasReaders, remove_outbound-KnowsSenders, add_inbound-HasHealth, add_inbound-keeps,
  add_inbound-there, add_outbound-WhenAdded,
}
use nexo_plugin_email.Plugin.{
  Host, EmailPlugin, GcTasks, no_credential, Step, remove_outbound, remove_inbound, teardown,
  remove_all, outbound_added, spawn_outbound, spawn_checked, spawn_account,
}
use nexo_plugin_email.Reload.{EmailAccountConfig}

-- The two managers agree. There is no dispatcher without an inbound manager.
abbrev pub Agree : Option InboundManager → Option OutboundDispatcher → Type 0
Agree none none = Unit
Agree none (some d) = ⊥
Agree (some m) none = HasHealth m
Agree (some m) (some d) = HasHealth m × HasReaders m d × KnowsSenders d

abbrev pub IsConsistent : EmailPlugin → Type 0
IsConsistent p = Agree p.inbound p.outbound

remove_account-Agree :
    (x : Str) (i : Option InboundManager) (o : Option OutboundDispatcher) (c : EmailPluginConfig)
    (g : GcTasks)
    → Agree i o
    → IsConsistent (teardown x (record { cfg = c; inbound = i; outbound = o; gc_tasks = g }))
unfolding remove_outbound remove_inbound
remove_account-Agree x none none c g h = h
remove_account-Agree x none (some d) c g h = h
remove_account-Agree x (some m) none c g h = remove_inbound-HasHealth x m h
remove_account-Agree x (some m) (some d) c g (health, readers, knows) = (
  remove_inbound-HasHealth x m health,
  teardown-HasReaders x m d readers,
  remove_outbound-KnowsSenders x d knows,
)

pub teardown-IsConsistent :
    (x : Str) (p : EmailPlugin) → IsConsistent p → IsConsistent (teardown x p)
teardown-IsConsistent x p h = remove_account-Agree x p.inbound p.outbound p.cfg p.gc_tasks h

pub remove_all-IsConsistent :
    (gone : List Str) (p : EmailPlugin) → IsConsistent p → IsConsistent (remove_all gone p)
unfolding remove_all
remove_all-IsConsistent [] p h = h
remove_all-IsConsistent (x ∷ gone) p h =
    remove_all-IsConsistent gone (teardown x p) (teardown-IsConsistent x p h)

outbound_added-IsConsistent :
    (r : Option (OutboundDispatcher × HealthMap)) (m : InboundManager) (p : EmailPlugin)
    → HasHealth m
    → WhenAdded m r
    → Agree (some m) p.outbound
    → IsConsistent (outbound_added r m p).0
unfolding outbound_added
outbound_added-IsConsistent none m p health added before = before
outbound_added-IsConsistent (some (d, h)) m p health (same, readers, knows) before = (
  λ id. subst (λ e. is_some (lookup id e) ≡ is_some (lookup id m.workers)) (sym same) (health id),
  readers,
  knows,
)

module _ (host : Host) where
  spawn_outbound-IsConsistent :
      (a : EmailAccountConfig) (o : Option OutboundDispatcher) (m : InboundManager)
      (p : EmailPlugin)
      → p.outbound ≡ o
      → Agree (some m) o
      → is_some (lookup a.instance_id m.workers) ≡ true
      → IsConsistent (spawn_outbound host a o m p).0
  unfolding spawn_outbound
  spawn_outbound-IsConsistent a none m p e h there = subst (Agree (some m)) (sym e) h
  spawn_outbound-IsConsistent a (some d) m p e (health, readers, knows) there =
      outbound_added-IsConsistent (OutboundDispatcher.add_account host.disk a d m.health) m p health
        (add_outbound-WhenAdded host.disk a m d health readers knows there)
        (subst (Agree (some m)) (sym e) (health, readers, knows))

  pub grown-Agree :
      (cfg : EmailPluginConfig) (a : EmailAccountConfig) (m : InboundManager)
      (o : Option OutboundDispatcher)
      → Agree (some m) o
      → Agree
          (some (InboundManager.add_account cfg a host.bounce_opens host.attachments_open m).0)
          o
  grown-Agree cfg a m none h =
      add_inbound-HasHealth cfg a host.bounce_opens host.attachments_open m h
  grown-Agree cfg a m (some d) (health, readers, knows) = (
    add_inbound-HasHealth cfg a host.bounce_opens host.attachments_open m health,
    λ id h. add_inbound-keeps cfg a host.bounce_opens host.attachments_open m id (readers id h),
    knows,
  )

  spawn_checked-IsConsistent :
      (cfg : EmailPluginConfig) (a : EmailAccountConfig) (i : Option InboundManager)
      (p : EmailPlugin)
      → p.inbound ≡ i
      → IsConsistent p
      → IsConsistent (spawn_checked host cfg a i p).0
  unfolding spawn_checked
  spawn_checked-IsConsistent cfg a none p e h = h
  spawn_checked-IsConsistent cfg a (some m) p e h =
      spawn_outbound-IsConsistent a p.outbound
        (InboundManager.add_account cfg a host.bounce_opens host.attachments_open m).0 p refl
        (grown-Agree cfg a m p.outbound (subst (λ i. Agree i p.outbound) e h))
        (add_inbound-there cfg a host.bounce_opens host.attachments_open m)

  pub spawn_account-IsConsistent :
      (cfg : EmailPluginConfig) (a : EmailAccountConfig) (p : EmailPlugin)
      → IsConsistent p
      → IsConsistent (spawn_account host cfg a p).0
  unfolding spawn_account
  spawn_account-IsConsistent cfg a p h = checked (host.has_credential a.instance_id)
    where
      checked :
          (b : Bool)
          → (let s : Step = elim b [
            | false ↦ (p, some (no_credential a.instance_id))
            | true ↦ spawn_checked host cfg a p.inbound p
          ] in
              IsConsistent s.0)
      checked false = h
      checked true = spawn_checked-IsConsistent cfg a p.inbound p refl h
